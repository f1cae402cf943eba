-- ===== src/Base/Results.antt =====
-- `Result`, with `?` as the bind of a `do` block, and a loop that stops at the first error.
use mavlink_router_rs.Base.{◌≡◌, refl, Bool, true, false, Option, none, some, List, [], ◌∷◌, subst}

pub data Result {ℓ κ} (E : Type ℓ) (A : Type κ) : Type (ℓ ⊔ κ) where
  ok : A → Result E A
  err : E → Result E A

module _ {ℓ κ μ} {E : Type ℓ} {A : Type κ} {B : Type μ} where
  infixl 5 ◌>>=◌ ◌>>◌
  abbrev pub ◌>>=◌ : Result E A → (A → Result E B) → Result E B
  ok a >>= f = f a
  err e >>= f = err e

  abbrev pub ◌>>◌ : Result E A → Result E B → Result E B
  ok a >> k = k
  err e >> k = err e

  pub bind_eq_ok :
      (m : Result E A) (f : A → Result E B) {b : B}
      → (m >>= f) ≡ ok b
      → (a : A) × (m ≡ ok a) × (f a ≡ ok b)
  bind_eq_ok (ok a) f h = (a, refl, h)
  bind_eq_ok (err e) f h = cc

  pub then_eq_ok :
      (m : Result E A) (k : Result E B) {b : B}
      → (m >> k) ≡ ok b
      → (a : A) × (m ≡ ok a) × (k ≡ ok b)
  then_eq_ok (ok a) k h = (a, refl, h)
  then_eq_ok (err e) k h = cc

-- `Option::ok_or_else`.
abbrev pub ok_or {ℓ κ} : {E : Type ℓ} {A : Type κ} → Option A → E → Result E A
ok_or none e = err e
ok_or (some a) e = ok a

-- `Result::map_err`.
abbrev pub map_err {ℓ κ μ} :
    {E : Type ℓ} {F : Type κ} {A : Type μ} → (E → F) → Result E A → Result F A
map_err f (ok a) = ok a
map_err f (err e) = err (f e)

-- A test that returns early with an error.
abbrev pub reject_if {ℓ} : {E : Type ℓ} → Bool → E → Result E (Unit {0})
reject_if true e = err e
reject_if false e = ok tt

-- A `for` loop that pushes what each item gives, up to the first error.
unfoldable pub collect {ℓ κ μ} :
    {E : Type ℓ} {A : Type κ} {B : Type μ} → (A → Result E B) → List A → Result E (List B)
collect f [] = ok []
collect f (x ∷ xs) = do y ← f x; ys ← collect f xs; ok (y ∷ ys)

abbrev pub All {ℓ κ} : {A : Type ℓ} → (A → Type κ) → List A → Type κ
All P [] = Unit
All P (x ∷ xs) = P x × All P xs

-- What each item's value satisfies, every value of the loop satisfies.
pub collect-All {ℓ κ μ ν} :
    {E : Type ℓ} {A : Type κ} {B : Type μ} {P : B → Type ν} (f : A → Result E B)
    → ((a : A) (b : B) → f a ≡ ok b → P b)
    → (xs : List A) {ys : List B} → collect f xs ≡ ok ys
    → All P ys
unfolding collect
collect-All f h [] {ys = []} e = tt
collect-All f h [] {ys = y ∷ ys} e = cc
collect-All {E} {A} {B} {P} f h (x ∷ xs) {ys = zs} e =
    let (y, first, later) = bind_eq_ok (f x) (λ y. collect f xs >>= λ ys. ok (y ∷ ys)) e in
    let (ys, rest, whole) = bind_eq_ok (collect f xs) (λ ys. ok (y ∷ ys)) later in
    let same : y ∷ ys ≡ zs = cc in
    subst (All P) same (h x y first, collect-All {P = P} f h xs {ys = ys} rest)

-- What holds of the value, if there is one.
abbrev pub OnOk {ℓ κ μ} : {E : Type ℓ} {A : Type κ} → (A → Type μ) → Result E A → Type μ
OnOk P (ok a) = P a
OnOk P (err e) = Unit

pub OnOk-intro {ℓ κ μ} :
    {E : Type ℓ} {A : Type κ} {P : A → Type μ} (r : Result E A)
    → ((a : A) → r ≡ ok a → P a)
    → OnOk P r
OnOk-intro (ok a) h = h a refl
OnOk-intro (err e) h = tt

pub OnOk-elim {ℓ κ μ} :
    {E : Type ℓ} {A : Type κ} (P : A → Type μ) (r : Result E A) {a : A} → OnOk P r → r ≡ ok a → P a
OnOk-elim P (ok b) h e = subst P (cc) h
OnOk-elim P (err x) h e = cc

pub OnOk-bind {ℓ κ μ ν o} :
    {E : Type ℓ} {A : Type κ} {B : Type μ} (P : A → Type ν) (Q : B → Type o) (r : Result E A)
    (f : A → Result E B)
    → OnOk P r
    → ((a : A) → P a → OnOk Q (f a))
    → OnOk Q (r >>= f)
OnOk-bind P Q (ok a) f h k = k a h
OnOk-bind P Q (err e) f h k = tt
