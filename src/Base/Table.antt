-- ===== src/Base/Table.antt =====
-- A hash map as an association list: `get`, `insert` and `remove` with at most one entry a key.
-- The order of the list stands for the map's iteration order, which the program does not rely on.
use mavlink_router_rs.Base.{
  ℕ, ◌+◌, ◌≡◌, refl, Bool, true, Option, none, some, List, [], ◌∷◌, arith, Eq, if◌then◌else◌,
  Bool-cases, inl, inr, length, get_elem?, zero, suc, ◌≢◌, ◌≤◌, ◌<◌, subst,
}

abbrev pub counts {κ} : {V : Type κ} → (V → Bool) → Option V → ℕ
counts p none = 0
counts p (some v) = if p v then 1 else 0

module _ {ℓ κ} {K : Type ℓ} {V : Type κ} ⦃e : Eq K⦄ where
  unfoldable pub get : K → List (K × V) → Option V
  get k [] = none
  get k ((j, v) ∷ m) = if e.beq j k then some v else get k m

  unfoldable pub remove : K → List (K × V) → List (K × V)
  remove k [] = []
  remove k ((j, v) ∷ m) = if e.beq j k then remove k m else (j, v) ∷ remove k m

  unfoldable pub insert : K → V → List (K × V) → List (K × V)
  insert k v m = (k, v) ∷ remove k m

  pub get-remove :
      (k j : K) (m : List (K × V)) → get j (remove k m) ≡ (if e.beq k j then none else get j m)
  unfolding get remove
  get-remove k j [] = ground arith
  get-remove k j ((i, v) ∷ m) =
      ground (arith, e.beq_iff k j, e.beq_iff i k, e.beq_iff i j, get-remove k j m)

  pub get-insert :
      (k j : K) (v : V) (m : List (K × V))
      → get j (insert k v m) ≡ (if e.beq k j then some v else get j m)
  unfolding get insert
  get-insert k j v m = ground (arith, get-remove k j m)

  pub remove_absent : (k : K) (m : List (K × V)) → get k m ≡ none → remove k m ≡ m
  unfolding get remove
  remove_absent k [] h = refl
  remove_absent k ((j, v) ∷ m) h = ground (arith, remove_absent k m)

  pub length-remove-le : (k : K) (m : List (K × V)) → length (remove k m) ≤ length m
  unfolding remove
  length-remove-le k [] = omega arith
  length-remove-le k ((j, v) ∷ m) = ground (arith, length-remove-le k m)

  -- No two entries have one key.
  abbrev pub Unique : List (K × V) → Type κ
  Unique [] = Unit
  Unique ((k, v) ∷ m) = (get k m ≡ none) × Unique m

  pub Unique-remove : (k : K) (m : List (K × V)) → Unique m → Unique (remove k m)
  unfolding remove
  Unique-remove k [] u = tt
  Unique-remove k ((j, v) ∷ m) (fresh, rest) = elim (Bool-cases (e.beq j k)) [
    | inl hit ↦ rw hit (Unique-remove k m rest)
    | inr miss ↦ rw miss (ground (arith, get-remove k j m, fresh), Unique-remove k m rest)
  ]

  pub Unique-insert : (k : K) (v : V) (m : List (K × V)) → Unique m → Unique (insert k v m)
  unfolding insert
  Unique-insert k v m u =
      (ground (arith, get-remove k k m, (e.beq_iff k k).1 refl), Unique-remove k m u)

  -- How many entries pass a test.
  unfoldable pub count : (V → Bool) → List (K × V) → ℕ
  count p [] = 0
  count p ((k, v) ∷ m) = (if p v then 1 else 0) + count p m

  -- Removing a key takes its entry from the count.
  pub count-remove :
      (p : V → Bool) (k : K) (m : List (K × V))
      → Unique m
      → count p (remove k m) + counts p (get k m) ≡ count p m
  unfolding count remove get
  count-remove p k [] u = refl
  count-remove p k ((j, v) ∷ m) (fresh, rest) = elim (Bool-cases (e.beq j k)) [
    | inl hit ↦
        let absent : get k m ≡ none = subst (λ i. get i m ≡ none) ((e.beq_iff j k).0 hit) fresh in
        rw hit (rw (remove_absent k m absent) (omega arith))
    | inr miss ↦ rw miss (omega (arith, count-remove p k m rest))
  ]

  pub count-insert :
      (p : V → Bool) (k : K) (v : V) (m : List (K × V))
      → Unique m
      → count p (insert k v m) + counts p (get k m) ≡ (if p v then 1 else 0) + count p m
  unfolding count insert
  count-insert p k v m u = omega (arith, count-remove p k m u)

  -- An entry that passes is counted.
  pub count-get :
      (p : V → Bool) (k : K) (m : List (K × V)) {v : V}
      → get k m ≡ some v
      → p v ≡ true
      → 0 < count p m
  unfolding count get
  count-get p k [] g h = absurd (cc)
  count-get p k ((j, w) ∷ m) {v = v} g h = elim (Bool-cases (e.beq j k)) [
    | inl hit ↦ ground arith
    | inr miss ↦ omega (arith, count-get p k m {v = v} (rw miss at g) h)
  ]

  -- An entry that is there is gone from the length.
  pub length-remove-lt :
      (k : K) (m : List (K × V)) {v : V} → get k m ≡ some v → length (remove k m) < length m
  unfolding get remove
  length-remove-lt k [] g = absurd (cc)
  length-remove-lt k ((j, w) ∷ m) {v = v} g = elim (Bool-cases (e.beq j k)) [
    | inl hit ↦ rw hit (omega (arith, length-remove-le k m))
    | inr miss ↦ rw miss (omega (arith, length-remove-lt k m {v = v} (rw miss at g)))
  ]

  -- The key of an entry is found.
  pub get-elem : (m : List (K × V)) (i : ℕ) {p : K × V} → get_elem? m i ≡ some p → get p.0 m ≢ none
  unfolding get
  get-elem [] i g = absurd (cc)
  get-elem ((j, w) ∷ m) zero {p = p} g = λ absent. ground (arith, e.beq_iff j p.0)
  get-elem ((j, w) ∷ m) (suc i) {p = p} g = λ absent. ground (arith, get-elem m i {p = p} g, absent)
