-- ===== src/Base/Text/Splits.antt =====
-- How the splits of a text find their separator.
use mavlink_router_rs.Base.{
  ℕ, ◌≡◌, refl, Bool, true, false, not, none, some, [], ◌∷◌, ◌++◌, Name, arith,
}
use mavlink_router_rs.Base.Text.{contains_char, all, split_once, rsplit_at, split}

pub split_once-append :
    (c : ℕ) (s t : Name) → contains_char c s ≡ false → split_once c (s ++ c ∷ t) ≡ some (s, t)
unfolding split_once
split_once-append c [] t h = ground arith
split_once-append c (d ∷ s) t h = ground (arith, split_once-append c s t)

pub split_once_free : (c : ℕ) (s : Name) → contains_char c s ≡ false → split_once c s ≡ none
unfolding split_once
split_once_free c [] h = refl
split_once_free c (d ∷ s) h = ground (arith, split_once_free c s)

pub split-append :
    (c : ℕ) (s t : Name) → contains_char c s ≡ false → split c (s ++ c ∷ t) ≡ s ∷ split c t
unfolding split
split-append c [] t h = ground arith
split-append c (d ∷ s) t h = ground (arith, split-append c s t)

pub split_free : (c : ℕ) (s : Name) → contains_char c s ≡ false → split c s ≡ s ∷ []
unfolding split
split_free c [] h = refl
split_free c (d ∷ s) h = ground (arith, split_free c s)

rsplit_at_free : (p : ℕ → Bool) (s : Name) → all (λ c. not (p c)) s ≡ true → rsplit_at p s ≡ none
unfolding rsplit_at
rsplit_at_free p [] h = refl
rsplit_at_free p (c ∷ s) h = ground (arith, rsplit_at_free p s)

pub rsplit_at-append :
    (p : ℕ → Bool) (s : Name) (c : ℕ) (t : Name)
    → p c ≡ true
    → all (λ d. not (p d)) t ≡ true
    → rsplit_at p (s ++ c ∷ t) ≡ some (s, t)
unfolding rsplit_at
rsplit_at-append p [] c t hit h = ground (arith, rsplit_at_free p t h)
rsplit_at-append p (d ∷ s) c t hit h = ground (arith, rsplit_at-append p s c t hit h)

pub all-append :
    (p : ℕ → Bool) (s t : Name) → all p s ≡ true → all p t ≡ true → all p (s ++ t) ≡ true
all-append p [] t h g = g
all-append p (c ∷ s) t h g = ground (arith, all-append p s t)

-- What every character passes, every character passes that it implies.
pub all_weaken :
    (p q : ℕ → Bool)
    → ((c : ℕ) → p c ≡ true → q c ≡ true)
    → (s : Name) → all p s ≡ true
    → all q s ≡ true
all_weaken p q h [] g = refl
all_weaken p q h (c ∷ s) g = ground (arith, h c, all_weaken p q h s)

pub contains_char-append :
    (c : ℕ) (s t : Name)
    → contains_char c s ≡ false
    → contains_char c t ≡ false
    → contains_char c (s ++ t) ≡ false
contains_char-append c [] t h g = g
contains_char-append c (d ∷ s) t h g = ground (arith, contains_char-append c s t)
