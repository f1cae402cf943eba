-- ===== src/Base/Entries.antt =====
-- Vectors of entries that are searched by a key, with the oldest entry found by `min_by_key` and
-- taken out by `swap_remove`: the operations of `Vec` and of iterators that the learn table and the
-- sequence tracker use.
use mavlink_router_rs.Base.{
  ℕ, zero, suc, ◌≤◌, ◌<◌, ◌≡◌, refl, ap, subst, false, Option, none, some, List, [], ◌∷◌, ◌++◌,
  arith, Eq, ltb, if◌then◌else◌, length, length-append, get_elem?, Bool-cases, inl, inr,
}

module _ {ℓ} {A : Type ℓ} where
  -- The first entry at which the measure is least, with its index: `enumerate().min_by_key`.
  unfoldable pub min_by_key : (A → ℕ) → List A → Option (ℕ × A)
  min_by_key s [] = none
  min_by_key s (x ∷ xs) = elim (min_by_key s xs) [
    | none ↦ some (0, x)
    | some (i, y) ↦ if ltb (s y) (s x) then some (suc i, y) else some (0, x)
  ]

  split_last : List A → Option (List A × A)
  split_last [] = none
  split_last (x ∷ xs) = elim (split_last xs) [
    | none ↦ some ([], x)
    | some (front, last) ↦ some (x ∷ front, last)
  ]

  -- `Vec::swap_remove`: the last entry takes the place of the one removed.
  unfoldable pub swap_remove : ℕ → List A → List A
  unfolding split_last
  swap_remove i [] = []
  swap_remove zero (x ∷ xs) = elim (split_last xs) [ none ↦ [] | some (front, last) ↦ last ∷ front ]
  swap_remove (suc i) (x ∷ xs) = x ∷ swap_remove i xs

  abbrev Splits : List A → Option (List A × A) → Type ℓ
  Splits xs none = xs ≡ []
  Splits xs (some (front, last)) = xs ≡ front ++ last ∷ []

  split_last-Splits : (xs : List A) → Splits xs (split_last xs)
  unfolding split_last
  split_last-Splits [] = refl
  split_last-Splits (x ∷ xs) = go (split_last xs) (split_last-Splits xs) refl
    where
      go :
          (o : Option (List A × A))
          → Splits xs o
          → split_last xs ≡ o
          → Splits (x ∷ xs) (split_last (x ∷ xs))
      go none h e = rw (e, split_last) (ap (◌∷◌ x) h)
      go (some (front, last)) h e = rw (e, split_last) (ap (◌∷◌ x) h)

  pub length-swap_remove :
      (xs : List A) (i : ℕ) → i < length xs → suc (length (swap_remove i xs)) ≡ length xs
  unfolding swap_remove
  length-swap_remove [] i h = absurd (omega arith)
  length-swap_remove (x ∷ xs) zero h = go (split_last xs) (split_last-Splits xs) refl
    where
      go :
          (o : Option (List A × A))
          → Splits xs o
          → split_last xs ≡ o
          → suc (length (swap_remove zero (x ∷ xs))) ≡ suc (length xs)
      go none e s = rw (s, swap_remove) (rw e)
      go (some (front, last)) e s =
          rw (s, swap_remove) (rw e (omega (arith, length-append front (last ∷ []))))
  length-swap_remove (x ∷ xs) (suc i) h = ap suc (length-swap_remove xs i (omega arith))

-- Entries with a key, and the time at which each was seen.
module _ {ℓ κ} {K : Type κ} {A : Type ℓ} ⦃e : Eq K⦄ (key : A → K) where
  -- `iter().find(|entry| entry.key == k)`.
  unfoldable pub find : K → List A → Option A
  find k [] = none
  find k (x ∷ xs) = if e.beq (key x) k then some x else find k xs

  -- A write through the reference that `iter_mut().find(..)` returns.
  unfoldable pub modify : K → (A → A) → List A → List A
  modify k f [] = []
  modify k f (x ∷ xs) = if e.beq (key x) k then f x ∷ xs else x ∷ modify k f xs

  -- No two entries have one key.
  abbrev pub Distinct : List A → Type ℓ
  Distinct [] = Unit
  Distinct (x ∷ xs) = (find (key x) xs ≡ none) × Distinct xs

  pub length-modify : (k : K) (f : A → A) (xs : List A) → length (modify k f xs) ≡ length xs
  unfolding modify
  length-modify k f [] = refl
  length-modify k f (x ∷ xs) = ground (arith, length-modify k f xs)

  find_key : (k : K) (xs : List A) {found : A} → find k xs ≡ some found → key found ≡ k
  unfolding find
  find_key k [] h = absurd (cc)
  find_key k (x ∷ xs) {found = y} h = ground (arith, find_key k xs {found = y}, e.beq_iff (key x) k)

  pub find-append :
      (k : K) (xs : List A) (y : A)
      → find k (xs ++ y ∷ []) ≡ elim (find k xs) as (λ _. Option A) [
        | none ↦ if e.beq (key y) k then some y else none
        | some x ↦ some x
      ]
  unfolding find
  find-append k [] y = refl
  find-append k (x ∷ xs) y = ground (arith, find-append k xs y)

  pub find-modify :
      (k j : K) (f : A → A) (xs : List A)
      → ((a : A) → key (f a) ≡ key a)
      → find j (modify k f xs) ≡ (
          if e.beq k j
          then elim (find k xs) as (λ _. Option A) [ none ↦ none | some x ↦ some (f x) ]
          else find j xs)
  unfolding find modify
  find-modify k j f [] h = ground arith
  find-modify k j f (x ∷ xs) h = ground (
    arith,
    find-modify k j f xs h,
    h x,
    e.beq_iff (key x) k,
    e.beq_iff (key (f x)) j,
    e.beq_iff k j,
    e.beq_iff (key x) j,
  )

  unfound_elem :
      (k : K) (xs : List A) (i : ℕ) {v : A}
      → find k xs ≡ none
      → get_elem? xs i ≡ some v
      → e.beq (key v) k ≡ false
  unfolding find
  unfound_elem k [] i h g = absurd (cc)
  unfound_elem k (x ∷ xs) zero {v = v} h g = ground arith
  unfound_elem k (x ∷ xs) (suc i) {v = v} h g = unfound_elem k xs i (ground arith) g

  Distinct-init :
      (xs : List A) (y : A) → Distinct (xs ++ y ∷ []) → Distinct xs × (find (key y) xs ≡ none)
  unfolding find
  Distinct-init [] y h = (tt, refl)
  Distinct-init (x ∷ xs) y (fresh, rest) =
      let (distinct, last) = Distinct-init xs y rest in
      let apart = find-append (key x) xs y in
      (
        (ground (arith, apart), distinct),
        ground (arith, apart, last, e.beq_iff (key x) (key y), e.beq_iff (key y) (key x)),
      )

  pub Distinct-append :
      (xs : List A) (y : A) → Distinct xs → find (key y) xs ≡ none → Distinct (xs ++ y ∷ [])
  unfolding find
  Distinct-append [] y d h = (refl, tt)
  Distinct-append (x ∷ xs) y (fresh, rest) h = (
    ground (arith, find-append (key x) xs y, e.beq_iff (key x) (key y), e.beq_iff (key y) (key x)),
    Distinct-append xs y rest (ground arith),
  )

  pub find-swap_remove :
      (k : K) (xs : List A) (i : ℕ) {v : A}
      → Distinct xs
      → get_elem? xs i ≡ some v
      → find k (swap_remove i xs) ≡ (if e.beq (key v) k then none else find k xs)
  unfolding find swap_remove
  find-swap_remove k [] i d g = absurd (cc)
  find-swap_remove k (x ∷ xs) zero {v = v} (fresh, rest) g =
      go (split_last xs) (split_last-Splits xs) refl
    where
      go :
          (o : Option (List A × A))
          → Splits xs o
          → split_last xs ≡ o
          → find k (swap_remove zero (x ∷ xs)) ≡ (if e.beq (key v) k then none else find k (x ∷ xs))
      go none s o = rw (o, swap_remove) (rw s (ground arith))
      go (some (front, last)) s o =
          let (distinct, apart) = Distinct-init front last (subst Distinct s rest) in
          let absent : find (key x) (front ++ last ∷ []) ≡ none = rw (← s) fresh in
          rw (o, swap_remove)
            (rw s (
              ground (
                arith,
                find-append k front last,
                find-append (key x) front last,
                absent,
                apart,
                e.beq_iff (key last) k,
                e.beq_iff (key x) k,
              )))
  find-swap_remove k (x ∷ xs) (suc i) {v = v} (fresh, rest) g = ground (
    arith,
    find-swap_remove k xs i rest g,
    unfound_elem (key x) xs i fresh g,
    e.beq_iff (key v) k,
    e.beq_iff (key x) k,
    e.beq_iff (key v) (key x),
  )

  pub Distinct-swap_remove :
      (xs : List A) (i : ℕ) {v : A}
      → Distinct xs
      → get_elem? xs i ≡ some v
      → Distinct (swap_remove i xs)
  unfolding swap_remove
  Distinct-swap_remove [] i d g = absurd (cc)
  Distinct-swap_remove (x ∷ xs) zero (fresh, rest) g =
      go (split_last xs) (split_last-Splits xs) refl
    where
      go :
          (o : Option (List A × A))
          → Splits xs o
          → split_last xs ≡ o
          → Distinct (swap_remove zero (x ∷ xs))
      go none s o = rw (o, swap_remove) tt
      go (some (front, last)) s o =
          let (distinct, apart) = Distinct-init front last (subst Distinct s rest) in
          rw (o, swap_remove) (apart, distinct)
  Distinct-swap_remove (x ∷ xs) (suc i) (fresh, rest) g = (
    ground (arith, find-swap_remove (key x) xs i rest g, fresh),
    Distinct-swap_remove xs i rest g,
  )

  pub Distinct-modify :
      (k : K) (f : A → A) (xs : List A)
      → ((a : A) → key (f a) ≡ key a)
      → Distinct xs
      → Distinct (modify k f xs)
  unfolding modify find
  Distinct-modify k f [] h d = tt
  Distinct-modify k f (x ∷ xs) h (fresh, rest) = elim (Bool-cases (e.beq (key x) k)) [
    | inl hit ↦ rw hit (rw (h x) fresh, rest)
    | inr miss ↦ rw miss (
      ground (
        arith,
        find-modify k (key x) f xs h,
        fresh,
        miss,
        e.beq_iff k (key x),
        e.beq_iff (key x) k,
      ),
      Distinct-modify k f xs h rest,
    )
  ]

-- The first of the least entries: where it stands, and that no entry found is below it.
abbrev pub Least {ℓ} : {A : Type ℓ} → (A → ℕ) → List A → Option (ℕ × A) → Type ℓ
Least s xs none = xs ≡ []
Least s xs (some (i, v)) = (get_elem? xs i ≡ some v) × (i < length xs)

pub min_by_key_cases {ℓ} : {A : Type ℓ} (s : A → ℕ) (xs : List A) → Least s xs (min_by_key s xs)
unfolding min_by_key
min_by_key_cases s [] = refl
min_by_key_cases {A} s (x ∷ xs) = go (min_by_key s xs) refl (min_by_key_cases s xs)
  where
    go :
        (o : Option (ℕ × A))
        → min_by_key s xs ≡ o
        → Least s xs o
        → Least s (x ∷ xs) (min_by_key s (x ∷ xs))
    go none o h = rw (o, min_by_key) (refl, omega arith)
    go (some (i, y)) o (g, lt) = elim (Bool-cases (ltb (s y) (s x))) [
      | inl less ↦ rw (o, min_by_key) (rw less (g, omega arith))
      | inr more ↦ rw (o, min_by_key) (rw more (refl, omega arith))
    ]

module _ {ℓ κ} {K : Type κ} {A : Type ℓ} ⦃e : Eq K⦄ (key : A → K) (s : A → ℕ) where
  pub min_by_key_least :
      (xs : List A) (k : K) {i : ℕ} {v a : A}
      → min_by_key s xs ≡ some (i, v)
      → find key k xs ≡ some a
      → s v ≤ s a
  unfolding min_by_key find
  min_by_key_least [] k h g = absurd (cc)
  min_by_key_least (x ∷ xs) k {i = i} {v = v} {a = a} h g =
      go (min_by_key s xs) refl (min_by_key_cases s xs)
        (λ j y m f. min_by_key_least xs k {i = j} {v = y} {a = a} m f)
    where
      go :
          (o : Option (ℕ × A))
          → min_by_key s xs ≡ o
          → Least s xs o
          → ((j : ℕ) (y : A) → min_by_key s xs ≡ some (j, y) → find key k xs ≡ some a → s y ≤ s a)
          → s v ≤ s a
      go none o l ih = let g' = rw l at g in ground arith
      go (some (j, y)) o l ih = ground (arith, ih j y o)

module _ {ℓ κ} {K : Type κ} {A : Type ℓ} ⦃e : Eq K⦄ (key : A → K) where
  -- Where no key stands twice, an entry is found under its own key.
  pub find_elem :
      (xs : List A) (i : ℕ) {v : A}
      → Distinct key xs
      → get_elem? xs i ≡ some v
      → find key (key v) xs ≡ some v
  unfolding find
  find_elem [] i d g = absurd (cc)
  find_elem (x ∷ xs) zero {v = v} d g = ground (arith, e.beq_iff (key x) (key v))
  find_elem (x ∷ xs) (suc i) {v = v} (fresh, rest) g = ground (
    arith,
    find_elem xs i rest g,
    unfound_elem key (key x) xs i fresh g,
    e.beq_iff (key x) (key v),
    e.beq_iff (key v) (key x),
  )
