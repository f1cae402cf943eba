-- ===== src/Config/Merge/Names.antt =====
-- The checks on the names of endpoints, and the endpoints of the merge as a map from names.
use mavlink_router_rs.Base.{
  ℕ, ◌+◌, ◌≤◌, ◌≡◌, refl, Bool, true, false, Option, none, some, List, [], ◌∷◌, ◌++◌, any,
  if◌then◌else◌, Name, name_eq, name_eq_iff, name_key, arith, Bool-cases, inl, inr,
}
use mavlink_router_rs.Base.Entries.{find, Distinct}
use mavlink_router_rs.Base.Results.{ok, err}
use mavlink_router_rs.Config.Merge.{
  duplicate_name, names, unseen_names, check_unique_names, split_overridden, merge_endpoints,
}
use mavlink_router_rs.Spec.Build.{EndpointSpec}

abbrev pub name_of : EndpointSpec → Name
name_of endpoint = endpoint.name

-- How often a name stands in a list.
abbrev pub count : Name → List Name → ℕ
count name [] = 0
count name (x ∷ xs) = (if name_eq name x then 1 else 0) + count name xs

-- The endpoint of a name.
abbrev pub lookup : Name → List EndpointSpec → Option EndpointSpec
lookup name endpoints = find name_of name endpoints

-- No two endpoints have one name.
abbrev pub DistinctNames : List EndpointSpec → Type 0
DistinctNames endpoints = Distinct name_of endpoints

abbrev pub is_found {ℓ} : {A : Type ℓ} → Option A → Bool
is_found none = false
is_found (some a) = true

-- A name is among those of the endpoints exactly if it has an endpoint.
pub any-names :
    (name : Name) (endpoints : List EndpointSpec)
    → any (name_eq name) (names endpoints) ≡ is_found (lookup name endpoints)
unfolding find
any-names name [] = refl
any-names name (e ∷ endpoints) =
    ground (arith, any-names name endpoints, name_eq_iff name e.name, name_eq_iff e.name name)

abbrev Apart : List Name → List EndpointSpec → Type 0
Apart seen [] = Unit
Apart seen (e ∷ endpoints) = (any (name_eq e.name) seen ≡ false) × Apart seen endpoints

Apart-cons :
    (name : Name) (seen : List Name) (endpoints : List EndpointSpec)
    → lookup name endpoints ≡ none
    → Apart seen endpoints
    → Apart (name ∷ seen) endpoints
unfolding find
Apart-cons name seen [] absent h = tt
Apart-cons name seen (e ∷ endpoints) absent (fresh, rest) =
    (ground (arith, name_eq_iff e.name name), Apart-cons name seen endpoints (ground arith) rest)

Apart-tail :
    (name : Name) (seen : List Name) (endpoints : List EndpointSpec)
    → Apart (name ∷ seen) endpoints
    → (lookup name endpoints ≡ none) × Apart seen endpoints
unfolding find
Apart-tail name seen [] h = (refl, tt)
Apart-tail name seen (e ∷ endpoints) (fresh, rest) =
    let (absent, later) = Apart-tail name seen endpoints rest in
    (ground (arith, name_eq_iff e.name name), (ground arith, later))

unseen_names_ok :
    (seen : List Name) (endpoints : List EndpointSpec)
    → DistinctNames endpoints
    → Apart seen endpoints
    → unseen_names seen endpoints ≡ ok tt
unfolding unseen_names
unseen_names_ok seen [] d h = refl
unseen_names_ok seen (e ∷ endpoints) (absent, d) (fresh, rest) =
    rw fresh
      (unseen_names_ok (e.name ∷ seen) endpoints d (Apart-cons e.name seen endpoints absent rest))

unseen_names-Distinct :
    (seen : List Name) (endpoints : List EndpointSpec)
    → unseen_names seen endpoints ≡ ok tt
    → DistinctNames endpoints × Apart seen endpoints
unfolding unseen_names
unseen_names-Distinct seen [] h = (tt, tt)
unseen_names-Distinct seen (e ∷ endpoints) h = elim (Bool-cases (any (name_eq e.name) seen)) [
  | inl hit ↦ absurd (ground arith)
  | inr miss ↦
      let (d, apart) = unseen_names-Distinct (e.name ∷ seen) endpoints (rw miss at h) in
      let (absent, later) = Apart-tail e.name seen endpoints apart in ((absent, d), (miss, later))
]

Apart-nil : (endpoints : List EndpointSpec) → Apart [] endpoints
Apart-nil [] = tt
Apart-nil (e ∷ endpoints) = (refl, Apart-nil endpoints)

pub check_unique_names_ok :
    (endpoints : List EndpointSpec) → DistinctNames endpoints → check_unique_names endpoints ≡ ok tt
unfolding check_unique_names
check_unique_names_ok endpoints d = unseen_names_ok [] endpoints d (Apart-nil endpoints)

pub check_unique_names-Distinct :
    (endpoints : List EndpointSpec) → check_unique_names endpoints ≡ ok tt → DistinctNames endpoints
unfolding check_unique_names
check_unique_names-Distinct endpoints h = (unseen_names-Distinct [] endpoints h).0

count-any : (name : Name) (xs : List Name) → any (name_eq name) xs ≡ true → 1 ≤ count name xs
count-any name [] h = absurd cc
count-any name (x ∷ xs) h = elim (Bool-cases (name_eq name x)) [
  | inl hit ↦ rw hit (omega arith)
  | inr miss ↦ rw miss (omega (arith, count-any name xs (rw miss at h)))
]

unseen_names_error :
    (seen : List Name) (endpoints : List EndpointSpec)
    → ¬ (unseen_names seen endpoints ≡ ok tt)
    → (name : Name) × (unseen_names seen endpoints ≡ err (duplicate_name name))
      × 2 ≤ count name seen + count name (names endpoints)
unfolding unseen_names
unseen_names_error seen [] h = absurd (h refl)
unseen_names_error seen (e ∷ endpoints) h = elim (Bool-cases (any (name_eq e.name) seen)) [
  | inl hit ↦
      let own : name_eq e.name e.name ≡ true = (name_eq_iff e.name e.name).1 refl in
      (e.name, rw hit refl, rw own (omega (arith, count-any e.name seen hit)))
  | inr miss ↦
      let (name, found, twice) =
        unseen_names_error (e.name ∷ seen) endpoints (λ g. h (rw miss g)) in
      (name, rw miss found, omega (arith, twice))
]

-- The only error of the check is a name that stands twice.
pub check_unique_names_error :
    (endpoints : List EndpointSpec)
    → ¬ DistinctNames endpoints
    → (name : Name) × (check_unique_names endpoints ≡ err (duplicate_name name))
      × 2 ≤ count name (names endpoints)
unfolding check_unique_names
check_unique_names_error endpoints twice =
    let (name, found, often) =
      unseen_names_error [] endpoints (λ h. twice (check_unique_names-Distinct endpoints h)) in
    (name, found, omega (arith, often))

lookup-append :
    (name : Name) (xs ys : List EndpointSpec)
    → lookup name (xs ++ ys) ≡ elim (lookup name xs) as (λ _. Option EndpointSpec) [
      | none ↦ lookup name ys
      | some e ↦ some e
    ]
unfolding find
lookup-append name [] ys = refl
lookup-append name (e ∷ xs) ys = ground (arith, lookup-append name xs ys)

lookup-split_overridden :
    (name : Name) (cli_names : List Name) (endpoints : List EndpointSpec)
    → lookup name (split_overridden cli_names endpoints).0
      ≡ (if any (name_eq name) cli_names then none else lookup name endpoints)
unfolding find split_overridden
lookup-split_overridden name cli_names [] = ground arith
lookup-split_overridden name cli_names (e ∷ endpoints) =
    ground (arith, lookup-split_overridden name cli_names endpoints, name_eq_iff e.name name)

-- The merge is the map of the file's endpoints, overridden by that of the command line's.
pub lookup-merge_endpoints :
    (name : Name) (toml_endpoints cli_endpoints : List EndpointSpec)
    → lookup name (merge_endpoints toml_endpoints cli_endpoints).0
      ≡ elim (lookup name cli_endpoints) as (λ _. Option EndpointSpec) [
        | some e ↦ some e
        | none ↦ lookup name toml_endpoints
      ]
unfolding merge_endpoints
lookup-merge_endpoints name toml_endpoints cli_endpoints = ground (
  arith,
  lookup-append name (split_overridden (names cli_endpoints) toml_endpoints).0 cli_endpoints,
  lookup-split_overridden name (names cli_endpoints) toml_endpoints,
  any-names name cli_endpoints,
)

DistinctNames-split_overridden :
    (cli_names : List Name) (endpoints : List EndpointSpec)
    → DistinctNames endpoints
    → DistinctNames (split_overridden cli_names endpoints).0
      × Apart cli_names (split_overridden cli_names endpoints).0
unfolding split_overridden
DistinctNames-split_overridden cli_names [] d = (tt, tt)
DistinctNames-split_overridden cli_names (e ∷ endpoints) (fresh, d) =
    let (distinct, apart) = DistinctNames-split_overridden cli_names endpoints d in
    elim (Bool-cases (any (name_eq e.name) cli_names)) [
      | inl hit ↦ rw hit (distinct, apart)
      | inr miss ↦ rw miss (
        (ground (arith, lookup-split_overridden e.name cli_names endpoints), distinct),
        (miss, apart),
      )
    ]

DistinctNames-append :
    (xs ys : List EndpointSpec)
    → DistinctNames xs
    → Apart (names ys) xs
    → DistinctNames ys
    → DistinctNames (xs ++ ys)
DistinctNames-append [] ys d apart e = e
DistinctNames-append (x ∷ xs) ys (fresh, d) (miss, apart) e = (
  ground (arith, lookup-append x.name xs ys, any-names x.name ys),
  DistinctNames-append xs ys d apart e,
)

-- The merge of two sources without duplicates has no duplicates.
pub merge_endpoints-DistinctNames :
    (toml_endpoints cli_endpoints : List EndpointSpec)
    → DistinctNames toml_endpoints
    → DistinctNames cli_endpoints
    → DistinctNames (merge_endpoints toml_endpoints cli_endpoints).0
unfolding merge_endpoints
merge_endpoints-DistinctNames toml_endpoints cli_endpoints t c =
    let kept = split_overridden (names cli_endpoints) toml_endpoints in
    let (distinct, apart) = DistinctNames-split_overridden (names cli_endpoints) toml_endpoints t in
    DistinctNames-append kept.0 cli_endpoints distinct apart c
