-- ===== src/Spec/Query/Laws.antt =====
-- What a query string gives: its keys are unique, and written pairs are read back.
use mavlink_router_rs.Base.{
  ◌≡◌, refl, ap, ◌∙◌, Bool, true, false, none, List, [], ◌∷◌, ◌++◌, map, any, Name, name_eq,
  name_eq_iff, name_key, arith, Bool-cases, inl, inr,
}
use mavlink_router_rs.Base.Results.{ok, err, ◌>>=◌, OnOk, All}
use mavlink_router_rs.Base.Table
use mavlink_router_rs.Base.Table.{Unique}
use mavlink_router_rs.Base.Text.{split, contains_char, to_ascii_lowercase}
use mavlink_router_rs.Base.Text.Splits.{split-append, split_free, split_once-append}
use mavlink_router_rs.Endpoint.Filters.{is_empty}
use mavlink_router_rs.Spec.Error.{duplicate_query_key}
use mavlink_router_rs.Spec.FilterLists.{Parsed}
use mavlink_router_rs.Spec.FilterLists.Laws.{is_among}
use mavlink_router_rs.Spec.Query.{read_pair, pairs_from, parse_query_pairs}

-- None of the pairs has a key that was seen.
abbrev Unseen : List Name → List (Name × Name) → Type 0
Unseen seen pairs = All (λ p. is_among p.0 seen ≡ false) pairs

Unseen-weaken :
    (key : Name) (seen : List Name) (pairs : List (Name × Name))
    → Unseen (key ∷ seen) pairs
    → Unseen seen pairs × (Table.get key pairs ≡ none)
unfolding Table.get
Unseen-weaken key seen [] h = (tt, refl)
Unseen-weaken key seen (p ∷ pairs) (fresh, rest) =
    let later = Unseen-weaken key seen pairs rest in
    ((ground arith, later.0), ground (arith, later.1))

Unseen-cons :
    (key : Name) (seen : List Name) (pairs : List (Name × Name))
    → Table.get key pairs ≡ none
    → Unseen seen pairs
    → Unseen (key ∷ seen) pairs
unfolding Table.get
Unseen-cons key seen [] absent h = tt
Unseen-cons key seen (p ∷ pairs) absent (fresh, rest) =
    let later = Unseen-cons key seen pairs in
    (ground (arith, name_eq_iff p.0 key), later (ground arith) rest)

-- The pairs of a result have unique keys, none of which was seen.
abbrev Fresh : List Name → Parsed (List (Name × Name)) → Type 0
Fresh seen = OnOk (λ pairs. Unique pairs × Unseen seen pairs)

push-Fresh :
    (seen : List Name) (pair : Name × Name) (r : Parsed (List (Name × Name)))
    → is_among pair.0 seen ≡ false
    → Fresh (pair.0 ∷ seen) r
    → Fresh seen (do rest ← r; ok (pair ∷ rest))
push-Fresh seen pair (ok rest) fresh (u, unseen) =
    let later = Unseen-weaken pair.0 seen rest unseen in ((later.1, u), (fresh, later.0))
push-Fresh seen pair (err e) fresh h = tt

tested-Fresh :
    (seen : List Name) (pair : Name × Name) (r : Parsed (List (Name × Name))) (b : Bool)
    → is_among pair.0 seen ≡ b
    → Fresh (pair.0 ∷ seen) r
    → Fresh seen
        (elim b [ true ↦ err (duplicate_query_key pair.0) | false ↦ do rest ← r; ok (pair ∷ rest) ])
tested-Fresh seen pair r true e h = tt
tested-Fresh seen pair r false e h = push-Fresh seen pair r e h

pairs_from-Fresh : (seen pieces : List Name) → Fresh seen (pairs_from seen pieces)
unfolding pairs_from
pairs_from-Fresh seen [] = (tt, tt)
pairs_from-Fresh seen (piece ∷ more) =
    let skipped = pairs_from-Fresh seen more in
    elim (Bool-cases (is_empty piece)) [
      | inl empty ↦ rw empty skipped
      | inr full ↦ rw full (go (read_pair piece) (λ key. pairs_from-Fresh (key ∷ seen) more))
    ]
  where
    go :
        (read : Parsed (Name × Name))
        → ((key : Name) → Fresh (key ∷ seen) (pairs_from (key ∷ seen) more))
        → Fresh seen (do
          pair ← read
          elim (any (name_eq pair.0) seen) [
            | true ↦ err (duplicate_query_key pair.0)
            | false ↦ do rest ← pairs_from (pair.0 ∷ seen) more; ok (pair ∷ rest)
          ])
    go (err e) ih = tt
    go (ok pair) ih = tested-Fresh seen pair _ (is_among pair.0 seen) refl (ih pair.0)

-- No key stands twice in the pairs of a query string.
pub parse_query_pairs-Unique : (s : Name) → OnOk Unique (parse_query_pairs s)
unfolding parse_query_pairs
parse_query_pairs-Unique s = let pairs = pairs_from-Fresh [] (split b'&' s) in ground arith

-- `key=value&key=value`, a query string as it is written.
unfoldable pub render_pair : Name × Name → Name
render_pair (key, value) = key ++ b'=' ∷ value

unfoldable pub render_pairs : Name × Name → List (Name × Name) → Name
unfolding render_pair
render_pairs pair [] = render_pair pair
render_pairs pair (next ∷ pairs) = render_pair pair ++ b'&' ∷ render_pairs next pairs

-- A pair that can be written: its key is not empty, in lower case and free of `=`, and it is free
-- of `&`.
pub record IsPair (pair : Name × Name) : Type 0 where
  pub key_full : is_empty pair.0 ≡ false
  pub key_lower : map to_ascii_lowercase pair.0 ≡ pair.0
  pub key_free : contains_char b'=' pair.0 ≡ false
  pub amp_free : contains_char b'&' (render_pair pair) ≡ false

split-render_pairs :
    (pair : Name × Name) (pairs : List (Name × Name))
    → All IsPair (pair ∷ pairs)
    → split b'&' (render_pairs pair pairs) ≡ map render_pair (pair ∷ pairs)
unfolding render_pairs
split-render_pairs pair [] (v, vs) = split_free b'&' (render_pair pair) v.amp_free
split-render_pairs pair (next ∷ pairs) (v, vs) =
    split-append b'&' (render_pair pair) (render_pairs next pairs) v.amp_free
    ∙ ap (◌∷◌ (render_pair pair)) (split-render_pairs next pairs vs)

read_pair-render : (pair : Name × Name) → IsPair pair → read_pair (render_pair pair) ≡ ok pair
unfolding read_pair render_pair
read_pair-render (key, value) v =
    let parts = split_once-append b'=' key value v.key_free in
    let lower = v.key_lower in let full = v.key_full in rw (parts, read_pair) (ground arith)

render_pair_full : (pair : Name × Name) → is_empty (render_pair pair) ≡ false
unfolding render_pair
render_pair_full ([], value) = refl
render_pair_full (c ∷ key, value) = refl

render_pairs_full :
    (pair : Name × Name) (pairs : List (Name × Name)) → is_empty (render_pairs pair pairs) ≡ false
unfolding render_pairs render_pair
render_pairs_full ([], value) [] = refl
render_pairs_full (c ∷ key, value) [] = refl
render_pairs_full ([], value) (next ∷ pairs) = refl
render_pairs_full (c ∷ key, value) (next ∷ pairs) = refl

pairs_from-render :
    (seen : List Name) (pairs : List (Name × Name))
    → All IsPair pairs
    → Unique pairs
    → Unseen seen pairs
    → pairs_from seen (map render_pair pairs) ≡ ok pairs
unfolding pairs_from
pairs_from-render seen [] v u f = refl
pairs_from-render seen (pair ∷ pairs) (v, vs) (absent, u) (fresh, f) =
    let read = read_pair-render pair v in
    let full = render_pair_full pair in
    let rest =
      pairs_from-render (pair.0 ∷ seen) pairs vs u (Unseen-cons pair.0 seen pairs absent f) in
    ground arith

-- A query string that is written from pairs with unique keys is read back as these pairs.
pub parse_query_pairs-render :
    (pair : Name × Name) (pairs : List (Name × Name))
    → All IsPair (pair ∷ pairs)
    → Unique (pair ∷ pairs)
    → parse_query_pairs (render_pairs pair pairs) ≡ ok (pair ∷ pairs)
unfolding parse_query_pairs
parse_query_pairs-render pair pairs v u =
    let pieces = split-render_pairs pair pairs v in
    let read = pairs_from-render [] (pair ∷ pairs) v u (all_unseen (pair ∷ pairs)) in
    let full = render_pairs_full pair pairs in rw (pieces, parse_query_pairs) (ground arith)
  where
    all_unseen : (pairs : List (Name × Name)) → Unseen [] pairs
    all_unseen [] = tt
    all_unseen (pair ∷ pairs) = (refl, all_unseen pairs)
