-- ===== src/Router/Dedup/Expiry.antt =====
-- The invariant of the dedup window, and the expiry of its head.
use mavlink_router_rs.Base.{
  ℕ, ◌≤◌, ◌<◌, ◌≡◌, refl, ◌∙◌, Bool, true, false, Option, none, some, List, [], ◌∷◌, arith, ltb,
  ltb→lt, lt→ltb, ◌==◌, ==_iff, Bool-cases, inl, inr, if◌then◌else◌, length, nat_eq,
}
use mavlink_router_rs.Base.Entries.{find, Distinct}
use mavlink_router_rs.Router.Dedup.{Entry, set_contains, set_remove, set_insert, expire}

abbrev pub hash_of : Entry → ℕ
hash_of entry = entry.hash

-- Whether an entry is still in force.
abbrev pub live : ℕ → Option Entry → Option Entry
live now none = none
live now (some entry) = if ltb now entry.deadline then some entry else none

abbrev pub is_some {ℓ} : {A : Type ℓ} → Option A → Bool
is_some none = false
is_some (some a) = true

-- The set holds the hashes of the ring and no other.
abbrev pub Mirrors : List ℕ → List Entry → Type 0
Mirrors set ring = (h : ℕ) → set_contains h set ≡ is_some (find hash_of h ring)

abbrev pub From : ℕ → List Entry → Type 0
From time [] = Unit
From time (entry ∷ ring) = (time ≤ entry.deadline) × From time ring

abbrev pub UpTo : ℕ → List Entry → Type 0
UpTo time [] = Unit
UpTo time (entry ∷ ring) = (entry.deadline ≤ time) × UpTo time ring

-- The deadlines rise towards the back.
abbrev pub Sorted : List Entry → Type 0
Sorted [] = Unit
Sorted (entry ∷ ring) = From entry.deadline ring × Sorted ring

set_contains-remove :
    (k h : ℕ) (set : List ℕ)
    → set_contains h (set_remove k set) ≡ (if k == h then false else set_contains h set)
unfolding set_contains set_remove
set_contains-remove k h [] = ground arith
set_contains-remove k h (m ∷ set) = ground (arith, set_contains-remove k h set)

pub set_contains-insert :
    (k h : ℕ) (set : List ℕ)
    → set_contains h (set_insert k set) ≡ (if k == h then true else set_contains h set)
unfolding set_insert
set_contains-insert k h set = elim (Bool-cases (set_contains k set)) [
  | inl old ↦ rw old (elim (Bool-cases (k == h)) [
    | inl same ↦ rw same (rw (← (==_iff k h).0 same) old)
    | inr other ↦ rw other refl
  ])
  | inr new ↦ rw new (unfold set_contains in ground arith)
]

pub Mirrors-remove :
    (set : List ℕ) (entry : Entry) (ring : List Entry)
    → Mirrors set (entry ∷ ring)
    → find hash_of entry.hash ring ≡ none
    → Mirrors (set_remove entry.hash set) ring
unfolding find
Mirrors-remove set entry ring m fresh h =
    ground (arith, set_contains-remove entry.hash h set, m h, fresh, ==_iff entry.hash h)

find-From :
    (time h : ℕ) (ring : List Entry) {entry : Entry}
    → From time ring
    → find hash_of h ring ≡ some entry
    → time ≤ entry.deadline
unfolding find
find-From time h [] f e = absurd (cc)
find-From time h (x ∷ ring) {entry} (first, rest) e =
    ground (arith, find-From time h ring {entry = entry} rest)

live_all :
    (now h : ℕ) (ring : List Entry) {time : ℕ}
    → now < time
    → From time ring
    → find hash_of h ring ≡ live now (find hash_of h ring)
live_all now h ring {time} lt f = go (find hash_of h ring) refl
  where
    go : (o : Option Entry) → find hash_of h ring ≡ o → o ≡ live now o
    go none e = refl
    go (some entry) e =
        let le = find-From time h ring f e in rw (lt→ltb now entry.deadline (omega arith))

live_tail :
    (now h : ℕ) (front : Entry) (ring : List Entry)
    → ltb now front.deadline ≡ false
    → find hash_of front.hash ring ≡ none
    → live now (find hash_of h ring) ≡ live now (find hash_of h (front ∷ ring))
unfolding find
live_tail now h front ring stale fresh = elim (Bool-cases (front.hash == h)) [
  | inl same ↦ rw same (rw stale (rw (← (==_iff front.hash h).0 same) (rw fresh refl)))
  | inr other ↦ rw other refl
]

-- What `expire` leaves of a ring and a set.
pub record Expired (now : ℕ) (ring : List Entry) (out : List Entry × List ℕ) : Type 0 where
  pub mirrored : Mirrors out.1 out.0
  pub distinct : Distinct hash_of out.0
  pub sorted : Sorted out.0
  pub shorter : length out.0 ≤ length ring
  pub kept : (h : ℕ) → find hash_of h out.0 ≡ live now (find hash_of h ring)
  pub recent : (time : ℕ) → UpTo time ring → UpTo time out.0

-- The sweep over the head removes exactly the entries whose deadline has come, since the deadlines
-- rise.
pub expire-Expired :
    (now : ℕ) (ring : List Entry) (set : List ℕ)
    → Mirrors set ring
    → Distinct hash_of ring
    → Sorted ring
    → Expired now ring (expire now ring set)
unfolding expire
expire-Expired now [] set m d s = record {
  mirrored = m;
  distinct = tt;
  sorted = tt;
  shorter = omega arith;
  kept = λ h. unfold find in refl;
  recent = λ time u. tt;
}
expire-Expired now (front ∷ ring) set m (fresh, distinct) (from, sorted) =
    elim (Bool-cases (ltb now front.deadline)) [
      | inl current ↦ rw current (record {
        mirrored = m;
        distinct = (fresh, distinct);
        sorted = (from, sorted);
        shorter = omega arith;
        kept = λ h. live_all now h (front ∷ ring) (ltb→lt _ _ current) (omega arith, from);
        recent = λ time u. u;
      })
      | inr stale ↦
          let later =
            expire-Expired now ring (set_remove front.hash set)
              (Mirrors-remove set front ring m fresh) distinct sorted in
          rw stale (record {
            mirrored = later.mirrored;
            distinct = later.distinct;
            sorted = later.sorted;
            shorter = omega (arith, later.shorter);
            kept = λ h. later.kept h ∙ live_tail now h front ring stale fresh;
            recent = λ time u. later.recent time u.1;
          })
    ]
