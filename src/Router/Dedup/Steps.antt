-- ===== src/Router/Dedup/Steps.antt =====
-- The invariant of the dedup window, and what the steps of a call do to it.
use mavlink_router_rs.Base.{
  ℕ, ◌+◌, ◌≤◌, ◌<◌, ◌≡◌, refl, ◌∙◌, Bool, false, ◌&&◌, Option, none, some, List, [], ◌∷◌, ◌++◌,
  arith, leb, leb→lt, ◌==◌, ==_iff, Bool-cases, inl, inr, if◌then◌else◌, length, length-append,
  nat_eq,
}
use mavlink_router_rs.Base.Entries.{find, Distinct, find-append, Distinct-append}
use mavlink_router_rs.Router.Dedup.{
  Entry, DedupWindow, new, set_contains, expire_stale, evict_oldest, oldest_out, push, admit,
}
use mavlink_router_rs.Router.Dedup.Expiry.{
  hash_of, live, Mirrors, From, UpTo, Sorted, Mirrors-remove, set_contains-insert, expire-Expired,
}

-- The window when no call came after `last`.
pub record IsValid (last : ℕ) (window : DedupWindow) : Type 0 where
  pub positive : 0 < window.capacity
  pub bounded : length window.ring ≤ window.capacity
  pub mirrored : Mirrors window.set window.ring
  pub distinct : Distinct hash_of window.ring
  pub sorted : Sorted window.ring
  pub recent : UpTo (last + window.ttl) window.ring

pub new-IsValid : (ttl capacity last : ℕ) → IsValid last (new ttl capacity)
unfolding new
new-IsValid ttl capacity last = record {
  positive = omega arith;
  bounded = omega arith;
  mirrored = λ h. unfold find set_contains in refl;
  distinct = tt;
  sorted = tt;
  recent = tt;
}

UpTo-later : (a b : ℕ) (ring : List Entry) → a ≤ b → UpTo a ring → UpTo b ring
UpTo-later a b [] h u = tt
UpTo-later a b (entry ∷ ring) h (first, rest) = (omega arith, UpTo-later a b ring h rest)

module _ (last now : ℕ) (window : DedupWindow) (v : IsValid last window) (order : last ≤ now) where
  -- The sweep keeps the window valid, and finds what is still in force.
  pub expire_stale-IsValid : IsValid now (expire_stale window now)
  unfolding expire_stale
  expire_stale-IsValid =
      let e = expire-Expired now window.ring window.set v.mirrored v.distinct v.sorted in
      record {
        positive = v.positive;
        bounded = omega (arith, e.shorter, v.bounded);
        mirrored = e.mirrored;
        distinct = e.distinct;
        sorted = e.sorted;
        recent =
            e.recent (now + window.ttl) (
              UpTo-later (last + window.ttl) (now + window.ttl) window.ring (omega arith) v.recent);
      }

  pub find-expire_stale :
      (h : ℕ)
      → find hash_of h (expire_stale window now).ring ≡ live now (find hash_of h window.ring)
  unfolding expire_stale
  find-expire_stale h =
      (expire-Expired now window.ring window.set v.mirrored v.distinct v.sorted).kept h

-- The oldest entry of the window, which gives way when a new one finds the window full.
abbrev pub front : List Entry → Option Entry
front [] = none
front (entry ∷ ring) = some entry

abbrev pub fronted : Option Entry → ℕ → Bool
fronted none h = false
fronted (some entry) h = entry.hash == h

From-append :
    (r : List Entry) (entry : Entry) (time : ℕ)
    → From time r
    → time ≤ entry.deadline
    → From time (r ++ entry ∷ [])
From-append [] entry time f h = (h, tt)
From-append (x ∷ r) entry time (first, f) h = (first, From-append r entry time f h)

Sorted-append :
    (r : List Entry) (entry : Entry) → Sorted r → UpTo entry.deadline r → Sorted (r ++ entry ∷ [])
Sorted-append [] entry s u = (tt, tt)
Sorted-append (x ∷ r) entry (from, s) (first, u) =
    (From-append r entry x.deadline from first, Sorted-append r entry s u)

UpTo-append :
    (r : List Entry) (entry : Entry) (time : ℕ)
    → UpTo time r
    → entry.deadline ≤ time
    → UpTo time (r ++ entry ∷ [])
UpTo-append [] entry time u h = (h, tt)
UpTo-append (x ∷ r) entry time (first, u) h = (first, UpTo-append r entry time u h)

find-push :
    (now : ℕ) (window : DedupWindow) (hash h : ℕ)
    → find hash_of hash window.ring ≡ none
    → find hash_of h (push window hash now).ring ≡ (
        if hash == h
        then some (record { hash = hash; deadline = now + window.ttl })
        else find hash_of h window.ring)
unfolding push
find-push now window hash h fresh =
    let entry : Entry = record { hash = hash; deadline = now + window.ttl } in
    ground (arith, find-append hash_of h window.ring entry, fresh, ==_iff hash h)

capacity-evict_oldest : (window : DedupWindow) → (evict_oldest window).capacity ≡ window.capacity
unfolding evict_oldest oldest_out
capacity-evict_oldest window = ground arith

ttl-evict_oldest : (window : DedupWindow) → (evict_oldest window).ttl ≡ window.ttl
unfolding evict_oldest oldest_out
ttl-evict_oldest window = ground arith

module _ (now : ℕ) (window : DedupWindow) (v : IsValid now window) where
  push-IsValid :
      (hash : ℕ)
      → length window.ring < window.capacity
      → find hash_of hash window.ring ≡ none
      → IsValid now (push window hash now)
  unfolding push
  push-IsValid hash room fresh =
      let entry : Entry = record { hash = hash; deadline = now + window.ttl } in
      record {
        positive = v.positive;
        bounded = omega (arith, length-append window.ring (entry ∷ []));
        mirrored = λ h. ground (
          arith,
          set_contains-insert hash h window.set,
          v.mirrored h,
          find-append hash_of h window.ring entry,
        );
        distinct = Distinct-append hash_of window.ring entry v.distinct fresh;
        sorted = Sorted-append window.ring entry v.sorted v.recent;
        recent = UpTo-append window.ring entry (now + window.ttl) v.recent (omega arith);
      }

module _ (now : ℕ) (window : DedupWindow) (v : IsValid now window) where
  -- Without its oldest entry the window has room.
  evict_oldest-IsValid :
      IsValid now (evict_oldest window) × (length (evict_oldest window).ring < window.capacity)
  evict_oldest-IsValid = go window.ring refl v.bounded v.mirrored v.distinct v.sorted v.recent
    where
      go :
          (r : List Entry)
          → window.ring ≡ r
          → length r ≤ window.capacity
          → Mirrors window.set r
          → Distinct hash_of r
          → Sorted r
          → UpTo (now + window.ttl) r
          → IsValid now (evict_oldest window)
            × (length (evict_oldest window).ring < window.capacity)
      go [] e b m d s u = unfold evict_oldest in rw (e, oldest_out) (v, rw e v.positive)
      go (entry ∷ r) e b m (fresh, d) (from, s) (first, u) =
          unfold evict_oldest in
          rw (e, oldest_out)
            (
              record {
                positive = v.positive;
                bounded = omega arith;
                mirrored = Mirrors-remove window.set entry r m fresh;
                distinct = d;
                sorted = s;
                recent = u;
              },
              omega arith,
            )

  find-evict_oldest :
      (h : ℕ)
      → find hash_of h (evict_oldest window).ring
        ≡ (if fronted (front window.ring) h then none else find hash_of h window.ring)
  find-evict_oldest h = go window.ring refl v.distinct
    where
      go :
          (r : List Entry)
          → window.ring ≡ r
          → Distinct hash_of r
          → find hash_of h (evict_oldest window).ring
            ≡ (if fronted (front window.ring) h then none else find hash_of h window.ring)
      go [] e d = unfold evict_oldest in rw (e, oldest_out) (rw e refl)
      go (entry ∷ r) e (fresh, d) =
          unfold evict_oldest in
          rw (e, oldest_out)
            (elim (Bool-cases (entry.hash == h)) [
              | inl same ↦ rw same (rw (← (==_iff entry.hash h).0 same) fresh)
              | inr other ↦ rw other (unfold find in rw other refl)
            ])

  pub admit-IsValid :
      (hash : ℕ) → find hash_of hash window.ring ≡ none → IsValid now (admit window hash now)
  unfolding admit
  admit-IsValid hash fresh = elim (Bool-cases (leb window.capacity (length window.ring))) [
    | inl full ↦
        let (valid, room) = evict_oldest-IsValid in
        let gone : find hash_of hash (evict_oldest window).ring ≡ none =
          ground (arith, find-evict_oldest hash, fresh) in
        rw full (
          push-IsValid now (evict_oldest window) valid hash (rw (capacity-evict_oldest window) room)
            gone)
    | inr roomy ↦ rw roomy (push-IsValid now window v hash (leb→lt _ _ roomy) fresh)
  ]

  -- What an admission leaves of the ring: the new entry, and all others but the oldest of a full
  -- window.
  pub find-admit :
      (hash h : ℕ)
      → find hash_of hash window.ring ≡ none
      → find hash_of h (admit window hash now).ring ≡ (
          if hash == h
          then some (record { hash = hash; deadline = now + window.ttl })
          else if leb window.capacity (length window.ring) && fronted (front window.ring) h
          then none
          else find hash_of h window.ring)
  unfolding admit push
  find-admit hash h fresh = elim (Bool-cases (leb window.capacity (length window.ring))) [
    | inl full ↦
        let gone : find hash_of hash (evict_oldest window).ring ≡ none =
          ground (arith, find-evict_oldest hash, fresh) in
        rw full (
          find-push now (evict_oldest window) hash h gone
          ∙ rw (ttl-evict_oldest window) (rw (find-evict_oldest h) refl))
    | inr roomy ↦ rw roomy (find-push now window hash h fresh)
  ]
