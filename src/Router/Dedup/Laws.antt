-- ===== src/Router/Dedup/Laws.antt =====
-- The dedup window against its contents: what a call reports, and what it remembers.
use mavlink_router_rs.Base.{
  ℕ, ◌+◌, ◌≤◌, ◌≡◌, refl, sym, ap, ◌∙◌, true, false, ◌&&◌, none, some, List, arith, leb, ◌==◌,
  ==_iff, Bool-cases, ◌⊎◌, inl, inr, if◌then◌else◌, length, nat_eq,
}
use mavlink_router_rs.Base.Entries.{find}
use mavlink_router_rs.Router.Dedup.{
  DedupWindow, is_enabled, set_contains, expire_stale, admit, check_and_insert,
}
use mavlink_router_rs.Router.Dedup.Expiry.{hash_of, live, is_some}
use mavlink_router_rs.Router.Dedup.Steps.{
  IsValid, expire_stale-IsValid, find-expire_stale, front, fronted, admit-IsValid, find-admit,
}

-- A call on a window that is enabled, at a time that is not before the last.
module _ (hash : List ℕ → ℕ) (last now : ℕ) (window : DedupWindow) (v : IsValid last window)
    (order : last ≤ now) (enabled : is_enabled window ≡ true) (frame : List ℕ) where
  swept : DedupWindow
  swept = expire_stale window now

  swept-IsValid : IsValid now swept
  unfolding swept
  swept-IsValid = expire_stale-IsValid last now window v order

  find-swept : (h : ℕ) → find hash_of h swept.ring ≡ live now (find hash_of h window.ring)
  unfolding swept
  find-swept = find-expire_stale last now window v order

  capacity-swept : swept.capacity ≡ window.capacity
  unfolding swept expire_stale
  capacity-swept = refl

  ttl-swept : swept.ttl ≡ window.ttl
  unfolding swept expire_stale
  ttl-swept = refl

  check_cases :
      ((set_contains (hash frame) swept.set ≡ true)
        × (check_and_insert hash window frame now ≡ (swept, true)))
      ⊎ ((find hash_of (hash frame) swept.ring ≡ none)
          × (check_and_insert hash window frame now ≡ (admit swept (hash frame) now, false)))
  unfolding check_and_insert swept
  check_cases = elim (Bool-cases (set_contains (hash frame) (expire_stale window now).set)) [
    | inl hit ↦ inl (hit, rw enabled (rw hit refl))
    | inr miss ↦
        inr (ground (arith, swept-IsValid.mirrored (hash frame)), rw enabled (rw miss refl))
  ]

  -- A call keeps the window valid.
  pub check_and_insert-IsValid : IsValid now (check_and_insert hash window frame now).0
  check_and_insert-IsValid = elim check_cases [
    | inl (hit, e) ↦ rw e swept-IsValid
    | inr (miss, e) ↦ rw e (admit-IsValid now swept swept-IsValid (hash frame) miss)
  ]

  -- A frame is reported as a duplicate exactly if the window holds an entry with its hash whose
  -- deadline has not come.
  pub check_and_insert-live :
      (check_and_insert hash window frame now).1
      ≡ is_some (live now (find hash_of (hash frame) window.ring))
  check_and_insert-live = elim check_cases [
    | inl (hit, e) ↦
        rw e (sym hit ∙ swept-IsValid.mirrored (hash frame) ∙ ap is_some (find-swept (hash frame)))
    | inr (miss, e) ↦ rw e (rw (← find-swept (hash frame)) (rw miss refl))
  ]

  -- What the window holds after the call, for every hash: a frame that was let through is entered
  -- until `now + ttl`, in the place of the oldest entry if the window is full; all else that is
  -- still in force stays with its deadline.
  pub find-check_and_insert :
      (h : ℕ)
      → find hash_of h (check_and_insert hash window frame now).0.ring ≡ (
          if (check_and_insert hash window frame now).1
          then live now (find hash_of h window.ring)
          else if hash frame == h
          then some (record { hash = h; deadline = now + window.ttl })
          else if leb window.capacity (length (expire_stale window now).ring)
              && fronted (front (expire_stale window now).ring) h
          then none
          else live now (find hash_of h window.ring))
  unfolding swept
  find-check_and_insert h = elim check_cases [
    | inl (hit, e) ↦ rw e (find-swept h)
    | inr (miss, e) ↦ rw e (
        ground (
          arith,
          find-admit now swept swept-IsValid (hash frame) h miss,
          find-swept h,
          ==_iff (hash frame) h,
          capacity-swept,
          ttl-swept,
        ))
  ]
