-- ===== src/Mavlink/Framer/Output.antt =====
-- Where every byte of the buffer goes, and that a frame in the buffer is found.
use mavlink_router_rs.Base.{
  ℕ, zero, suc, ◌≤◌, ◌<◌, ◌≡◌, refl, sym, ap, subst, ◌∙◌, List, [], ◌++◌, append_assoc, arith,
  length, take, drop, length-append, length-take, take-append-drop, u64_max, saturating_add,
  saturating_add_assoc, saturating_add-zero,
}
use mavlink_router_rs.Mavlink.Frame.{MsgEntry}
use mavlink_router_rs.Mavlink.Framer.Align.{garbage, skip, garbage-le}
use mavlink_router_rs.Mavlink.Framer.Defs.{
  Framer, Iteration, emit, wait, again, iterate, Outcome, emitted, pending, exhausted, scan,
  try_next_frame,
}
use mavlink_router_rs.Mavlink.Framer.Progress.{
  IsFrame, Consumes, iterate-Consumes, iterate_falls, iterate_waits, skip-le, scan-emit, scan-wait,
  scan-again,
}

-- The bytes of `f` that the framer discarded, with its counter of them moved on by as many.
abbrev Discards : Framer → List ℕ → Framer → List ℕ → Type 0
Discards f frame g dropped =
    (f.buf ≡ dropped ++ (frame ++ g.buf))
    × (g.resync_bytes ≡ saturating_add f.resync_bytes (length dropped))

-- A call never runs out of rounds. What it discards, what it emits and what it leaves are, in this
-- order, the bytes that it had.
abbrev pub Accounts : List (ℕ × MsgEntry) → Framer → Outcome × Framer → Type 0
Accounts sorted f (emitted header frame, g) =
    IsFrame sorted header frame × ((dropped : List ℕ) × Discards f frame g dropped)
Accounts sorted f (pending, g) = (dropped : List ℕ) × Discards f [] g dropped
Accounts sorted f (exhausted, g) = ⊥

Discards-skip : (f : Framer) → Discards f [] (skip f) (take (garbage f.buf) f.buf)
unfolding skip
Discards-skip f =
    let count : length (take (garbage f.buf) f.buf) ≡ garbage f.buf =
      omega (arith, length-take (garbage f.buf) f.buf, garbage-le f.buf) in
    (sym (take-append-drop (garbage f.buf) f.buf), ap (saturating_add f.resync_bytes) (sym count))

Discards-trans :
    (f g h : Framer) (frame first later : List ℕ)
    → Discards f [] g first
    → Discards g frame h later
    → Discards f frame h (first ++ later)
Discards-trans f g h frame first later (p, q) (r, s) = (
  p ∙ rw r (sym (append_assoc first later (frame ++ h.buf))),
  rw (s, q, saturating_add_assoc)
      (ap (saturating_add f.resync_bytes) (sym (length-append first later))),
)

Accounts-trans :
    (sorted : List (ℕ × MsgEntry)) (f g : Framer) (first : List ℕ) (r : Outcome × Framer)
    → Discards f [] g first
    → Accounts sorted g r
    → Accounts sorted f r
Accounts-trans sorted f g first (emitted header frame, h) d (ok, (later, e)) =
    (ok, (first ++ later, Discards-trans f g h frame first later d e))
Accounts-trans sorted f g first (pending, h) d (later, e) =
    (first ++ later, Discards-trans f g h [] first later d e)
Accounts-trans sorted f g first (exhausted, h) d a = a

one_byte : (b : List ℕ) → 0 < length b → (take 1 b ++ drop 1 b ≡ b) × (length (take 1 b) ≡ 1)
one_byte b h = (take-append-drop 1 b, omega (arith, length-take 1 b))

module _ (sorted : List (ℕ × MsgEntry)) where
  scan-Accounts :
      (n : ℕ) (f : Framer)
      → f.resync_bytes ≤ u64_max
      → length f.buf < n
      → Accounts sorted f (scan sorted n f)
  scan-Accounts zero f h p = absurd (omega arith)
  scan-Accounts (suc n) f h p =
      go (iterate sorted f) refl (iterate-Consumes sorted f h) (scan-Accounts n)
    where
      skipped : List ℕ
      skipped = take (garbage f.buf) f.buf

      go :
          (it : Iteration)
          → iterate sorted f ≡ it
          → Consumes sorted (skip f) (iterate sorted f)
          → ((g : Framer)
              → g.resync_bytes ≤ u64_max
              → length g.buf < n
              → Accounts sorted g (scan sorted n g))
          → Accounts sorted f (scan sorted (suc n) f)
      go (emit header frame g) e c ih =
          let (ok, left, counted, _) = subst (Consumes sorted (skip f)) e c in
          rw (scan-emit sorted n f e) (
            Accounts-trans sorted f (skip f) skipped (emitted header frame, g) (Discards-skip f)
              (
                ok,
                (
                  [],
                  (
                    left,
                    counted ∙ sym (saturating_add-zero (skip f).resync_bytes (skip-le sorted f)),
                  ),
                ),
              ))
      go (wait g) e c ih =
          let waits = iterate_waits sorted f h e in
          rw (scan-wait sorted n f e) (rw waits (skipped, Discards-skip f))
      go (again g) e c ih =
          let (pos, left, counted) = subst (Consumes sorted (skip f)) e c in
          let (falls, in_range) = iterate_falls sorted f h e in
          let (whole, one) = one_byte (skip f).buf pos in
          let byte = take 1 (skip f).buf in
          rw (scan-again sorted n f e) (
            Accounts-trans sorted f (skip f) skipped (scan sorted n g) (Discards-skip f) (
              Accounts-trans sorted (skip f) g byte (scan sorted n g)
                (
                  sym whole ∙ ap (λ t. byte ++ t) (sym left),
                  counted ∙ ap (saturating_add (skip f).resync_bytes) (sym one),
                )
                (ih g in_range (omega arith))))

  -- A call of `try_next_frame` ends within its rounds, on every buffer. It discards some bytes,
  -- counts exactly these as resync bytes (up to the limit of the counter), and then either
  -- returns a well-formed frame, byte for byte, or waits; what remains in the buffer is what
  -- stood behind.
  pub try_next_frame-Accounts :
      (f : Framer) → f.resync_bytes ≤ u64_max → Accounts sorted f (try_next_frame sorted f)
  unfolding try_next_frame
  try_next_frame-Accounts f h = scan-Accounts (suc (length f.buf)) f h (omega arith)
