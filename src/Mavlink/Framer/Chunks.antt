-- ===== src/Mavlink/Framer/Chunks.antt =====
-- The framer does not see how the bytes were cut into reads: what it returns for a buffer that is
-- filled in two writes is what it returns for the whole.
use mavlink_router_rs.Base.{
  ℕ, zero, suc, ◌+◌, ◌≤◌, ◌<◌, ◌≡◌, refl, sym, ap, ◌∙◌, Option, none, some, List, ◌++◌, arith, ◌⊎◌,
  inl, inr, length, drop, length-append, u64_max, saturating_add_assoc, saturating_add-zero,
}
use mavlink_router_rs.Mavlink.Frame.{Stx, MsgEntry}
use mavlink_router_rs.Mavlink.Framer.Align.{
  stx_of, garbage, skip, stx_of-append, garbage-zero, garbage-append,
}
use mavlink_router_rs.Mavlink.Framer.Defs.{
  Framer, at_stx, Iteration, emit, wait, again, iterate, Outcome, emitted, scan, try_next_frame,
}
use mavlink_router_rs.Mavlink.Framer.Progress.{
  iterate-at_stx, iterate_falls, iterate_waits, skip-le, length-skip-le, scan_rounds, scan-emit,
  scan-wait, scan-again,
}
use mavlink_router_rs.Mavlink.Framer.Steps.{extend, extended, at_stx-extend}

module _ (x : List ℕ) where
  -- Garbage may be skipped before or after the further bytes arrive.
  skip-extend : (f : Framer) → skip (extend x f) ≡ skip (extend x (skip f))
  unfolding skip extend
  skip-extend f =
      let (count, rest) = garbage-append f.buf x in
      let later = garbage (drop (garbage f.buf) f.buf ++ x) in
      ground (arith, count, rest, saturating_add_assoc f.resync_bytes (garbage f.buf) later)

  skip_started :
      (f : Framer) {stx : Stx}
      → f.resync_bytes ≤ u64_max
      → stx_of f.buf ≡ some stx
      → skip (extend x f) ≡ extend x f
  unfolding skip extend
  skip_started f h e =
      rw (garbage-zero (f.buf ++ x) (stx_of-append f.buf x e)) (rw (saturating_add-zero, h))

module _ (sorted : List (ℕ × MsgEntry)) (x : List ℕ) where
  -- The aligned framer is as good a start as the one before alignment.
  iterate-skip :
      (f : Framer)
      → f.resync_bytes ≤ u64_max
      → iterate sorted (extend x f) ≡ iterate sorted (extend x (skip f))
  iterate-skip f h =
      iterate-at_stx sorted (extend x f) (in_range f h)
      ∙ ap (λ g. at_stx sorted (stx_of g.buf, g)) (skip-extend x f)
      ∙ sym (iterate-at_stx sorted (extend x (skip f)) (in_range (skip f) (skip-le sorted f)))
    where
      in_range : (f : Framer) → f.resync_bytes ≤ u64_max → (extend x f).resync_bytes ≤ u64_max
      in_range f h = unfold extend in h

  iterate-extend :
      (f : Framer)
      → f.resync_bytes ≤ u64_max
      → (iterate sorted f ≡ wait (skip f))
        ⊎ (iterate sorted (extend x f) ≡ extended x (iterate sorted f))
  iterate-extend f h = go (stx_of (skip f).buf) refl
    where
      go :
          (o : Option Stx)
          → stx_of (skip f).buf ≡ o
          → (iterate sorted f ≡ wait (skip f))
            ⊎ (iterate sorted (extend x f) ≡ extended x (iterate sorted f))
      go none e = inl (iterate-at_stx sorted f h ∙ rw e (unfold at_stx in refl))
      go (some stx) e = elim (at_stx-extend sorted x (skip f) stx) [
        | inl waits ↦ inl (iterate-at_stx sorted f h ∙ rw e waits)
        | inr goes ↦ inr (
            iterate-skip f h
            ∙ iterate-at_stx sorted (extend x (skip f)) (unfold extend in skip-le sorted f)
            ∙ rw (skip_started x (skip f) (skip-le sorted f) e)
                (rw (iterate-at_stx sorted f h) (rw e (rw (extended_start e) goes))))
      ]
        where
          extended_start :
              {stx : Stx}
              → stx_of (skip f).buf ≡ some stx
              → stx_of (extend x (skip f)).buf ≡ some stx
          extended_start e = unfold extend in stx_of-append (skip f).buf x e

  -- What the framer returns once the bytes `x` stand behind what it had at an earlier call: a
  -- frame that it found stays, and where it had to wait it looks again.
  unfoldable pub resume : Outcome × Framer → Outcome × Framer
  resume (emitted header frame, g) = (emitted header frame, extend x g)
  resume (_, g) = try_next_frame sorted (extend x g)

  scan-iterate :
      (m : ℕ) (f g : Framer)
      → iterate sorted f ≡ iterate sorted g
      → scan sorted (suc m) f ≡ scan sorted (suc m) g
  unfolding scan
  scan-iterate m f g e = rw (e, scan)

  extend_in_range : (f : Framer) → f.resync_bytes ≤ u64_max → (extend x f).resync_bytes ≤ u64_max
  unfolding extend
  extend_in_range f h = h

  length-extend : (f : Framer) → length (extend x f).buf ≡ length f.buf + length x
  unfolding extend
  length-extend f = length-append f.buf x

  scan-extend :
      (n m : ℕ) (f : Framer)
      → f.resync_bytes ≤ u64_max
      → length f.buf < n
      → length (extend x f).buf < m
      → scan sorted m (extend x f) ≡ resume (scan sorted n f)
  scan-extend zero m f h p q = absurd (omega arith)
  scan-extend (suc n) zero f h p q = absurd (omega arith)
  scan-extend (suc n) (suc m) f h p q = go (iterate sorted f) refl (scan-extend n m)
    where
      alike :
          (it : Iteration)
          → iterate sorted f ≡ it
          → (it ≡ wait (skip f)) ⊎ (iterate sorted (extend x f) ≡ extended x it)
      alike it e = rw (← e) (iterate-extend f h)

      go :
          (it : Iteration)
          → iterate sorted f ≡ it
          → ((g : Framer)
              → g.resync_bytes ≤ u64_max
              → length g.buf < n
              → length (extend x g).buf < m
              → scan sorted m (extend x g) ≡ resume (scan sorted n g))
          → scan sorted (suc m) (extend x f) ≡ resume (scan sorted (suc n) f)
      go (emit header frame g) e ih = elim (alike (emit header frame g) e) [
        | inl no_wait ↦ absurd (cc)
        | inr same ↦
            rw (scan-emit sorted n f e)
              (scan-emit sorted m (extend x f) same ∙ unfold resume in refl)
      ]
      go (wait g) e ih =
          let aligned : g ≡ skip f = iterate_waits sorted f h e in
          rw (scan-wait sorted n f e) (
            rw aligned (
              scan-iterate m (extend x f) (extend x (skip f)) (iterate-skip f h)
              ∙ (unfold resume try_next_frame in
                  scan_rounds sorted (suc m) (suc (length (extend x (skip f)).buf))
                    (extend x (skip f)) (extend_in_range (skip f) (skip-le sorted f))
                    (omega
                      (arith, length-extend f, length-extend (skip f), length-skip-le sorted f))
                    (omega arith))))
      go (again g) e ih = elim (alike (again g) e) [
        | inl no_wait ↦ absurd (cc)
        | inr same ↦
            let (falls, counted) = iterate_falls sorted f h e in
            rw (scan-again sorted n f e) (
              scan-again sorted m (extend x f) same
              ∙ ih g counted (omega arith) (omega (arith, length-extend f, length-extend g)))
      ]

  -- However the stream of bytes is cut into reads, the framer finds the same frames and leaves the
  -- same buffer and counters: its answer with the bytes `x` behind its buffer is the answer that
  -- it resumes from its answer without them.
  pub try_next_frame-extend :
      (f : Framer)
      → f.resync_bytes ≤ u64_max
      → try_next_frame sorted (extend x f) ≡ resume (try_next_frame sorted f)
  unfolding try_next_frame
  try_next_frame-extend f h =
      scan-extend (suc (length f.buf)) (suc (length (extend x f).buf)) f h (omega arith)
        (omega arith)
