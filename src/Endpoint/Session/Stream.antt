-- ===== src/Endpoint/Session/Stream.antt =====
-- The frames of a stream do not depend on how it is cut: what the framer yields from bytes that
-- come later continues what it yields now.
use mavlink_router_rs.Base.{
  ℕ, zero, suc, ◌+◌, ◌≤◌, ◌<◌, ◌≡◌, refl, sym, ap, subst, ◌∙◌, List, [], ◌∷◌, ◌++◌, arith, length,
  length-append, append-nil, u64_max, saturating_add-le,
}
use mavlink_router_rs.Endpoint.Session.Laws.{yields, shrinks, never_exhausted}
use mavlink_router_rs.Mavlink.Frame.{ParsedHeader, MsgEntry}
use mavlink_router_rs.Mavlink.Framer.{Framer, Outcome, emitted, pending, exhausted, try_next_frame}
use mavlink_router_rs.Mavlink.Framer.Steps.{extend}
use mavlink_router_rs.Mavlink.Framer.Chunks.{resume, try_next_frame-extend}
use mavlink_router_rs.Mavlink.Framer.Output.{Accounts, try_next_frame-Accounts}

pub length-extend : (f : Framer) (x : List ℕ) → length (extend x f).buf ≡ length f.buf + length x
unfolding extend
length-extend f x = length-append f.buf x

pub extend_nil : (f : Framer) → extend [] f ≡ f
unfolding extend
extend_nil f = rw (append-nil f.buf) refl

module _ (sorted : List (ℕ × MsgEntry)) where
  -- The framer once it waits for more bytes.
  unfoldable pub left_after : ℕ → Framer → Framer
  left_after zero framer = framer
  left_after (suc rounds) framer =
      let (outcome, next) = try_next_frame sorted framer in
      elim outcome [
        | emitted header frame ↦ left_after rounds next
        | pending ↦ next
        | exhausted ↦ next
      ]

  module _ (n : ℕ) (f : Framer) {header : ParsedHeader} {frame : List ℕ} {g : Framer} where
    pub yields_emitted :
        try_next_frame sorted f ≡ (emitted header frame, g)
        → yields sorted (suc n) f ≡ (header, frame) ∷ yields sorted n g
    unfolding yields
    yields_emitted e =
        let out : (try_next_frame sorted f).0 ≡ emitted header frame =
          ap (λ (r : Outcome × Framer). r.0) e in
        let moved : (try_next_frame sorted f).1 ≡ g = ap (λ (r : Outcome × Framer). r.1) e in
        rw (out, yields) (rw moved refl)

    pub left_emitted :
        try_next_frame sorted f ≡ (emitted header frame, g) → left_after (suc n) f ≡ left_after n g
    unfolding left_after
    left_emitted e =
        let out : (try_next_frame sorted f).0 ≡ emitted header frame =
          ap (λ (r : Outcome × Framer). r.0) e in
        let moved : (try_next_frame sorted f).1 ≡ g = ap (λ (r : Outcome × Framer). r.1) e in
        rw (out, left_after) (rw moved refl)

  module _ (n : ℕ) (f : Framer) {g : Framer} where
    yields_pending : try_next_frame sorted f ≡ (pending, g) → yields sorted (suc n) f ≡ []
    unfolding yields
    yields_pending e = rw (e, yields) refl

    pub left_pending : try_next_frame sorted f ≡ (pending, g) → left_after (suc n) f ≡ g
    unfolding left_after
    left_pending e =
        let out : (try_next_frame sorted f).0 ≡ pending = ap (λ (r : Outcome × Framer). r.0) e in
        let moved : (try_next_frame sorted f).1 ≡ g = ap (λ (r : Outcome × Framer). r.1) e in
        rw (out, left_after) moved

  -- The rounds do not matter once they are more than the bytes.
  pub yields_rounds :
      (n m : ℕ) (f : Framer)
      → f.resync_bytes ≤ u64_max
      → length f.buf < n
      → length f.buf < m
      → yields sorted n f ≡ yields sorted m f
  yields_rounds zero m f h p q = absurd (omega arith)
  yields_rounds (suc n) zero f h p q = absurd (omega arith)
  yields_rounds (suc n) (suc m) f h p q = go (try_next_frame sorted f) refl (yields_rounds n m)
    where
      go :
          (r : Outcome × Framer)
          → try_next_frame sorted f ≡ r
          → ((g : Framer)
              → g.resync_bytes ≤ u64_max
              → length g.buf < n
              → length g.buf < m
              → yields sorted n g ≡ yields sorted m g)
          → yields sorted (suc n) f ≡ yields sorted (suc m) f
      go (exhausted, g) e ih = absurd (never_exhausted sorted f h e)
      go (pending, g) e ih = yields_pending n f e ∙ sym (yields_pending m f e)
      go (emitted header frame, g) e ih =
          let (less, in_range) = shrinks sorted f h e in
          yields_emitted n f e
          ∙ ap (◌∷◌ (header, frame)) (ih g in_range (omega arith) (omega arith))
          ∙ sym (yields_emitted m f e)

  -- Where the framer waits with what it has, it looks again with more.
  resumes :
      (x : List ℕ) (f g : Framer)
      → f.resync_bytes ≤ u64_max
      → try_next_frame sorted f ≡ (pending, g)
      → try_next_frame sorted (extend x f) ≡ try_next_frame sorted (extend x g)
  unfolding resume
  resumes x f g h e = try_next_frame-extend sorted x f h ∙ ap (resume sorted x) e

  same_start :
      (n : ℕ) (f g : Framer)
      → try_next_frame sorted f ≡ try_next_frame sorted g
      → yields sorted (suc n) f ≡ yields sorted (suc n) g
  unfolding yields
  same_start n f g e =
      ap
        (λ (r : Outcome × Framer). elim r.0 as (λ _. List (ParsedHeader × List ℕ)) [
          | emitted header frame ↦ (header, frame) ∷ yields sorted n r.1
          | pending ↦ []
          | exhausted ↦ []
        ])
        e

  -- A framer that waits has dropped bytes at most.
  waited :
      (f g : Framer)
      → f.resync_bytes ≤ u64_max
      → try_next_frame sorted f ≡ (pending, g)
      → (length g.buf ≤ length f.buf) × (g.resync_bytes ≤ u64_max)
  waited f g h e =
      let (dropped, (bytes, counted)) =
        subst (Accounts sorted f) e (try_next_frame-Accounts sorted f h) in
      (
        omega (arith, ap length bytes, length-append dropped g.buf),
        rw counted (saturating_add-le f.resync_bytes (length dropped)),
      )

  pub left_in_range :
      (n : ℕ) (f : Framer) → f.resync_bytes ≤ u64_max → (left_after n f).resync_bytes ≤ u64_max
  unfolding left_after
  left_in_range zero f h = h
  left_in_range (suc n) f h = go (try_next_frame sorted f) refl (left_in_range n)
    where
      go :
          (r : Outcome × Framer)
          → try_next_frame sorted f ≡ r
          → ((g : Framer) → g.resync_bytes ≤ u64_max → (left_after n g).resync_bytes ≤ u64_max)
          → (left_after (suc n) f).resync_bytes ≤ u64_max
      go (exhausted, g) e ih = absurd (never_exhausted sorted f h e)
      go (pending, g) e ih =
          let left = left_pending n f e in let (less, in_range) = waited f g h e in rw left in_range
      go (emitted header frame, g) e ih =
          let (less, in_range) = shrinks sorted f h e in
          let left = left_emitted n f e in rw left (ih g in_range)

  -- What a framer yields once the bytes `x` stand behind its buffer: what it yielded without them,
  -- and then what the framer yields that was left.
  pub yields-extend :
      (x : List ℕ) (n m k : ℕ) (f : Framer)
      → f.resync_bytes ≤ u64_max
      → length f.buf < n
      → length (extend x f).buf < m
      → length (extend x (left_after n f)).buf < k
      → yields sorted m (extend x f)
        ≡ yields sorted n f ++ yields sorted k (extend x (left_after n f))
  unfolding resume
  yields-extend x zero m k f h p q r = absurd (omega arith)
  yields-extend x (suc n) zero k f h p q r = absurd (omega arith)
  yields-extend x (suc n) m zero f h p q r = absurd (omega arith)
  yields-extend x (suc n) (suc m) (suc k) f h p q r =
      go (try_next_frame sorted f) refl (yields-extend x n m (suc k))
    where
      go :
          (a : Outcome × Framer)
          → try_next_frame sorted f ≡ a
          → ((g : Framer)
              → g.resync_bytes ≤ u64_max
              → length g.buf < n
              → length (extend x g).buf < m
              → length (extend x (left_after n g)).buf < suc k
              → yields sorted m (extend x g)
                ≡ yields sorted n g ++ yields sorted (suc k) (extend x (left_after n g)))
          → yields sorted (suc m) (extend x f)
            ≡ yields sorted (suc n) f ++ yields sorted (suc k) (extend x (left_after (suc n) f))
      go (exhausted, g) e ih = absurd (never_exhausted sorted f h e)
      go (pending, g) e ih =
          let left = left_pending n f e in
          let found = yields_pending n f e in
          let again = resumes x f g h e in
          let (less, in_range) = waited f g h e in
          rw (left, found)
            (same_start m (extend x f) (extend x g) again
              ∙ yields_rounds (suc m) (suc k) (extend x g) (unfold extend in in_range)
                  (omega (arith, length-extend f x, length-extend g x)) (rw left at r))
      go (emitted header frame, g) e ih =
          let (less, in_range) = shrinks sorted f h e in
          let further = try_next_frame-extend sorted x f h ∙ ap (resume sorted x) e in
          let left = left_emitted n f e in
          let rest =
            ih g in_range (omega arith) (omega (arith, length-extend f x, length-extend g x))
              (rw left at r) in
          rw (left, yields_emitted n f e)
            (yields_emitted m (extend x f) further ∙ ap (◌∷◌ (header, frame)) rest)

  -- Nothing is left to yield.
  pub yields-left_after :
      (n k : ℕ) (f : Framer)
      → f.resync_bytes ≤ u64_max
      → length f.buf < n
      → yields sorted (suc k) (left_after n f) ≡ []
  unfolding left_after
  yields-left_after zero k f h p = absurd (omega arith)
  yields-left_after (suc n) k f h p = go (try_next_frame sorted f) refl (yields-left_after n k)
    where
      go :
          (a : Outcome × Framer)
          → try_next_frame sorted f ≡ a
          → ((g : Framer)
              → g.resync_bytes ≤ u64_max
              → length g.buf < n
              → yields sorted (suc k) (left_after n g) ≡ [])
          → yields sorted (suc k) (left_after (suc n) f) ≡ []
      go (exhausted, g) e ih = absurd (never_exhausted sorted f h e)
      go (pending, g) e ih =
          let left = left_pending n f e in
          let again : try_next_frame sorted f ≡ try_next_frame sorted g =
            rw (extend_nil f, extend_nil g) at (resumes [] f g h e) in
          rw left (yields_pending k g (sym again ∙ e))
      go (emitted header frame, g) e ih =
          let (less, in_range) = shrinks sorted f h e in
          let left = left_emitted n f e in rw left (ih g in_range (omega arith))

  -- No bytes, no frames.
  pub yields_nothing :
      (k : ℕ) (f : Framer)
      → f.resync_bytes ≤ u64_max
      → length f.buf ≡ 0
      → yields sorted (suc k) f ≡ []
  yields_nothing k f h empty = go (try_next_frame sorted f) refl
    where
      go : (a : Outcome × Framer) → try_next_frame sorted f ≡ a → yields sorted (suc k) f ≡ []
      go (exhausted, g) e = absurd (never_exhausted sorted f h e)
      go (pending, g) e = yields_pending k f e
      go (emitted header frame, g) e =
          let (less, in_range) = shrinks sorted f h e in absurd (omega arith)
