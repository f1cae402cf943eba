-- ===== src/Endpoint/Backoff/Laws.antt =====
-- The delays double up to their limit, each within a fifth of its base.
use mavlink_router_rs.Base.{
  ℕ, zero, suc, ◌+◌, ◌-◌, ◌*◌, ◌/◌, ◌≡◌, ◌≤◌, ◌<◌, refl, ◌∙◌, arith, min, leb, leb→le, leb→lt,
  Bool-cases, inl, inr,
}
use mavlink_router_rs.Endpoint.Backoff.{Backoff, next_delay}

-- The state after a number of failed attempts.
abbrev pub failures : ℕ → Backoff → Backoff
failures zero backoff = backoff
failures (suc n) backoff = failures n (next_delay backoff).1

-- The base of the delay after `n` attempts, from a base `b`.
abbrev pub doubled : ℕ → ℕ → ℕ
doubled zero b = b
doubled (suc n) b = doubled n (b * 2)

doubled-ge : (n b : ℕ) → b ≤ doubled n b
doubled-ge zero b = omega arith
doubled-ge (suc n) b = omega (arith, doubled-ge n (b * 2))

-- A base cut at the limit gives the same bases, cut at the limit.
doubled-min : (n b limit : ℕ) → min (doubled n (min b limit)) limit ≡ min (doubled n b) limit
doubled-min n b limit = elim (Bool-cases (leb b limit)) [
  | inl under ↦ let same : min b limit ≡ b = omega (arith, leb→le b limit under) in rw same refl
  | inr over ↦
      let same : min b limit ≡ limit = omega (arith, leb→lt b limit over) in
      rw same (omega (arith, doubled-ge n limit, doubled-ge n b, leb→lt b limit over))
]

-- After `n` failed attempts the base of the delay is that before them, doubled `n` times, and never
-- above the limit.
pub failures-current :
    (n : ℕ) (backoff : Backoff)
    → backoff.current ≤ backoff.max_delay
    → (failures n backoff).current ≡ min (doubled n backoff.current) backoff.max_delay
unfolding next_delay
failures-current zero backoff h = omega arith
failures-current (suc n) backoff h =
    failures-current n (next_delay backoff).1 (omega arith)
    ∙ doubled-min n (backoff.current * 2) backoff.max_delay

-- A delay is at least a millisecond, and within a fifth of its base, whatever number is drawn.
pub next_delay_bounds :
    (backoff : Backoff)
    → 0 < backoff.current
    → (0 < (next_delay backoff).0)
      × (backoff.current - backoff.current / 5 ≤ (next_delay backoff).0)
      × ((next_delay backoff).0 ≤ backoff.current + backoff.current / 5)
unfolding next_delay
next_delay_bounds backoff h = (omega arith, omega arith, omega arith)
