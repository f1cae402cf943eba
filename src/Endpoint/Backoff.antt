-- ===== src/Endpoint/Backoff.antt =====
-- The delays between attempts to bind or connect: src/endpoint/backoff.rs. A `Duration` is its number
-- of milliseconds. The seed of the generator comes from the clock and enters as an argument. The
-- casts of a delay to `i64` are exact below 2 ^ 63, and the saturation of `saturating_mul` lies far
-- above every `max`, so neither is written out.
pub mod Laws
use mavlink_router_rs.Base.{
  ℕ, ◌+◌, ◌-◌, ◌*◌, ◌/◌, ◌%◌, ◌^◌, min, max, bit_xor, bit_and, ◌==◌, if◌then◌else◌,
}

-- The state of a `Xorshift`.
pub record Backoff : Type 0 where
  pub initial : ℕ
  pub max_delay : ℕ
  pub current : ℕ
  pub rng : ℕ

-- `seeded_from_clock`: `nanos | 1`.
unfoldable seeded : ℕ → ℕ
seeded nanos = if nanos % 2 == 0 then nanos + 1 else nanos

-- `Xorshift::next`: the new state, which is also the number drawn.
unfoldable pub next : ℕ → ℕ
next state =
    let first = bit_xor state (state * 2 ^ 13 % 2 ^ 64) in
    let second = bit_xor first (first / 2 ^ 7) in bit_xor second (second * 2 ^ 17 % 2 ^ 64)

unfoldable pub new : ℕ → ℕ → ℕ → Backoff
unfolding seeded
new nanos initial_ms max_ms =
    let initial = max initial_ms 1 in
    record {
      initial = initial;
      max_delay = max max_ms initial;
      current = initial;
      rng = seeded nanos;
    }

unfoldable pub reset : Backoff → Backoff
reset backoff = record backoff { current = backoff.initial }

-- The delay, and the state for the next. The jitter may be negative; what is taken off is less than
-- the base.
unfoldable pub next_delay : Backoff → ℕ × Backoff
unfolding next
next_delay backoff =
    let jitter_range = backoff.current / 5 in
    let span = jitter_range * 2 + 1 in
    let drawn = next backoff.rng in
    (
      max (backoff.current + drawn % span - jitter_range) 1,
      record backoff { current = min (backoff.current * 2) backoff.max_delay; rng = drawn },
    )
