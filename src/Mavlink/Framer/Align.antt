-- ===== src/Mavlink/Framer/Align.antt =====
-- The alignment of the framer to an STX byte, against a count of the leading garbage bytes.
use mavlink_router_rs.Base.{
  ℕ, zero, suc, ◌+◌, ◌≤◌, ◌≡◌, refl, ap, Option, none, some, List, [], ◌∷◌, ◌++◌, arith, length,
  drop, saturating_add, saturating_add-zero, u64_max,
}
use mavlink_router_rs.Mavlink.Frame.{Stx, from_byte}
use mavlink_router_rs.Mavlink.Framer.Defs.{Framer, find_stx, align_to_stx, shift, skip_to, aligned}

-- The kind of the STX byte that a buffer starts with, if it does.
unfoldable pub stx_of : List ℕ → Option Stx
stx_of [] = none
stx_of (byte ∷ bytes) = from_byte byte

-- How many bytes stand before the first STX byte.
unfoldable pub garbage : List ℕ → ℕ
garbage [] = 0
garbage (byte ∷ bytes) = elim (from_byte byte) [ none ↦ suc (garbage bytes) | some stx ↦ 0 ]

-- The framer past its garbage.
unfoldable pub skip : Framer → Framer
skip f = record f {
  buf = drop (garbage f.buf) f.buf;
  resync_bytes = saturating_add f.resync_bytes (garbage f.buf);
}

abbrev pub positioned : ℕ → Option Stx → Option (ℕ × Stx)
positioned pos none = none
positioned pos (some stx) = some (pos, stx)

shift-positioned : (pos : ℕ) (o : Option Stx) → shift (positioned pos o) ≡ positioned (suc pos) o
unfolding shift
shift-positioned pos none = refl
shift-positioned pos (some stx) = refl

pub find_stx-garbage :
    (b : List ℕ) → find_stx b ≡ positioned (garbage b) (stx_of (drop (garbage b) b))
unfolding find_stx garbage stx_of
find_stx-garbage [] = refl
find_stx-garbage (byte ∷ bytes) =
    let tail = drop (garbage bytes) bytes in
    ground (arith, find_stx-garbage bytes, shift-positioned (garbage bytes) (stx_of tail))

-- Without an STX byte all of the buffer is garbage.
pub garbage_all :
    (b : List ℕ)
    → stx_of (drop (garbage b) b) ≡ none
    → (drop (garbage b) b ≡ []) × (garbage b ≡ length b)
unfolding garbage stx_of
garbage_all [] h = (refl, refl)
garbage_all (byte ∷ bytes) h = ground (arith, garbage_all bytes)

skip_to-skip :
    (f : Framer) (pos : ℕ)
    → f.resync_bytes ≤ u64_max
    → skip_to pos f
      ≡ record f { buf = drop pos f.buf; resync_bytes = saturating_add f.resync_bytes pos }
unfolding skip_to
skip_to-skip f zero h = rw (saturating_add-zero, h)
skip_to-skip f (suc pos) h = refl

aligned-positioned :
    (f : Framer) (o : Option Stx)
    → f.resync_bytes ≤ u64_max
    → stx_of (drop (garbage f.buf) f.buf) ≡ o
    → aligned f (positioned (garbage f.buf) o) ≡ (o, skip f)
unfolding aligned skip
aligned-positioned f none h e = let (empty, all) = garbage_all f.buf e in rw (empty, all)
aligned-positioned f (some stx) h e = ap (λ g. (some stx, g)) (skip_to-skip f (garbage f.buf) h)

-- The search for an STX byte drops exactly the garbage, counts it, and reports what byte stands
-- behind it.
pub align_to_stx-skip :
    (f : Framer) → f.resync_bytes ≤ u64_max → align_to_stx f ≡ (stx_of (skip f).buf, skip f)
unfolding align_to_stx skip
align_to_stx-skip f h =
    rw (find_stx-garbage f.buf) (aligned-positioned f (stx_of (drop (garbage f.buf) f.buf)) h refl)

pub stx_of-append : (b x : List ℕ) {stx : Stx} → stx_of b ≡ some stx → stx_of (b ++ x) ≡ some stx
unfolding stx_of
stx_of-append [] x h = cc
stx_of-append (byte ∷ bytes) x h = h

pub garbage-zero : (b : List ℕ) {stx : Stx} → stx_of b ≡ some stx → garbage b ≡ 0
unfolding stx_of garbage
garbage-zero [] h = refl
garbage-zero (byte ∷ bytes) h = ground arith

-- Bytes that arrive later do not change what is garbage before them.
pub garbage-append :
    (b x : List ℕ)
    → (garbage (b ++ x) ≡ garbage b + garbage (drop (garbage b) b ++ x))
      × (drop (garbage (b ++ x)) (b ++ x)
          ≡ drop (garbage (drop (garbage b) b ++ x)) (drop (garbage b) b ++ x))
unfolding garbage
garbage-append [] x = (omega arith, refl)
garbage-append (byte ∷ bytes) x = ground (arith, garbage-append bytes x)

pub garbage-le : (b : List ℕ) → garbage b ≤ length b
unfolding garbage
garbage-le [] = omega arith
garbage-le (byte ∷ bytes) = ground (arith, garbage-le bytes)
