-- ===== src/Base/Text/Decimal.antt =====
-- Decimal numbers: `Display` and `FromStr` of the unsigned integers.
use mavlink_router_rs.Base.{
  ℕ, zero, suc, ◌+◌, ◌-◌, ◌*◌, ◌/◌, ◌%◌, ◌^◌, ◌≤◌, ◌<◌, Bool, true, ◌&&◌, Option, none, some, [],
  ◌∷◌, ◌++◌, ◌≡◌, refl, ltb, leb, ◌==◌, if◌then◌else◌, Name, arith, Bool-cases, inl, inr, u64_max,
  lt→ltb, ltb→lt,
}
use mavlink_router_rs.Base.Text.{all}
use mavlink_router_rs.Base.Text.Splits.{all-append}

unfoldable pub is_digit : ℕ → Bool
is_digit c = leb b'0' c && leb c b'9'

-- The digits behind the value `acc` of those before.
digits_from : ℕ → Name → Option ℕ
unfolding is_digit
digits_from acc [] = some acc
digits_from acc (c ∷ s) =
    let rest = digits_from (acc * 10 + (c - b'0')) s in if is_digit c then rest else none

within : ℕ → Option ℕ → Option ℕ
within limit none = none
within limit (some n) = if leb n limit then some n else none

unsigned : ℕ → Name → Option ℕ
unfolding digits_from within
unsigned limit [] = none
unsigned limit (c ∷ s) = within limit (digits_from 0 (c ∷ s))

-- `str::parse` to an unsigned integer that is at most `limit`: a `+` may stand before the digits.
unfoldable pub parse_unsigned : ℕ → Name → Option ℕ
unfolding unsigned
parse_unsigned limit [] = none
parse_unsigned limit (c ∷ s) = if c == b'+' then unsigned limit s else unsigned limit (c ∷ s)

digits : ℕ → ℕ → Name
digits zero n = []
digits (suc fuel) n =
    let front = digits fuel (n / 10) in
    if ltb n 10 then (b'0' + n) ∷ [] else front ++ (b'0' + n % 10) ∷ []

-- `to_string` of a `u64`, whose digits are at most twenty.
unfoldable pub show_unsigned : ℕ → Name
unfolding digits
show_unsigned n = digits 20 n

unsigned-le : (limit : ℕ) (s : Name) {n : ℕ} → unsigned limit s ≡ some n → n ≤ limit
unfolding unsigned
unsigned-le limit [] h = cc
unsigned-le limit (c ∷ s) h = go (digits_from 0 (c ∷ s)) h
  where
    go : (o : Option ℕ) {n : ℕ} → within limit o ≡ some n → n ≤ limit
    go none h = unfold within in cc
    go (some m) h = unfold within in ground arith

-- What is parsed is within the type's range.
pub parse_unsigned-le : (limit : ℕ) (s : Name) {n : ℕ} → parse_unsigned limit s ≡ some n → n ≤ limit
unfolding parse_unsigned
parse_unsigned-le limit [] h = cc
parse_unsigned-le limit (c ∷ s) h = ground (arith, unsigned-le limit s, unsigned-le limit (c ∷ s))

digits_from_append_one :
    (s : Name) (d acc : ℕ) {n : ℕ}
    → digits_from acc s ≡ some n
    → d < 10
    → digits_from acc (s ++ (b'0' + d) ∷ []) ≡ some (n * 10 + d)
unfolding digits_from is_digit
digits_from_append_one [] d acc h l = ground arith
digits_from_append_one (c ∷ s) d acc {n = n} h l =
    ground (arith, digits_from_append_one s d (acc * 10 + (c - b'0')) {n = n})

digits_from-digits : (fuel n : ℕ) → n < 10 ^ fuel → digits_from 0 (digits fuel n) ≡ some n
unfolding digits digits_from is_digit
digits_from-digits zero n h = ground arith
digits_from-digits (suc fuel) n h = elim (Bool-cases (ltb n 10)) [
  | inl small ↦ rw small (ground arith)
  | inr large ↦
      let front = digits_from-digits fuel (n / 10) (omega arith) in
      let whole = digits_from_append_one (digits fuel (n / 10)) (n % 10) 0 front (omega arith) in
      rw large (ground (arith, whole))
]

-- A text that starts with a digit.
abbrev pub StartsWithDigit : Name → Type 0
StartsWithDigit [] = ⊥
StartsWithDigit (c ∷ s) = (b'0' ≤ c) × (c ≤ b'9')

StartsWithDigit-append : (s t : Name) → StartsWithDigit s → StartsWithDigit (s ++ t)
StartsWithDigit-append [] t h = absurd h
StartsWithDigit-append (c ∷ s) t h = h

StartsWithDigit-digits : (fuel n : ℕ) → n < 10 ^ suc fuel → StartsWithDigit (digits (suc fuel) n)
unfolding digits
StartsWithDigit-digits zero n h = rw (lt→ltb n 10 (omega arith)) (omega arith)
StartsWithDigit-digits (suc fuel) n h = elim (Bool-cases (ltb n 10)) [
  | inl small ↦ rw small (omega (arith, ltb→lt n 10 small))
  | inr large ↦
      let front = StartsWithDigit-digits fuel (n / 10) (omega arith) in
      rw large (StartsWithDigit-append (digits (suc fuel) (n / 10)) _ front)
]

parse_unsigned-digits :
    (limit : ℕ) (s : Name) {n : ℕ}
    → StartsWithDigit s
    → digits_from 0 s ≡ some n
    → n ≤ limit
    → parse_unsigned limit s ≡ some n
unfolding parse_unsigned unsigned within
parse_unsigned-digits limit [] d h l = absurd d
parse_unsigned-digits limit (c ∷ s) d h l = ground arith

-- Parsing reads back what is printed.
pub parse_unsigned-show :
    (limit n : ℕ) → n ≤ limit → n ≤ u64_max → parse_unsigned limit (show_unsigned n) ≡ some n
unfolding show_unsigned
parse_unsigned-show limit n h l =
    parse_unsigned-digits limit (digits 20 n) (StartsWithDigit-digits 19 n (omega arith))
      (digits_from-digits 20 n (omega arith)) h

all-digits : (fuel n : ℕ) → all is_digit (digits fuel n) ≡ true
unfolding digits is_digit
all-digits zero n = refl
all-digits (suc fuel) n =
    let front = all-digits fuel (n / 10) in
    elim (Bool-cases (ltb n 10)) [
      | inl small ↦ rw small (ground arith)
      | inr large ↦ rw large (all-append is_digit (digits fuel (n / 10)) _ front (ground arith))
    ]

-- What is printed is digits alone.
pub all-show_unsigned : (n : ℕ) → all is_digit (show_unsigned n) ≡ true
unfolding show_unsigned
all-show_unsigned n = all-digits 20 n

pub show_unsigned-cons : (n : ℕ) → n ≤ u64_max → StartsWithDigit (show_unsigned n)
unfolding show_unsigned
show_unsigned-cons n h = StartsWithDigit-digits 19 n (omega arith)
