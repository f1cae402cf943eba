-- ===== src/Base/Text.antt =====
-- Text as a list of characters: the tests, splits and conversions of `str` and `char` that the
-- parsers use, as the standard library documents them.
pub mod Decimal
pub mod Splits
use Prim.Native.Char.{code}
use Prim.Native.String.{String}
use mavlink_router_rs.Base.{
  ℕ, suc, ◌+◌, Bool, true, false, not, ◌&&◌, ◌||◌, Option, none, some, List, [], ◌∷◌, ◌++◌, ◌==◌,
  leb, if◌then◌else◌, Name, any,
}

-- A literal.
abbrev pub text : String → Name
text String.[] = []
text (String.◌∷◌ c s) = code c ∷ text s

unfoldable pub is_ascii_digit : ℕ → Bool
is_ascii_digit c = leb b'0' c && leb c b'9'

unfoldable pub is_ascii_uppercase : ℕ → Bool
is_ascii_uppercase c = leb b'A' c && leb c b'Z'

unfoldable pub is_ascii_alphanumeric : ℕ → Bool
unfolding is_ascii_digit is_ascii_uppercase
is_ascii_alphanumeric c = is_ascii_digit c || (is_ascii_uppercase c || (leb b'a' c && leb c b'z'))

unfoldable pub to_ascii_lowercase : ℕ → ℕ
unfolding is_ascii_uppercase
to_ascii_lowercase c = if is_ascii_uppercase c then c + 32 else c

-- `char::is_whitespace`: the characters with the Unicode property White_Space.
unfoldable pub is_whitespace : ℕ → Bool
is_whitespace c =
    (leb 9 c && leb c 13)
    || (c == 32
        || (c == 133
            || (c == 160
                || (c == 5760
                    || ((leb 8192 c && leb c 8202)
                        || (c == 8232
                            || (c == 8233 || (c == 8239 || (c == 8287 || c == 12288)))))))))

abbrev pub contains_char : ℕ → Name → Bool
contains_char c = any (λ d. d == c)

abbrev pub all {ℓ} : {A : Type ℓ} → (A → Bool) → List A → Bool
all p [] = true
all p (x ∷ xs) = p x && all p xs

-- `split_once`: around the first `c`.
unfoldable pub split_once : ℕ → Name → Option (Name × Name)
split_once c [] = none
split_once c (d ∷ s) =
    let rest = split_once c s in
    if d == c
    then some ([], s)
    else elim rest [ none ↦ none | some (front, back) ↦ some (d ∷ front, back) ]

-- `rsplit_once` with a test: around the last character that passes.
unfoldable pub rsplit_at : (ℕ → Bool) → Name → Option (Name × Name)
rsplit_at p [] = none
rsplit_at p (d ∷ s) = elim (rsplit_at p s) [
  | some (front, back) ↦ some (d ∷ front, back)
  | none ↦ if p d then some ([], s) else none
]

-- `split`: one piece more than there are separators.
unfoldable pub split : ℕ → Name → List Name
split c [] = [] ∷ []
split c (d ∷ s) =
    let pieces = split c s in
    if d == c
    then [] ∷ pieces
    else elim pieces [ [] ↦ (d ∷ []) ∷ [] | piece ∷ more ↦ (d ∷ piece) ∷ more ]

unfoldable pub strip_prefix : ℕ → Name → Option Name
strip_prefix c [] = none
strip_prefix c (d ∷ s) = if d == c then some s else none

trim_start : Name → Name
unfolding is_whitespace
trim_start [] = []
trim_start (c ∷ s) = let rest = trim_start s in if is_whitespace c then rest else c ∷ s

trim_end : Name → Name
unfolding is_whitespace
trim_end [] = []
trim_end (c ∷ s) = elim (trim_end s) [
  | [] ↦ if is_whitespace c then [] else c ∷ []
  | d ∷ rest ↦ c ∷ d ∷ rest
]

unfoldable pub trim : Name → Name
unfolding trim_start trim_end
trim s = trim_end (trim_start s)
