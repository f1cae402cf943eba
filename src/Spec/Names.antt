-- ===== src/Spec/Names.antt =====
-- The check of names, and the names that pass it: spec/parse.rs.
use mavlink_router_rs.Base.{
  ℕ, ◌≡◌, refl, Bool, true, not, ◌&&◌, ◌||◌, [], ◌∷◌, map, ◌==◌, if◌then◌else◌, Name, arith,
}
use mavlink_router_rs.Base.Results.{Result, ok, err}
use mavlink_router_rs.Base.Text.{is_ascii_alphanumeric, all}
use mavlink_router_rs.Endpoint.Filters.{is_empty}
use mavlink_router_rs.Spec.Error.{SpecError, invalid_name, invalid_query_value, not_name}

unfoldable pub is_name_char : ℕ → Bool
is_name_char c = is_ascii_alphanumeric c || (c == b'_' || c == b'-')

-- `[A-Za-z0-9_-]+`. The source tests the bytes; those of a character beyond ASCII are no name bytes.
unfoldable pub name_matches_regex : Name → Bool
name_matches_regex name = not (is_empty name) && all is_name_char name

unfoldable pub validate_name : Name → Result SpecError (Unit {0})
validate_name name = if not (name_matches_regex name) then err (invalid_name name) else ok tt

unfoldable pub validate_name_value : (value key : Name) → Result SpecError (Unit {0})
validate_name_value value key =
    if name_matches_regex value then ok tt else err (invalid_query_value key (not_name value))

unfoldable pub sanitize_for_name : Name → Name
sanitize_for_name s = map (λ c. if is_name_char c then c else b'_') s

pub all-sanitize_for_name : (s : Name) → all is_name_char (sanitize_for_name s) ≡ true
unfolding sanitize_for_name is_name_char is_ascii_alphanumeric
all-sanitize_for_name [] = refl
all-sanitize_for_name (c ∷ s) = ground (arith, all-sanitize_for_name s)
