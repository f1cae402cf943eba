-- ===== src/Spec/Body/Laws.antt =====
-- The bounds of the addresses that are read, and that what is written is read back.
use mavlink_router_rs.Base.{
  ℕ, ◌≤◌, ◌<◌, ◌≡◌, ◌∙◌, refl, Bool, true, false, not, ◌||◌, Option, none, [], ◌∷◌, ◌++◌, ◌==◌,
  Name, arith,
}
use mavlink_router_rs.Base.Results.{ok, err, OnOk}
use mavlink_router_rs.Base.Text.{strip_prefix, contains_char, all}
use mavlink_router_rs.Base.Text.Splits.{split_once-append, rsplit_at-append, all_weaken}
use mavlink_router_rs.Base.Text.Decimal.{
  is_digit, parse_unsigned-le, show_unsigned, all-show_unsigned, parse_unsigned-show,
}
use mavlink_router_rs.Endpoint.Filters.{is_empty}
use mavlink_router_rs.Spec.Address.{IpAddr}
use mavlink_router_rs.Spec.Body.{
  u16_max, serial_parts, parse_serial_body, bracketed, unbracketed, host_and_port, parse_host_port,
  parse_listen_addr,
}
use mavlink_router_rs.Spec.Error.{Scheme, serial, malformed_body, empty_path, zero_baud, empty_host}
use mavlink_router_rs.Spec.FilterLists.{u32_max}

-- A device has a path and a rate.
abbrev pub IsDevice : Name × ℕ → Type 0
IsDevice (path, baud) = (is_empty path ≡ false) × (0 < baud) × (baud ≤ u32_max)

abbrev pub IsHostPort : Name × ℕ → Type 0
IsHostPort (host, port) = (is_empty host ≡ false) × (port ≤ u16_max)

pub parse_serial_body-IsDevice : (body : Name) → OnOk IsDevice (parse_serial_body body)
unfolding parse_serial_body serial_parts
parse_serial_body-IsDevice body = grind (arith, parse_unsigned-le)

pub parse_host_port-IsHostPort :
    (body : Name) (scheme : Scheme) → OnOk IsHostPort (parse_host_port body scheme)
unfolding parse_host_port
parse_host_port-IsHostPort body scheme = grind (arith, parse_unsigned-le)

pub parse_listen_addr-port :
    (parse_ip : Name → Option IpAddr) (body : Name) (scheme : Scheme)
    → OnOk (λ addr. addr.port ≤ u16_max) (parse_listen_addr parse_ip body scheme)
unfolding parse_listen_addr
parse_listen_addr-port parse_ip body scheme =
    let bounds = parse_host_port-IsHostPort body scheme in ground arith

digits_free :
    (p : ℕ → Bool) (n : ℕ)
    → ((c : ℕ) → is_digit c ≡ true → not (p c) ≡ true)
    → all (λ c. not (p c)) (show_unsigned n) ≡ true
digits_free p n h = all_weaken is_digit (λ c. not (p c)) h (show_unsigned n) (all-show_unsigned n)

-- `<path>:<baud>`, as it is synthesised from a file's fields.
pub parse_serial_body_written :
    (path : Name) (baud : ℕ)
    → is_empty path ≡ false
    → 0 < baud
    → baud ≤ u32_max
    → parse_serial_body (path ++ b':' ∷ show_unsigned baud) ≡ ok (path, baud)
unfolding parse_serial_body serial_parts is_digit
parse_serial_body_written path baud full low high =
    let free = digits_free (λ c. c == b':' || c == b',') baud (λ c h. ground arith) in
    let parts =
      rsplit_at-append (λ c. c == b':' || c == b',') path b':' (show_unsigned baud) refl free in
    let number = parse_unsigned-show u32_max baud high (omega arith) in rw parts (ground arith)

-- A host that is written with no brackets.
abbrev pub IsPlainHost : Name → Type 0
IsPlainHost host =
    (is_empty host ≡ false) × (contains_char b':' host ≡ false) × (strip_prefix b'[' host ≡ none)

plain_parts :
    (host : Name) (port : ℕ) (scheme : Scheme)
    → contains_char b':' host ≡ false
    → unbracketed (host ++ b':' ∷ show_unsigned port) scheme ≡ ok (host, show_unsigned port)
unfolding unbracketed is_digit
plain_parts host port scheme free =
    let digits = digits_free (λ c. c == b':') port (λ c h. ground arith) in
    let parts = rsplit_at-append (λ c. c == b':') host b':' (show_unsigned port) refl digits in
    rw (parts, unbracketed) (ground arith)

pub parse_host_port_plain :
    (host : Name) (port : ℕ) (scheme : Scheme)
    → IsPlainHost host
    → port ≤ u16_max
    → parse_host_port (host ++ b':' ∷ show_unsigned port) scheme ≡ ok (host, port)
unfolding parse_host_port host_and_port strip_prefix
parse_host_port_plain [] port scheme (full, free, start) high = absurd (cc)
parse_host_port_plain (c ∷ s) port scheme (full, free, start) high =
    let parts = plain_parts (c ∷ s) port scheme free in
    let number = parse_unsigned-show u16_max port high (omega arith) in ground arith

bracketed_parts :
    (body host after : Name) (scheme : Scheme)
    → contains_char b']' host ≡ false
    → bracketed body (host ++ b']' ∷ b':' ∷ after) scheme ≡ ok (host, after)
unfolding bracketed strip_prefix
bracketed_parts body host after scheme free =
    let parts = split_once-append b']' host (b':' ∷ after) free in rw (parts, bracketed) refl

-- `[<host>]:<port>`.
pub parse_host_port_bracketed :
    (host : Name) (port : ℕ) (scheme : Scheme)
    → is_empty host ≡ false
    → contains_char b']' host ≡ false
    → port ≤ u16_max
    → parse_host_port (b'[' ∷ (host ++ b']' ∷ b':' ∷ show_unsigned port)) scheme ≡ ok (host, port)
unfolding parse_host_port host_and_port strip_prefix
parse_host_port_bracketed host port scheme full free high =
    let body = b'[' ∷ (host ++ b']' ∷ b':' ∷ show_unsigned port) in
    let parts = bracketed_parts body host (show_unsigned port) scheme free in
    let number = parse_unsigned-show u16_max port high (omega arith) in ground arith

serial_parts_of :
    (path : Name) (baud : ℕ)
    → parse_serial_body (path ++ b':' ∷ show_unsigned baud)
      ≡ serial_parts (path ++ b':' ∷ show_unsigned baud) path (show_unsigned baud)
unfolding parse_serial_body is_digit
serial_parts_of path baud =
    let free = digits_free (λ c. c == b':' || c == b',') baud (λ c h. ground arith) in
    let parts =
      rsplit_at-append (λ c. c == b':' || c == b',') path b':' (show_unsigned baud) refl free in
    let full = append_full path b':' (show_unsigned baud) in
    rw (parts, parse_serial_body) (ground arith)
  where
    append_full : (s : Name) (c : ℕ) (t : Name) → is_empty (s ++ c ∷ t) ≡ false
    append_full [] c t = refl
    append_full (d ∷ s) c t = refl

-- An empty path and a rate of zero are refused.
pub parse_serial_body_empty_path :
    (baud : ℕ)
    → parse_serial_body (b':' ∷ show_unsigned baud)
      ≡ err (malformed_body serial (b':' ∷ show_unsigned baud) empty_path)
parse_serial_body_empty_path baud = serial_parts_of [] baud ∙ (unfold serial_parts in refl)

pub parse_serial_body_zero :
    (c : ℕ) (path : Name)
    → parse_serial_body ((c ∷ path) ++ b':' ∷ show_unsigned 0)
      ≡ err (malformed_body serial ((c ∷ path) ++ b':' ∷ show_unsigned 0) zero_baud)
parse_serial_body_zero c path =
    serial_parts_of (c ∷ path) 0
    ∙ (unfold serial_parts in rw (parse_unsigned-show u32_max 0 (omega arith) (omega arith)) refl)

-- An empty host is refused.
pub parse_host_port_empty_host :
    (port : ℕ) (scheme : Scheme)
    → parse_host_port (b':' ∷ show_unsigned port) scheme
      ≡ err (malformed_body scheme (b':' ∷ show_unsigned port) empty_host)
unfolding parse_host_port host_and_port strip_prefix
parse_host_port_empty_host port scheme = let parts = plain_parts [] port scheme refl in ground arith
