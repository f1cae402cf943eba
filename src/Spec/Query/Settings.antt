-- ===== src/Spec/Query/Settings.antt =====
-- What the appliers keep: the address that was read, and valid settings.
use mavlink_router_rs.Base.{
  ℕ, ◌≤◌, ◌≡◌, Bool, true, false, Option, none, some, List, [], ◌∷◌, Name, name_key, arith,
}
use mavlink_router_rs.Base.Results.{ok, err, OnOk}
use mavlink_router_rs.Spec.Error.{Scheme}
use mavlink_router_rs.Spec.FilterLists.{Parsed}
use mavlink_router_rs.Spec.FilterLists.Laws.{IsValidIdentity, apply_identity-IsValid}
use mavlink_router_rs.Spec.Address.{SocketAddr}
use mavlink_router_rs.Spec.Kinds.{
  SerialEndpoint, UdpServerEndpoint, UdpClientEndpoint, TcpServerEndpoint, TcpClientEndpoint,
}
use mavlink_router_rs.Spec.Query.{
  check_u64_range, Applier, set_serial, seconds, set_udp_server, set_udp_client, set_tcp_server,
  set_tcp_client, handled, apply_pairs, min_idle_secs, max_idle_secs, min_latch_idle_secs,
  max_latch_idle_secs,
}

-- What the applier keeps, the loop over the pairs keeps.
pub apply_pairs-OnOk {ℓ} :
    (levenshtein : Name → Name → ℕ) {A : Type 0} (P : A → Type ℓ) (set : Applier A)
    (scheme : Scheme)
    → ((key value : Name) (e : A) → P e → OnOk (λ p. P p.0) (set key value e))
    → (pairs : List (Name × Name)) (e : A) → P e
    → OnOk P (apply_pairs levenshtein set scheme pairs e)
unfolding apply_pairs
apply_pairs-OnOk levenshtein P set scheme keeps [] e h = h
apply_pairs-OnOk levenshtein {A} P set scheme keeps ((key, value) ∷ pairs) e h =
    go (set key value e) (keeps key value e h)
      (apply_pairs-OnOk levenshtein P set scheme keeps pairs)
  where
    go :
        (r : Parsed (A × Bool))
        → OnOk (λ p. P p.0) r
        → ((e : A) → P e → OnOk P (apply_pairs levenshtein set scheme pairs e))
        → OnOk P (handled levenshtein scheme key r (apply_pairs levenshtein set scheme pairs))
    go (ok (e', true)) h ih = ih e' h
    go (ok (e', false)) h ih = tt
    go (err x) h ih = tt

seconds_bounds :
    (value key : Name) (min max : ℕ)
    → OnOk (λ secs. (min ≤ secs) × (secs ≤ max)) (seconds value key min max)
unfolding seconds check_u64_range
seconds_bounds value key min max = ground arith

abbrev pub IsWithin : (min max : ℕ) → Option ℕ → Type 0
IsWithin min max none = Unit
IsWithin min max (some secs) = (min ≤ secs) × (secs ≤ max)

-- The fields of the body are those that were read, and the settings are valid.
abbrev pub SerialFrom : Name × ℕ → SerialEndpoint → Type 0
SerialFrom parts e = (e.path ≡ parts.0) × (e.baud ≡ parts.1) × IsValidIdentity e.identity

abbrev pub UdpServerFrom : SocketAddr → UdpServerEndpoint → Type 0
UdpServerFrom addr e =
    (e.bind_addr ≡ addr)
    × IsWithin min_idle_secs max_idle_secs e.idle_secs
    × IsValidIdentity e.identity

abbrev pub UdpClientFrom : Name × ℕ → UdpClientEndpoint → Type 0
UdpClientFrom parts e =
    (e.host ≡ parts.0)
    × (e.port ≡ parts.1)
    × IsWithin min_latch_idle_secs max_latch_idle_secs e.latch_idle_secs
    × IsValidIdentity e.identity

abbrev pub TcpServerFrom : SocketAddr → TcpServerEndpoint → Type 0
TcpServerFrom addr e = (e.bind_addr ≡ addr) × IsValidIdentity e.identity

abbrev pub TcpClientFrom : Name × ℕ → TcpClientEndpoint → Type 0
TcpClientFrom parts e = (e.host ≡ parts.0) × (e.port ≡ parts.1) × IsValidIdentity e.identity

pub set_serial-SerialFrom :
    (parts : Name × ℕ) (key value : Name) (e : SerialEndpoint)
    → SerialFrom parts e
    → OnOk (λ p. SerialFrom parts p.0) (set_serial key value e)
unfolding set_serial
set_serial-SerialFrom parts key value e (path, baud, v) =
    let t = apply_identity-IsValid key value e.identity v in ground arith

pub set_udp_server-UdpServerFrom :
    (addr : SocketAddr) (key value : Name) (e : UdpServerEndpoint)
    → UdpServerFrom addr e
    → OnOk (λ p. UdpServerFrom addr p.0) (set_udp_server key value e)
unfolding set_udp_server
set_udp_server-UdpServerFrom addr key value e (bind, idle, v) =
    let t = apply_identity-IsValid key value e.identity v in
    let secs = seconds_bounds value key min_idle_secs max_idle_secs in ground arith

pub set_udp_client-UdpClientFrom :
    (parts : Name × ℕ) (key value : Name) (e : UdpClientEndpoint)
    → UdpClientFrom parts e
    → OnOk (λ p. UdpClientFrom parts p.0) (set_udp_client key value e)
unfolding set_udp_client
set_udp_client-UdpClientFrom parts key value e (host, port, idle, v) =
    let t = apply_identity-IsValid key value e.identity v in
    let secs = seconds_bounds value key min_latch_idle_secs max_latch_idle_secs in ground arith

pub set_tcp_server-TcpServerFrom :
    (addr : SocketAddr) (key value : Name) (e : TcpServerEndpoint)
    → TcpServerFrom addr e
    → OnOk (λ p. TcpServerFrom addr p.0) (set_tcp_server key value e)
unfolding set_tcp_server
set_tcp_server-TcpServerFrom addr key value e (bind, v) =
    let t = apply_identity-IsValid key value e.identity v in ground arith

pub set_tcp_client-TcpClientFrom :
    (parts : Name × ℕ) (key value : Name) (e : TcpClientEndpoint)
    → TcpClientFrom parts e
    → OnOk (λ p. TcpClientFrom parts p.0) (set_tcp_client key value e)
unfolding set_tcp_client
set_tcp_client-TcpClientFrom parts key value e (host, port, v) =
    let t = apply_identity-IsValid key value e.identity v in ground arith
