-- ===== src/UdpClient.antt =====
-- The `udpc:` endpoint: src/endpoint/udp/client.rs. The socket and the resolver of host names are
-- of the crate tokio: what they return is part of each event of the loop. A point in time is a
-- number of nanoseconds. A cancelled loop takes no more events.
pub mod Known
pub mod Laws
pub mod Revert
mod Tests
use mavlink_router_rs.Base.{
  ℕ, zero, suc, ◌+◌, ◌-◌, ◌*◌, Bool, true, false, ◌||◌, Option, none, some, List, [], ◌∷◌, ◌++◌,
  ltb, if◌then◌else◌, Name, any,
}
use mavlink_router_rs.Endpoint.Filters.{IdentityFlags, is_empty}
use mavlink_router_rs.Endpoint.Session.{
  Inbound, Session, Flow, proceed, break_off, out_of_rounds, append_bytes, forward_inbound_frames,
  start,
}
use mavlink_router_rs.Endpoint.Stats.{
  EndpointStats, connected, reconnecting, store_state, add_tx_frame, fetch_add, sync,
}
use mavlink_router_rs.Mavlink.Frame.{MsgEntry}
use mavlink_router_rs.Spec.Address.{
  IpAddr, v4_ip, v6_ip, SocketAddr, is_ipv6, to_ipv4_mapped, ip_eq,
}
use mavlink_router_rs.Spec.Kinds.{UdpClientEndpoint}

abbrev pub default_latch_idle_secs : ℕ
default_latch_idle_secs = 30

abbrev pub default_reconnect_initial_ms : ℕ
default_reconnect_initial_ms = 250

abbrev pub default_reconnect_max_ms : ℕ
default_reconnect_max_ms = 30000

pub record UdpClientSpec : Type 0 where
  pub host : Name
  pub port : ℕ
  pub endpoint_id : ℕ
  pub name : Name
  pub latch_idle_secs : ℕ
  pub reconnect_initial_ms : ℕ
  pub reconnect_max_ms : ℕ
  pub identity : IdentityFlags

abbrev unwrap_or : ℕ → Option ℕ → ℕ
unwrap_or default none = default
unwrap_or default (some n) = n

unfoldable pub from_endpoint : UdpClientEndpoint → (endpoint_id : ℕ) → (name : Name) → UdpClientSpec
from_endpoint e endpoint_id name = record {
  host = e.host;
  port = e.port;
  endpoint_id = endpoint_id;
  name = name;
  latch_idle_secs = unwrap_or default_latch_idle_secs e.latch_idle_secs;
  reconnect_initial_ms = default_reconnect_initial_ms;
  reconnect_max_ms = default_reconnect_max_ms;
  identity = e.identity;
}

pub record LatchInfo : Type 0 where
  pub addr : SocketAddr
  pub last_inbound : ℕ

pub record Destination : Type 0 where
  pub host : Name
  pub port : ℕ
  pub resolved_ips : List IpAddr
  pub latch : Option LatchInfo

abbrev first_target : ℕ → List IpAddr → Option SocketAddr
first_target port [] = none
first_target port (ip ∷ ips) = some (record { ip = ip; port = port })

unfoldable pub current_target : Destination → Option SocketAddr
current_target dest = elim dest.latch [
  | some latch ↦ some latch.addr
  | none ↦ first_target dest.port dest.resolved_ips
]

pub data InboundDecision : Type 0 where
  accept_and_latch accept_update reject : InboundDecision

unfoldable pub canonical_ip : IpAddr → IpAddr
canonical_ip (v4_ip bits) = v4_ip bits
canonical_ip (v6_ip bits) = elim (to_ipv4_mapped bits) [ some v4 ↦ v4_ip v4 | none ↦ v6_ip bits ]

-- Whether an address of the list is the source, mapped addresses taken as the IPv4 ones.
unfoldable pub is_resolved : List IpAddr → IpAddr → Bool
is_resolved ips src = any (λ ip. ip_eq (canonical_ip ip) (canonical_ip src)) ips

unfoldable pub classify_inbound : Destination → IpAddr → InboundDecision
classify_inbound dest src = elim dest.latch [
  | some latch ↦
      if ip_eq (canonical_ip latch.addr.ip) (canonical_ip src) then accept_update else reject
  | none ↦ if is_resolved dest.resolved_ips src then accept_and_latch else reject
]

unfoldable pub pick_local_bind : List IpAddr → SocketAddr
pick_local_bind resolved_ips =
    if is_empty resolved_ips || any is_ipv6 resolved_ips
    then record { ip = v6_ip 0; port = 0 }
    else record { ip = v4_ip 0; port = 0 }

-- The task: its destination, its session, and the datagrams that it gave to the socket.
pub record Client : Type 0 where
  pub dest : Destination
  pub session : Session
  pub packets : List (SocketAddr × List ℕ)

-- The task once its socket is bound, after the first answer of the resolver.
unfoldable pub bound : UdpClientSpec → (initial_ips : List IpAddr) → EndpointStats → Client
bound spec initial_ips stats = record {
  dest = record { host = spec.host; port = spec.port; resolved_ips = initial_ips; latch = none };
  session = start (store_state connected stats);
  packets = [];
}

-- An answer of the resolver, if it is not empty.
unfoldable pub refresh : (fresh : List IpAddr) → Destination → Destination
refresh [] dest = dest
refresh (ip ∷ ips) dest = record dest { resolved_ips = ip ∷ ips }

abbrev on_stats : (EndpointStats → EndpointStats) → Session → Session
on_stats f session = record session { stats = f session.stats }

-- What takes an accepted packet in, once the latch is set.
unfoldable pub latched : SocketAddr → (now : ℕ) → Destination → Destination
latched src now dest = record dest { latch = some (record { addr = src; last_inbound = now }) }

unfoldable pub check_latch_idle : (now idle : ℕ) (fresh : List IpAddr) → Destination → Destination
check_latch_idle now idle fresh dest = elim dest.latch [
  | none ↦ dest
  | some latch ↦
      if ltb (now - latch.last_inbound) idle
      then dest
      else record (refresh fresh dest) { latch = none }
]

-- `send_to` fails, or sends a number of bytes.
unfoldable pub send_frame :
    (frame : List ℕ) (send_to : Option ℕ) (fresh : List IpAddr) → Client → Client
send_frame frame send_to fresh c = elim (current_target c.dest) [
  | none ↦
      let dest = refresh fresh c.dest in
      let session = elim (current_target dest) as (λ _. Session) [
        | none ↦ on_stats (store_state reconnecting) c.session
        | some target ↦ c.session
      ] in
      record c { dest = dest; session = session }
  | some target ↦ elim send_to [
    | some bytes_sent ↦ record c {
      session = on_stats (λ stats. store_state connected (add_tx_frame bytes_sent stats)) c.session;
      packets = c.packets ++ (target, frame) ∷ [];
    }
    | none ↦ record c {
      dest = refresh fresh c.dest;
      session = on_stats (store_state reconnecting) c.session;
      packets = c.packets ++ (target, frame) ∷ [];
    }
  ]
]

-- What the loop takes next: a tick, a datagram, a failure of the socket, or a frame to send.
pub data ClientEvent : Type 0 where
  revert_tick : (now : ℕ) (fresh : List IpAddr) → ClientEvent
  datagram : (bytes : List ℕ) (src : SocketAddr) (now : ℕ) → ClientEvent
  recv_error : ClientEvent
  outbound : (frame : List ℕ) (send_to : Option ℕ) (fresh : List IpAddr) → ClientEvent

module _ (sorted : List (ℕ × MsgEntry)) (is_open : List Inbound → Bool) (spec : UdpClientSpec) where
  abbrev synced : Flow × Session → Session
  synced (break_off, session) = session
  synced (_, session) =
      let (counters, stats) = sync session.framer_counters session.framer session.stats in
      record session { framer_counters = counters; stats = stats }

  -- `handle_inbound` for a packet that is accepted.
  unfoldable pub take_in : (bytes : List ℕ) (now : ℕ) → Session → Session
  take_in bytes now session =
      let flags = spec.identity in
      let ready = on_stats (store_state connected) session in
      synced (
        forward_inbound_frames sorted is_open spec.endpoint_id flags.filters now
          (record ready { framer = append_bytes bytes ready.framer }))

  unfoldable pub handle_inbound : (bytes : List ℕ) (src : SocketAddr) (now : ℕ) → Client → Client
  handle_inbound bytes src now c = elim (classify_inbound c.dest src.ip) [
    | reject ↦ record c {
      session =
          on_stats (λ stats. record stats { in_filter_drops = fetch_add stats.in_filter_drops 1 })
            c.session;
    }
    | accept_and_latch ↦ record c {
      dest = latched src now c.dest;
      session = take_in bytes now c.session;
    }
    | accept_update ↦ record c {
      dest = latched src now c.dest;
      session = take_in bytes now c.session;
    }
  ]

  -- One round of `event_loop`.
  unfoldable pub step : ClientEvent → Client → Client
  step (revert_tick now fresh) c = record c {
    dest = check_latch_idle now (spec.latch_idle_secs * 1000000000) fresh c.dest;
  }
  step (datagram bytes src now) c = handle_inbound bytes src now c
  step recv_error c = c
  step (outbound frame send_to fresh) c = send_frame frame send_to fresh c

  unfoldable pub run : List ClientEvent → Client → Client
  run [] c = c
  run (event ∷ events) c = run events (step event c)
