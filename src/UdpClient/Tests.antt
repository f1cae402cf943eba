-- ===== src/UdpClient/Tests.antt =====
-- A client of two addresses on concrete events.
use mavlink_router_rs.Base.{◌≡◌, refl, Bool, true, none, some, List, [], ◌∷◌, ◌++◌, arith}
use mavlink_router_rs.Base.Results.{All}
use mavlink_router_rs.Base.Text.{text}
use mavlink_router_rs.Endpoint.Filters.{plain}
use mavlink_router_rs.Endpoint.Session.{Inbound}
use mavlink_router_rs.Endpoint.Stats as Stats
use mavlink_router_rs.Endpoint.Stats.{EndpointStats, connected, fetch_add}
use mavlink_router_rs.Spec.Address.{IpAddr, v4_ip, SocketAddr, ip_eq}
use mavlink_router_rs.UdpClient.{
  UdpClientSpec, LatchInfo, current_target, first_target, canonical_ip, is_resolved, Client, bound,
  ClientEvent, revert_tick, datagram, outbound, handle_inbound, run,
}
use mavlink_router_rs.UdpClient.Laws.{all_answers, reached, run-packets, handle_inbound_stranger}
use mavlink_router_rs.UdpClient.Revert.{tick_now, tick_later, run-current_target}

abbrev always : List Inbound → Bool
always sent = true

abbrev spec : UdpClientSpec
spec = record {
  host = text "gcs";
  port = 14550;
  endpoint_id = 3;
  name = text "gcs";
  latch_idle_secs = 30;
  reconnect_initial_ms = 250;
  reconnect_max_ms = 30000;
  identity = plain;
}

abbrev initial : List IpAddr
initial = v4_ip 1 ∷ []

abbrev stats : EndpointStats
stats = Stats.new connected

-- A frame goes out, its peer answers, and another one fails, after which the host has moved.
abbrev events : List ClientEvent
events =
    outbound (1 ∷ []) (some 1) []
    ∷ datagram (2 ∷ []) (record { ip = v4_ip 1; port = 9 }) 5
    ∷ outbound (3 ∷ []) none (v4_ip 2 ∷ [])
    ∷ []

run-packets_example :
    All
      (λ p. is_resolved (initial ++ all_answers events) p.0.ip ≡ true)
      (reached [] always spec initial stats events).packets
run-packets_example = run-packets [] always spec initial stats events

abbrev stranger : SocketAddr
stranger = record { ip = v4_ip 7; port = 9 }

handle_inbound_stranger_example :
    handle_inbound [] always spec (4 ∷ []) stranger 6 (reached [] always spec initial stats events)
    ≡ (let c = reached [] always spec initial stats events in
        record c {
          session = record c.session {
            stats = record c.session.stats {
              in_filter_drops = fetch_add c.session.stats.in_filter_drops 1;
            };
          };
        })
unfolding is_resolved canonical_ip ip_eq
handle_inbound_stranger_example =
    handle_inbound_stranger [] always spec initial stats events (4 ∷ []) stranger 6 refl

abbrev latch : LatchInfo
latch = record { addr = record { ip = v4_ip 1; port = 9 }; last_inbound = 5 }

abbrev latched_client : Client
latched_client = record (bound spec initial stats) {
  dest = record { host = text "gcs"; port = 14550; resolved_ips = initial; latch = some latch };
}

-- A frame goes out, and half a minute later the revert timer ticks.
abbrev silence : List ClientEvent
silence = outbound (1 ∷ []) (some 1) [] ∷ revert_tick 30000000005 (v4_ip 2 ∷ []) ∷ []

run-current_target_example :
    current_target (run [] always spec silence latched_client).dest
    ≡ first_target 14550 (run [] always spec silence latched_client).dest.resolved_ips
run-current_target_example =
    run-current_target [] always spec silence latched_client latch tt refl
      (tick_later (tick_now (omega arith)))
