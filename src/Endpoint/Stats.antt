-- ===== src/Endpoint/Stats.antt =====
-- The counters of an endpoint: src/endpoint/stats.rs. The atomics of one endpoint are the fields
-- of a record; `fetch_add` on an `AtomicU64` wraps around.
use mavlink_router_rs.Base.{ℕ, ◌+◌, ◌-◌, ◌%◌, ◌^◌, ◌≡◌, refl, ltb, ◌==◌, if◌then◌else◌}
use mavlink_router_rs.Mavlink.Framer.{Framer}

pub data EndpointState : Type 0 where
  reconnecting connected idle down unknown : EndpointState

unfoldable as_u8 : EndpointState → ℕ
as_u8 reconnecting = 0
as_u8 connected = 1
as_u8 idle = 2
as_u8 down = 3
as_u8 unknown = 4

unfoldable from_u8 : ℕ → EndpointState
from_u8 value =
    if value == 0
    then reconnecting
    else if value == 1
    then connected
    else if value == 2
    then idle
    else if value == 3
    then down
    else unknown

pub record EndpointStats : Type 0 where
  pub rx_frames : ℕ
  pub tx_frames : ℕ
  pub rx_bytes : ℕ
  pub tx_bytes : ℕ
  pub dropped_tx : ℕ
  pub crc_errors : ℕ
  pub resync_bytes : ℕ
  pub in_filter_drops : ℕ
  pub out_filter_drops : ℕ
  pub dedup_drops : ℕ
  pub rx_lost_est : ℕ
  pub learn_entries : ℕ
  pub state : ℕ

abbrev pub fetch_add : ℕ → ℕ → ℕ
fetch_add counter count = (counter + count) % 2 ^ 64

unfoldable pub new : EndpointState → EndpointStats
unfolding as_u8
new state = record {
  rx_frames = 0;
  tx_frames = 0;
  rx_bytes = 0;
  tx_bytes = 0;
  dropped_tx = 0;
  crc_errors = 0;
  resync_bytes = 0;
  in_filter_drops = 0;
  out_filter_drops = 0;
  dedup_drops = 0;
  rx_lost_est = 0;
  learn_entries = 0;
  state = as_u8 state;
}

unfoldable pub load_state : EndpointStats → EndpointState
unfolding from_u8
load_state stats = from_u8 stats.state

unfoldable pub store_state : EndpointState → EndpointStats → EndpointStats
unfolding as_u8
store_state state stats = record stats { state = as_u8 state }

unfoldable pub add_rx_frame : ℕ → EndpointStats → EndpointStats
add_rx_frame bytes stats = record stats {
  rx_frames = fetch_add stats.rx_frames 1;
  rx_bytes = fetch_add stats.rx_bytes bytes;
}

unfoldable pub add_tx_frame : ℕ → EndpointStats → EndpointStats
add_tx_frame bytes stats = record stats {
  tx_frames = fetch_add stats.tx_frames 1;
  tx_bytes = fetch_add stats.tx_bytes bytes;
}

-- The totals of a framer that were last published.
pub record FramerCounters : Type 0 where
  pub last_resync_total : ℕ
  pub last_crc_total : ℕ

abbrev pub no_counters : FramerCounters
no_counters = record { last_resync_total = 0; last_crc_total = 0 }

-- Publish what a framer counted since the last call. The subtractions of the source saturate.
unfoldable pub sync : FramerCounters → Framer → EndpointStats → FramerCounters × EndpointStats
sync counters framer stats =
    let resync_delta = framer.resync_bytes - counters.last_resync_total in
    let crc_delta = framer.crc_errors - counters.last_crc_total in
    (
      record { last_resync_total = framer.resync_bytes; last_crc_total = framer.crc_errors },
      record stats {
        resync_bytes =
            if ltb 0 resync_delta
            then fetch_add stats.resync_bytes resync_delta
            else stats.resync_bytes;
        crc_errors =
            if ltb 0 crc_delta then fetch_add stats.crc_errors crc_delta else stats.crc_errors;
      },
    )

-- What is stored as a state is read back as it was.
pub load_state-store_state :
    (state : EndpointState) (stats : EndpointStats) → load_state (store_state state stats) ≡ state
unfolding load_state store_state
load_state-store_state reconnecting stats = refl
load_state-store_state _ stats = refl
