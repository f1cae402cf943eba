-- ===== src/UdpClient/Revert.antt =====
-- A client whose peer falls silent goes back to the address that was configured.
use mavlink_router_rs.Base.{
  ℕ, ◌+◌, ◌-◌, ◌*◌, ◌≤◌, ◌<◌, ◌≡◌, refl, ap, ◌∙◌, Bool, ltb, Option, none, some, List, [], ◌∷◌,
  arith, Bool-cases, inl, inr, ◌⊎◌,
}
use mavlink_router_rs.Endpoint.Session.{Inbound}
use mavlink_router_rs.Mavlink.Frame.{MsgEntry}
use mavlink_router_rs.Spec.Address.{IpAddr}
use mavlink_router_rs.UdpClient.{
  UdpClientSpec, LatchInfo, Destination, current_target, first_target, Client, refresh,
  check_latch_idle, send_frame, ClientEvent, revert_tick, datagram, recv_error, outbound, step, run,
}
use mavlink_router_rs.UdpClient.Known.{refresh-latch}

-- No datagram arrives.
abbrev pub IsQuiet : List ClientEvent → Type 0
IsQuiet [] = Unit
IsQuiet (datagram bytes src now ∷ events) = ⊥
IsQuiet (_ ∷ events) = IsQuiet events

-- The revert timer ticks at the time or later.
pub data TicksBy (deadline : ℕ) : List ClientEvent → Type 0 where
  tick_now :
      {now : ℕ} {fresh : List IpAddr} {events : List ClientEvent}
      → deadline ≤ now
      → TicksBy deadline (revert_tick now fresh ∷ events)
  tick_later :
      {event : ClientEvent} {events : List ClientEvent}
      → TicksBy deadline events
      → TicksBy deadline (event ∷ events)

refresh-port : (fresh : List IpAddr) (dest : Destination) → (refresh fresh dest).port ≡ dest.port
unfolding refresh
refresh-port [] dest = refl
refresh-port (ip ∷ ips) dest = refl

send_frame-latch :
    (frame : List ℕ) (send_to : Option ℕ) (fresh : List IpAddr) (c : Client)
    → ((send_frame frame send_to fresh c).dest.latch ≡ c.dest.latch)
      × ((send_frame frame send_to fresh c).dest.port ≡ c.dest.port)
unfolding send_frame
send_frame-latch frame send_to fresh c =
    let latch = refresh-latch fresh c.dest in
    let port = refresh-port fresh c.dest in ground (arith, latch, port)

check_latch_idle_off :
    (now idle : ℕ) (fresh : List IpAddr) (dest : Destination)
    → dest.latch ≡ none
    → check_latch_idle now idle fresh dest ≡ dest
unfolding check_latch_idle
check_latch_idle_off now idle fresh dest h = ground (arith, h)

-- A tick either leaves the destination as it is, before the deadline, or takes the latch off.
check_latch_idle_cases :
    (now idle : ℕ) (fresh : List IpAddr) (dest : Destination) (info : LatchInfo)
    → dest.latch ≡ some info
    → ((now < info.last_inbound + idle) × (check_latch_idle now idle fresh dest ≡ dest))
      ⊎ (((check_latch_idle now idle fresh dest).latch ≡ none)
          × ((check_latch_idle now idle fresh dest).port ≡ dest.port))
unfolding check_latch_idle
check_latch_idle_cases now idle fresh dest info h =
    elim (Bool-cases (ltb (now - info.last_inbound) idle)) [
      | inl early ↦ inl (ground (arith, early), ground (arith, h, early))
      | inr due ↦
          let port = refresh-port fresh dest in
          inr (ground (arith, h, due), ground (arith, h, due, port))
    ]

module _ (sorted : List (ℕ × MsgEntry)) (is_open : List Inbound → Bool) (spec : UdpClientSpec) where
  -- Without datagrams the latch stays off, and the port is the configured one.
  stays_off :
      (events : List ClientEvent) (c : Client)
      → IsQuiet events
      → c.dest.latch ≡ none
      → ((run sorted is_open spec events c).dest.latch ≡ none)
        × ((run sorted is_open spec events c).dest.port ≡ c.dest.port)
  unfolding run step
  stays_off [] c q h = (h, refl)
  stays_off (revert_tick now fresh ∷ events) c q h =
      let idle = spec.latch_idle_secs * 1000000000 in
      let same = check_latch_idle_off now idle fresh c.dest h in
      let next = record c { dest = check_latch_idle now idle fresh c.dest } in
      let (off, port) = stays_off events next q (rw same h) in
      (off, port ∙ ap (λ (dest : Destination). dest.port) same)
  stays_off (datagram bytes src now ∷ events) c q h = absurd q
  stays_off (recv_error ∷ events) c q h = stays_off events c q h
  stays_off (outbound frame send_to fresh ∷ events) c q h =
      let (latch, port) = send_frame-latch frame send_to fresh c in
      let (off, ports) = stays_off events (send_frame frame send_to fresh c) q (latch ∙ h) in
      (off, ports ∙ port)

  turned_off :
      (events : List ClientEvent) (c : Client) (info : LatchInfo)
      → IsQuiet events
      → c.dest.latch ≡ some info
      → TicksBy (info.last_inbound + spec.latch_idle_secs * 1000000000) events
      → ((run sorted is_open spec events c).dest.latch ≡ none)
        × ((run sorted is_open spec events c).dest.port ≡ c.dest.port)
  unfolding run step
  turned_off [] c info q h t = elim t [ ]
  turned_off (revert_tick now fresh ∷ events) c info q h t =
      let idle = spec.latch_idle_secs * 1000000000 in
      let next = record c { dest = check_latch_idle now idle fresh c.dest } in
      elim (check_latch_idle_cases now idle fresh c.dest info h) [
        | inl (early, same) ↦
            let (off, port) = turned_off events next info q (rw same h) (not_yet early t) in
            (off, port ∙ ap (λ (dest : Destination). dest.port) same)
        | inr (off, port) ↦
            let (stays, ports) = stays_off events next q off in (stays, ports ∙ port)
      ]
    where
      not_yet :
          now < info.last_inbound + spec.latch_idle_secs * 1000000000
          → TicksBy
              (info.last_inbound + spec.latch_idle_secs * 1000000000)
              (revert_tick now fresh ∷ events)
          → TicksBy (info.last_inbound + spec.latch_idle_secs * 1000000000) events
      not_yet early (tick_now late) = absurd (omega arith)
      not_yet early (tick_later t) = t
  turned_off (datagram bytes src now ∷ events) c info q h t = absurd q
  turned_off (recv_error ∷ events) c info q h (tick_later t) = turned_off events c info q h t
  turned_off (outbound frame send_to fresh ∷ events) c info q h (tick_later t) =
      let (latch, port) = send_frame-latch frame send_to fresh c in
      let next = send_frame frame send_to fresh c in
      let (off, ports) = turned_off events next info q (latch ∙ h) t in (off, ports ∙ port)

  -- While no datagram arrives, and once the revert timer ticks when the latched peer has been
  -- silent for the idle time, the client ends up without a latch: it sends to the first resolved
  -- address at the port that was configured, whatever it sends and resolves meanwhile.
  pub run-current_target :
      (events : List ClientEvent) (c : Client) (info : LatchInfo)
      → IsQuiet events
      → c.dest.latch ≡ some info
      → TicksBy (info.last_inbound + spec.latch_idle_secs * 1000000000) events
      → current_target (run sorted is_open spec events c).dest
        ≡ first_target c.dest.port (run sorted is_open spec events c).dest.resolved_ips
  unfolding current_target
  run-current_target events c info q h t =
      let (off, port) = turned_off events c info q h t in
      let dest = (run sorted is_open spec events c).dest in go dest off port
    where
      go :
          (dest : Destination)
          → dest.latch ≡ none
          → dest.port ≡ c.dest.port
          → current_target dest ≡ first_target c.dest.port dest.resolved_ips
      go dest off port = ground (arith, off, port)
