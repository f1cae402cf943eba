-- ===== src/UdpClient/Laws.antt =====
-- Whom the client sends to and hears: the addresses that the resolver returned.
use mavlink_router_rs.Base.{
  ℕ, ◌≡◌, ◌≢◌, refl, Bool, true, false, Option, none, some, List, [], ◌∷◌, ◌++◌, arith,
}
use mavlink_router_rs.Base.Results.{All}
use mavlink_router_rs.Endpoint.Session.{Inbound}
use mavlink_router_rs.Endpoint.Stats.{EndpointStats, fetch_add}
use mavlink_router_rs.Mavlink.Frame.{MsgEntry}
use mavlink_router_rs.Spec.Address.{IpAddr, SocketAddr}
use mavlink_router_rs.UdpClient.{
  UdpClientSpec, current_target, InboundDecision, accept_and_latch, accept_update, reject,
  is_resolved, classify_inbound, Client, bound, refresh, latched, send_frame, ClientEvent,
  revert_tick, datagram, recv_error, outbound, handle_inbound, step, run,
}
use mavlink_router_rs.UdpClient.Known.{
  IsKnown, KnownLatch, KnownPackets, All_self, All_split, All_snoc, refresh-latch, refresh-Known,
  current_target-IsKnown, check_latch_idle-Known, classify_inbound-Known,
}

-- The answers of the resolver in an event, and in a run.
abbrev answers : ClientEvent → List IpAddr
answers (revert_tick now fresh) = fresh
answers (datagram bytes src now) = []
answers recv_error = []
answers (outbound frame send_to fresh) = fresh

abbrev pub all_answers : List ClientEvent → List IpAddr
all_answers [] = []
all_answers (event ∷ events) = answers event ++ all_answers events

-- The resolved addresses, the latch and the targets of what was sent are known.
record Knows (known : List IpAddr) (c : Client) : Type 0 where
  resolved : All (IsKnown known) c.dest.resolved_ips
  latch : KnownLatch known c.dest.latch
  sent_to : KnownPackets known c.packets

module _ (known : List IpAddr) where
  send_frame-Knows :
      (frame : List ℕ) (send_to : Option ℕ) (fresh : List IpAddr) (c : Client)
      → All (IsKnown known) fresh
      → Knows known c
      → Knows known (send_frame frame send_to fresh c)
  unfolding send_frame
  send_frame-Knows frame send_to fresh c f k = go (current_target c.dest) send_to refl
    where
      refreshed : All (IsKnown known) (refresh fresh c.dest).resolved_ips
      refreshed = refresh-Known known fresh c.dest f k.resolved

      latch : KnownLatch known (refresh fresh c.dest).latch
      latch = rw (refresh-latch fresh c.dest) k.latch

      sent :
          (target : SocketAddr)
          → current_target c.dest ≡ some target
          → KnownPackets known (c.packets ++ (target, frame) ∷ [])
      sent target e =
          All_snoc (λ p. IsKnown known p.0.ip) c.packets (target, frame) k.sent_to
            (current_target-IsKnown known c.dest target k.resolved k.latch e)

      go :
          (o : Option SocketAddr) (r : Option ℕ)
          → current_target c.dest ≡ o
          → Knows known (send_frame frame r fresh c)
      go none r e =
          rw (e, send_frame) (record { resolved = refreshed; latch = latch; sent_to = k.sent_to })
      go (some target) none e =
          rw (e, send_frame)
            (record { resolved = refreshed; latch = latch; sent_to = sent target e })
      go (some target) (some n) e =
          rw (e, send_frame)
            (record { resolved = k.resolved; latch = k.latch; sent_to = sent target e })

  module _ (sorted : List (ℕ × MsgEntry)) (is_open : List Inbound → Bool)
      (spec : UdpClientSpec) where
    handle_inbound-Knows :
        (bytes : List ℕ) (src : SocketAddr) (now : ℕ) (c : Client)
        → Knows known c
        → Knows known (handle_inbound sorted is_open spec bytes src now c)
    unfolding handle_inbound latched
    handle_inbound-Knows bytes src now c k =
        go (classify_inbound c.dest src.ip) refl
          (classify_inbound-Known known c.dest src.ip (k.resolved, k.latch))
      where
        go :
            (d : InboundDecision)
            → classify_inbound c.dest src.ip ≡ d
            → (classify_inbound c.dest src.ip ≢ reject → IsKnown known src.ip)
            → Knows known (handle_inbound sorted is_open spec bytes src now c)
        go reject e accepted =
            rw (e, handle_inbound)
              (record { resolved = k.resolved; latch = k.latch; sent_to = k.sent_to })
        go accept_and_latch e accepted =
            rw (e, handle_inbound)
              (record {
                resolved = k.resolved;
                latch = accepted (λ h. ground (arith, e, h));
                sent_to = k.sent_to;
              })
        go accept_update e accepted =
            rw (e, handle_inbound)
              (record {
                resolved = k.resolved;
                latch = accepted (λ h. ground (arith, e, h));
                sent_to = k.sent_to;
              })

    step-Knows :
        (event : ClientEvent) (c : Client)
        → All (IsKnown known) (answers event)
        → Knows known c
        → Knows known (step sorted is_open spec event c)
    unfolding step
    step-Knows (revert_tick now fresh) c f k =
        let (ips, l) = check_latch_idle-Known known now _ fresh c.dest f (k.resolved, k.latch) in
        record { resolved = ips; latch = l; sent_to = k.sent_to }
    step-Knows (datagram bytes src now) c f k = handle_inbound-Knows bytes src now c k
    step-Knows recv_error c f k = k
    step-Knows (outbound frame send_to fresh) c f k = send_frame-Knows frame send_to fresh c f k

    run-Knows :
        (events : List ClientEvent) (c : Client)
        → All (IsKnown known) (all_answers events)
        → Knows known c
        → Knows known (run sorted is_open spec events c)
    unfolding run
    run-Knows [] c f k = k
    run-Knows (event ∷ events) c f k =
        let (now, later) = All_split (IsKnown known) (answers event) (all_answers events) f in
        run-Knows events (step sorted is_open spec event c) later (step-Knows event c now k)

module _ (sorted : List (ℕ × MsgEntry)) (is_open : List Inbound → Bool) (spec : UdpClientSpec)
    (initial : List IpAddr) (stats : EndpointStats) (events : List ClientEvent) where
  -- The state that the task reaches by the events, from the first answer of the resolver on.
  abbrev pub reached : Client
  reached = run sorted is_open spec events (bound spec initial stats)

  reached-Knows : Knows (initial ++ all_answers events) reached
  unfolding bound
  reached-Knows =
      let known = initial ++ all_answers events in
      let (first, later) =
        All_split (IsKnown known) initial (all_answers events) (All_self known) in
      run-Knows known sorted is_open spec events (bound spec initial stats) later
        (record { resolved = first; latch = tt; sent_to = tt })

  -- Whatever the loop takes, the client sends datagrams to no IP address but those that the
  -- resolver returned for the configured host, an IPv4 address and the IPv6 address that it is
  -- mapped to taken as one.
  pub run-packets :
      All (λ p. is_resolved (initial ++ all_answers events) p.0.ip ≡ true) reached.packets
  run-packets = reached-Knows.sent_to

  -- After any events, a datagram from an IP address that the resolver never returned is dropped and
  -- counted; the destination, the latch, the framer, and what was sent to the router and to the
  -- peer stay as they are.
  pub handle_inbound_stranger :
      (bytes : List ℕ) (src : SocketAddr) (now : ℕ)
      → is_resolved (initial ++ all_answers events) src.ip ≡ false
      → handle_inbound sorted is_open spec bytes src now reached ≡ (record reached {
        session = record reached.session {
          stats = record reached.session.stats {
            in_filter_drops = fetch_add reached.session.stats.in_filter_drops 1;
          };
        };
      })
  unfolding handle_inbound
  handle_inbound_stranger bytes src now stranger = go (classify_inbound reached.dest src.ip) refl (
      classify_inbound-Known (initial ++ all_answers events) reached.dest src.ip
        (reached-Knows.resolved, reached-Knows.latch))
    where
      go :
          (d : InboundDecision)
          → classify_inbound reached.dest src.ip ≡ d
          → (classify_inbound reached.dest src.ip ≢ reject
              → is_resolved (initial ++ all_answers events) src.ip ≡ true)
          → handle_inbound sorted is_open spec bytes src now reached ≡ (record reached {
            session = record reached.session {
              stats = record reached.session.stats {
                in_filter_drops = fetch_add reached.session.stats.in_filter_drops 1;
              };
            };
          })
      go reject e known = rw (e, handle_inbound) refl
      go accept_and_latch e known =
          absurd (ground (arith, known (λ h. ground (arith, e, h)), stranger))
      go accept_update e known =
          absurd (ground (arith, known (λ h. ground (arith, e, h)), stranger))
