-- ===== src/Spec/Query/Keys.antt =====
-- Which keys the appliers know, and what becomes of the others.
use mavlink_router_rs.Base.{
  ℕ, ◌≡◌, refl, sym, ◌∙◌, Bool, true, false, ◌||◌, List, [], ◌∷◌, ◌++◌, Name, name_key, arith,
}
use mavlink_router_rs.Base.Results.{ok, err, All}
use mavlink_router_rs.Spec.Error.{
  Scheme, serial, udp_server, udp_client, tcp_server, tcp_client, unknown_query_key,
}
use mavlink_router_rs.Spec.FilterLists.{Parsed, identity_keys, filter_keys}
use mavlink_router_rs.Spec.FilterLists.Laws.{takes, takes-apply_identity, is_among}
use mavlink_router_rs.Spec.Kinds.{
  SerialEndpoint, UdpServerEndpoint, UdpClientEndpoint, TcpServerEndpoint, TcpClientEndpoint,
}
use mavlink_router_rs.Spec.Query.{
  known_keys_for, Applier, set_serial, set_udp_server, set_udp_client, set_tcp_server,
  set_tcp_client, suggest_query_key, handled, apply_pairs,
}

-- The keys that a scheme takes, as the suggestions list them.
abbrev pub knows : Scheme → Name → Bool
knows scheme key =
    is_among key identity_keys || (is_among key filter_keys || is_among key (known_keys_for scheme))

module _ (key value : Name) where
  pub takes-set_serial : (e : SerialEndpoint) → takes (set_serial key value e) ≡ knows serial key
  unfolding set_serial known_keys_for
  takes-set_serial e = let t = takes-apply_identity key value e.identity in ground arith

  pub takes-set_udp_server :
      (e : UdpServerEndpoint) → takes (set_udp_server key value e) ≡ knows udp_server key
  unfolding set_udp_server known_keys_for
  takes-set_udp_server e = let t = takes-apply_identity key value e.identity in ground arith

  pub takes-set_udp_client :
      (e : UdpClientEndpoint) → takes (set_udp_client key value e) ≡ knows udp_client key
  unfolding set_udp_client known_keys_for
  takes-set_udp_client e = let t = takes-apply_identity key value e.identity in ground arith

  pub takes-set_tcp_server :
      (e : TcpServerEndpoint) → takes (set_tcp_server key value e) ≡ knows tcp_server key
  unfolding set_tcp_server known_keys_for
  takes-set_tcp_server e = let t = takes-apply_identity key value e.identity in ground arith

  pub takes-set_tcp_client :
      (e : TcpClientEndpoint) → takes (set_tcp_client key value e) ≡ knows tcp_client key
  unfolding set_tcp_client known_keys_for
  takes-set_tcp_client e = let t = takes-apply_identity key value e.identity in ground arith

module _ (levenshtein : Name → Name → ℕ) {A : Type 0} (set : Applier A) (scheme : Scheme)
    (listed : (key value : Name) (e : A) → takes (set key value e) ≡ knows scheme key) where
  -- Where the settings are applied, the scheme knows every key.
  pub apply_pairs_known :
      (pairs : List (Name × Name)) (e : A) {last : A}
      → apply_pairs levenshtein set scheme pairs e ≡ ok last
      → All (λ p. knows scheme p.0 ≡ true) pairs
  unfolding apply_pairs
  apply_pairs_known [] e h = tt
  apply_pairs_known ((key, value) ∷ pairs) e {last = last} h =
      go (set key value e) (listed key value e) h
        (λ e' g. apply_pairs_known pairs e' {last = last} g)
    where
      go :
          (r : Parsed (A × Bool))
          → takes r ≡ knows scheme key
          → handled levenshtein scheme key r (apply_pairs levenshtein set scheme pairs) ≡ ok last
          → ((e : A)
              → apply_pairs levenshtein set scheme pairs e ≡ ok last
              → All (λ p. knows scheme p.0 ≡ true) pairs)
          → All (λ p. knows scheme p.0 ≡ true) ((key, value) ∷ pairs)
      go (ok (e', true)) t h ih = (sym t, ih e' h)
      go (ok (e', false)) t h ih = absurd (cc)
      go (err x) t h ih = absurd (cc)

  -- The first key that the scheme does not know is reported, behind settings that were applied.
  pub apply_pairs_unknown :
      (front back : List (Name × Name)) (key value : Name) (e : A) {applied : A}
      → apply_pairs levenshtein set scheme front e ≡ ok applied
      → knows scheme key ≡ false
      → apply_pairs levenshtein set scheme (front ++ (key, value) ∷ back) e
        ≡ err (unknown_query_key scheme key (suggest_query_key levenshtein scheme key))
  unfolding apply_pairs
  apply_pairs_unknown [] back key value e h unknown =
      go (set key value e) (listed key value e ∙ unknown)
    where
      go :
          (r : Parsed (A × Bool))
          → takes r ≡ false
          → handled levenshtein scheme key r (apply_pairs levenshtein set scheme back)
            ≡ err (unknown_query_key scheme key (suggest_query_key levenshtein scheme key))
      go (ok (e', true)) t = absurd (cc)
      go (ok (e', false)) t = refl
      go (err x) t = absurd (cc)
  apply_pairs_unknown ((j, w) ∷ front) back key value e {applied = last} h unknown =
      go (set j w e) h
        (λ e' g. apply_pairs_unknown front back key value e' {applied = last} g unknown)
    where
      go :
          (r : Parsed (A × Bool))
          → handled levenshtein scheme j r (apply_pairs levenshtein set scheme front) ≡ ok last
          → ((e' : A)
              → apply_pairs levenshtein set scheme front e' ≡ ok last
              → apply_pairs levenshtein set scheme (front ++ (key, value) ∷ back) e'
                ≡ err (unknown_query_key scheme key (suggest_query_key levenshtein scheme key)))
          → handled levenshtein scheme j r
              (apply_pairs levenshtein set scheme (front ++ (key, value) ∷ back))
            ≡ err (unknown_query_key scheme key (suggest_query_key levenshtein scheme key))
      go (ok (e', true)) h ih = ih e' h
      go (ok (e', false)) h ih = absurd (cc)
      go (err x) h ih = absurd (cc)
