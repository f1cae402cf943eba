-- ===== src/UdpClient/Known.antt =====
-- The addresses that a client knows, and its operations on them.
use mavlink_router_rs.Base.{
  ℕ, ◌≡◌, ◌≢◌, refl, subst, true, Option, none, some, List, [], ◌∷◌, ◌++◌, any, arith, Bool-cases,
  inl, inr,
}
use mavlink_router_rs.Base.Results.{All}
use mavlink_router_rs.Spec.Address.{IpAddr, SocketAddr, ip_eq, ip_eq_iff}
use mavlink_router_rs.UdpClient.{
  LatchInfo, Destination, current_target, reject, canonical_ip, is_resolved, classify_inbound,
  refresh, check_latch_idle,
}

abbrev pub IsKnown : List IpAddr → IpAddr → Type 0
IsKnown known ip = is_resolved known ip ≡ true

abbrev pub KnownLatch : List IpAddr → Option LatchInfo → Type 0
KnownLatch known none = Unit
KnownLatch known (some latch) = IsKnown known latch.addr.ip

abbrev pub KnownPackets : List IpAddr → List (SocketAddr × List ℕ) → Type 0
KnownPackets known = All (λ p. IsKnown known p.0.ip)

IsKnown_self : (ip : IpAddr) (ips : List IpAddr) → IsKnown (ip ∷ ips) ip
unfolding is_resolved
IsKnown_self ip ips = rw ((ip_eq_iff (canonical_ip ip) (canonical_ip ip)).1 refl) refl

IsKnown_later :
    (known : List IpAddr) (ip next : IpAddr) → IsKnown known ip → IsKnown (next ∷ known) ip
unfolding is_resolved
IsKnown_later known ip next h = ground (arith, h)

-- An address that is taken for a known one is known.
IsKnown_same :
    (known : List IpAddr) (ip src : IpAddr)
    → ip_eq (canonical_ip ip) (canonical_ip src) ≡ true
    → IsKnown known ip
    → IsKnown known src
unfolding is_resolved
IsKnown_same known ip src same h =
    subst (λ c. any (λ i. ip_eq (canonical_ip i) c) known ≡ true)
      ((ip_eq_iff (canonical_ip ip) (canonical_ip src)).0 same) h

IsKnown_among :
    (known ips : List IpAddr) (src : IpAddr)
    → All (IsKnown known) ips
    → is_resolved ips src ≡ true
    → IsKnown known src
unfolding is_resolved
IsKnown_among known [] src all h = absurd (cc)
IsKnown_among known (ip ∷ ips) src (first, rest) h =
    elim (Bool-cases (ip_eq (canonical_ip ip) (canonical_ip src))) [
      | inl same ↦ IsKnown_same known ip src same first
      | inr other ↦ IsKnown_among known ips src rest (rw other at h)
    ]

All_later :
    (known ips : List IpAddr) (next : IpAddr)
    → All (IsKnown known) ips
    → All (IsKnown (next ∷ known)) ips
All_later known [] next h = tt
All_later known (ip ∷ ips) next (first, rest) =
    (IsKnown_later known ip next first, All_later known ips next rest)

pub All_self : (ips : List IpAddr) → All (IsKnown ips) ips
All_self [] = tt
All_self (ip ∷ ips) = (IsKnown_self ip ips, All_later ips ips ip (All_self ips))

pub All_split {ℓ κ} :
    {A : Type ℓ} (P : A → Type κ) (xs ys : List A) → All P (xs ++ ys) → All P xs × All P ys
All_split P [] ys h = (tt, h)
All_split P (x ∷ xs) ys (first, rest) =
    let (front, back) = All_split P xs ys rest in ((first, front), back)

pub All_snoc {ℓ κ} :
    {A : Type ℓ} (P : A → Type κ) (xs : List A) (x : A) → All P xs → P x → All P (xs ++ x ∷ [])
All_snoc P [] x h g = (g, tt)
All_snoc P (y ∷ xs) x (first, rest) g = (first, All_snoc P xs x rest g)

pub refresh-latch :
    (fresh : List IpAddr) (dest : Destination) → (refresh fresh dest).latch ≡ dest.latch
unfolding refresh
refresh-latch [] dest = refl
refresh-latch (ip ∷ ips) dest = refl

module _ (known : List IpAddr) where
  pub refresh-Known :
      (fresh : List IpAddr) (dest : Destination)
      → All (IsKnown known) fresh
      → All (IsKnown known) dest.resolved_ips
      → All (IsKnown known) (refresh fresh dest).resolved_ips
  unfolding refresh
  refresh-Known [] dest f h = h
  refresh-Known (ip ∷ ips) dest f h = f

  pub current_target-IsKnown :
      (dest : Destination) (target : SocketAddr)
      → All (IsKnown known) dest.resolved_ips
      → KnownLatch known dest.latch
      → current_target dest ≡ some target
      → IsKnown known target.ip
  unfolding current_target
  current_target-IsKnown dest target ips l h = ground (arith, ips, l, h)

  abbrev pub KnowsDest : Destination → Type 0
  KnowsDest dest = All (IsKnown known) dest.resolved_ips × KnownLatch known dest.latch

  pub check_latch_idle-Known :
      (now idle : ℕ) (fresh : List IpAddr) (dest : Destination)
      → All (IsKnown known) fresh
      → KnowsDest dest
      → KnowsDest (check_latch_idle now idle fresh dest)
  unfolding check_latch_idle
  check_latch_idle-Known now idle fresh dest f (ips, l) =
      let refreshed = refresh-Known fresh dest f ips in ground (arith, refreshed, ips, l)

  pub classify_inbound-Known :
      (dest : Destination) (src : IpAddr)
      → KnowsDest dest
      → classify_inbound dest src ≢ reject
      → IsKnown known src
  unfolding classify_inbound
  classify_inbound-Known dest src (ips, l) h = go dest.latch refl
    where
      go : (latch : Option LatchInfo) → dest.latch ≡ latch → IsKnown known src
      go none e =
          let among = IsKnown_among known dest.resolved_ips src ips in ground (arith, e, h, among)
      go (some info) e =
          let same = IsKnown_same known info.addr.ip src in ground (arith, e, h, l, same)
