-- ===== src/Peer/Start/Unique.antt =====
-- The endpoints that a Pool tries: each of the caller's once.
use bittorrent_client.Base.{
  Bool, Bool-cases, List, [], ap, ap₂, arith, bytes_eq_self, bytes_eq→eq, false, if◌then◌else◌, inl,
  inr, map, not, sym, true, ℕ, ◌&&◌, ◌+◌, ◌∷◌, ◌≡◌,
}
use bittorrent_client.Net.{IpAddr, Endpoint, ip4, ip6}
use bittorrent_client.Peer.Start.{
  same_addr, same_endpoint, seen_in, normalize, unique_endpoints, unique_loop,
}

same_addr→eq : (a b : IpAddr) → same_addr a b ≡ true → a ≡ b
unfolding same_addr
same_addr→eq (ip4 a) (ip4 b) h = ap ip4 (bytes_eq→eq a b h)
same_addr→eq (ip6 a z) (ip6 b y) h =
    ap₂ ip6 (bytes_eq→eq a b (ground arith)) (bytes_eq→eq z y (ground arith))
same_addr→eq (ip4 a) (ip6 b y) h = absurd (ground arith)
same_addr→eq (ip6 a z) (ip4 b) h = absurd (ground arith)

same_addr_self : (a : IpAddr) → same_addr a a ≡ true
unfolding same_addr
same_addr_self (ip4 a) = bytes_eq_self a
same_addr_self (ip6 a z) = ground (arith, bytes_eq_self a, bytes_eq_self z)

same_endpoint→eq : (a b : Endpoint) → same_endpoint a b ≡ true → a ≡ b
unfolding same_endpoint
same_endpoint→eq a b h =
    let addr_eq : a.addr ≡ b.addr = same_addr→eq a.addr b.addr (ground arith) in
    let port_eq : a.port ≡ b.port = ground arith in
    ap₂ (λ x y. record { addr = x; port = y }) addr_eq port_eq

same_endpoint_self : (a : Endpoint) → same_endpoint a a ≡ true
unfolding same_endpoint
same_endpoint_self a = ground (arith, same_addr_self a.addr)

-- How often an endpoint stands in a list.
abbrev pub times : Endpoint → List Endpoint → ℕ
times e [] = 0
times e (a ∷ rest) = (if same_endpoint e a then 1 else 0) + times e rest

abbrev pub once : Bool → ℕ
once true = 1
once false = 0

-- An endpoint that is another one is seen where that is.
seen_in_cong :
    (e a : Endpoint) (seen : List Endpoint)
    → same_endpoint e a ≡ true
    → seen_in a seen ≡ seen_in e seen
seen_in_cong e a seen h = ap (λ x. seen_in x seen) (sym (same_endpoint→eq e a h))

times-unique_loop :
    (e : Endpoint) (seen addrs : List Endpoint)
    → times e (unique_loop seen addrs)
      ≡ once (not (seen_in e seen) && seen_in e (map normalize addrs))
unfolding unique_loop seen_in
times-unique_loop e seen [] = ground arith
times-unique_loop e seen (a ∷ addrs) = elim (Bool-cases (seen_in (normalize a) seen)) [
  | inl old ↦ elim (Bool-cases (same_endpoint e (normalize a))) [
    | inl same ↦
        rw old
          (ground (arith, times-unique_loop e seen addrs, seen_in_cong e (normalize a) seen same))
    | inr other ↦ rw (old, other) (times-unique_loop e seen addrs)
  ]
  | inr new ↦ elim (Bool-cases (same_endpoint e (normalize a))) [
    | inl same ↦ rw new (
        ground (
          arith,
          times-unique_loop e (normalize a ∷ seen) addrs,
          seen_in_cong e (normalize a) seen same,
        ))
    | inr other ↦ rw new (ground (arith, times-unique_loop e (normalize a ∷ seen) addrs))
  ]
]

-- `uniqueEndpoints` returns every endpoint of the caller, with an IPv4 address for the IPv6
-- address that wraps it, exactly once, and no other endpoint.
pub times-unique_endpoints :
    (e : Endpoint) (addrs : List Endpoint)
    → times e (unique_endpoints addrs) ≡ once (seen_in e (map normalize addrs))
unfolding unique_endpoints seen_in
times-unique_endpoints e addrs = times-unique_loop e [] addrs
