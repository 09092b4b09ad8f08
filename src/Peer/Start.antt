-- ===== src/Peer/Start.antt =====
-- internal/peerconn/pool.go: how a Pool starts, from `validatePoolArguments` and `uniqueEndpoints`.
pub mod Unique
pub mod Checked
use bittorrent_client.Base.{
  Bool, List, Option, Result, [], bytes_eq, drop, err, false, if◌then◌else◌, is_positive, length,
  ltb, magnitude, none, not, ok, replicate, some, take, ℕ, ℤ, ◌&&◌, ◌++◌, ◌==◌, ◌||◌, ◌∷◌,
}
use bittorrent_client.Net.{IpAddr, Endpoint, ip4, ip6}
use bittorrent_client.Peer.Pool.{Pool, new_pool}

-- netip.Addr.Unmap: an IPv6 address that wraps an IPv4 address becomes that.
unfoldable pub unmap : IpAddr → IpAddr
unmap (ip4 b) = ip4 b
unmap (ip6 b zone) =
    if bytes_eq (take 12 b) (replicate 10 0 ++ (255 ∷ 255 ∷ []))
    then ip4 (drop 12 b)
    else ip6 b zone

-- Equality of netip.AddrPort
unfoldable pub same_addr : IpAddr → IpAddr → Bool
same_addr (ip4 a) (ip4 b) = bytes_eq a b
same_addr (ip6 a z) (ip6 b y) = bytes_eq a b && bytes_eq z y
same_addr _ _ = false

unfoldable pub same_endpoint : Endpoint → Endpoint → Bool
unfolding same_addr
same_endpoint a b = same_addr a.addr b.addr && a.port == b.port

-- `_, exists := seen[addr]`
unfoldable pub seen_in : Endpoint → List Endpoint → Bool
unfolding same_endpoint
seen_in a [] = false
seen_in a (b ∷ bs) = same_endpoint a b || seen_in a bs

abbrev pub normalize : Endpoint → Endpoint
normalize a = record { addr = unmap a.addr; port = a.port }

-- The loop of `uniqueEndpoints`
unique_loop : List Endpoint → List Endpoint → List Endpoint
unique_loop seen [] = []
unique_loop seen (a ∷ addrs) =
    let skipped = unique_loop seen addrs in
    let kept = unique_loop (normalize a ∷ seen) addrs in
    if seen_in (normalize a) seen then skipped else normalize a ∷ kept

unfoldable pub unique_endpoints : List Endpoint → List Endpoint
unfolding unique_loop
unique_endpoints addrs = unique_loop [] addrs

-- `bad_context` is the error of the context.
pub data PoolError : Type 0 where
  nil_context no_endpoints concurrency_not_positive : PoolError
  concurrency_limit : ℤ → PoolError
  timeout_not_positive nil_dial : PoolError
  bad_context : ℕ → PoolError

abbrev pub max_concurrent_dials : ℕ
max_concurrent_dials = 4

-- DialOptions
pub record DialOptions : Type 0 where
  pub max_concurrent : ℤ
  pub attempt_timeout : ℤ

refused_context : Option ℕ → Option PoolError
refused_context none = none
refused_context (some e) = some (bad_context e)

-- The context and the dial function may be nil.
unfoldable pub validate_pool_arguments :
    Bool → Option ℕ → List Endpoint → DialOptions → Bool → Option PoolError
unfolding refused_context
validate_pool_arguments has_context context_error addrs options has_dial =
    if not has_context
    then some nil_context
    else if length addrs == 0
    then some no_endpoints
    else if not (is_positive options.max_concurrent)
    then some concurrency_not_positive
    else if ltb max_concurrent_dials (magnitude options.max_concurrent)
    then some (concurrency_limit options.max_concurrent)
    else if not (is_positive options.attempt_timeout)
    then some timeout_not_positive
    else if not has_dial
    then some nil_dial
    else refused_context context_error

started : Option PoolError → List Endpoint → DialOptions → Result PoolError (Pool Endpoint)
started (some e) addrs options = err e
started none addrs options =
    ok (new_pool Endpoint (magnitude options.max_concurrent) (unique_endpoints addrs))

-- newPoolWithDial
unfoldable pub new_pool_with_dial :
    Bool → Option ℕ → List Endpoint → DialOptions → Bool → Result PoolError (Pool Endpoint)
unfolding started
new_pool_with_dial has_context context_error addrs options has_dial =
    started (validate_pool_arguments has_context context_error addrs options has_dial) addrs options
