-- ===== src/Examples/Starts.antt =====
-- Two endpoints of a caller that are one: an IPv4 address and the IPv6 address that wraps it.
use bittorrent_client.Base.{
  [], bytes_eq, map, none, ok, pos, refl, replicate, true, ◌++◌, ◌↔◌, ◌∷◌, ◌≡◌,
}
use bittorrent_client.Peer.Pool.{new_pool}
use bittorrent_client.Net.{Endpoint, ip4, ip6}
use bittorrent_client.Peer.Start.{
  DialOptions, unmap, seen_in, normalize, unique_endpoints, validate_pool_arguments,
  new_pool_with_dial,
}
use bittorrent_client.Peer.Start.Unique.{times, once, times-unique_endpoints}
use bittorrent_client.Peer.Start.Checked.{Valid, Staffed, new_pool_with_dial_iff}

abbrev local : Endpoint
local = record { addr = ip4 (127 ∷ 0 ∷ 0 ∷ 1 ∷ []); port = 6881 }

abbrev wrapped : Endpoint
wrapped = record {
  addr = ip6 (replicate 10 0 ++ (255 ∷ 255 ∷ 127 ∷ 0 ∷ 0 ∷ 1 ∷ [])) [];
  port = 6881;
}

times-unique_endpoints_example :
    times local (unique_endpoints (wrapped ∷ local ∷ []))
    ≡ once (seen_in local (map normalize (wrapped ∷ local ∷ [])))
times-unique_endpoints_example = times-unique_endpoints local (wrapped ∷ local ∷ [])

one_endpoint : unique_endpoints (wrapped ∷ local ∷ []) ≡ local ∷ []
unfolding unique_endpoints unmap seen_in bytes_eq
one_endpoint = refl

abbrev options : DialOptions
options = record { max_concurrent = pos 3; attempt_timeout = pos 5 }

new_pool_with_dial_iff_example :
    (new_pool_with_dial true none (wrapped ∷ local ∷ []) options true
      ≡ ok (new_pool Endpoint 3 (local ∷ [])))
    ↔ (Valid true none (wrapped ∷ local ∷ []) options true
        × (new_pool Endpoint 3 (unique_endpoints (wrapped ∷ local ∷ []))
            ≡ new_pool Endpoint 3 (local ∷ []))
        × Staffed (new_pool Endpoint 3 (local ∷ [])))
new_pool_with_dial_iff_example =
    new_pool_with_dial_iff true none (wrapped ∷ local ∷ []) options true
      (new_pool Endpoint 3 (local ∷ []))

start_one :
    new_pool_with_dial true none (wrapped ∷ local ∷ []) options true
    ≡ ok (new_pool Endpoint 3 (local ∷ []))
unfolding new_pool_with_dial validate_pool_arguments unique_endpoints unmap seen_in bytes_eq
start_one = refl
