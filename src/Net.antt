-- ===== src/Net.antt =====
-- Addresses and endpoints: what the code uses of Go's net/netip.
use bittorrent_client.Base.{List, ℕ}

-- netip.Addr: four bytes, or sixteen with a zone.
pub data IpAddr : Type 0 where
  ip4 : List ℕ → IpAddr
  ip6 : List ℕ → List ℕ → IpAddr

-- netip.AddrPort
pub record Endpoint : Type 0 where
  pub addr : IpAddr
  pub port : ℕ
