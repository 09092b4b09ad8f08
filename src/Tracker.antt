-- ===== src/Tracker.antt =====
-- internal/tracker/response.go and types.go: the response of a tracker, from the decoded bencode
-- value on. Strings are byte strings. `bencode.Decode` and the literals that `netip.ParseAddr`
-- takes are parameters.
pub mod Interval
pub mod Compact
pub mod Listed
pub mod Response
pub mod Url
pub mod Client
use bittorrent_client.Base.{
  List, Option, Result, [], bytes_eq, drop, err, if◌then◌else◌, is_positive, length, ltb, magnitude,
  map, none, not, ok, slices, some, suc, take, ℕ, ℤ, ◌%◌, ◌*◌, ◌-◌, ◌/◌, ◌==◌, ◌^◌, ◌||◌, ◌∷◌,
}
use bittorrent_client.Net.{IpAddr, ip4}
use bittorrent_client.Wire.Endian.{uint16}

-- What `bencode.Decode` makes. A map has one entry for a key.
mutual
  pub data Value : Type 0 where
    int64 : ℤ → Value
    uint64 : ℕ → Value
    text : List ℕ → Value
    items : Values → Value
    dictionary : Entries → Value

  pub data Values : Type 0 where
    end : Values
    item : Value → Values → Values

  pub data Entries : Type 0 where
    empty : Entries
    entry : List ℕ → Value → Entries → Entries

-- dict[key]
unfoldable pub lookup : List ℕ → Entries → Option Value
lookup key empty = none
lookup key (entry k v d) = let rest = lookup key d in if bytes_eq key k then some v else rest

abbrev pub failure_key : List ℕ
failure_key =
    b'f' ∷ b'a' ∷ b'i' ∷ b'l' ∷ b'u' ∷ b'r' ∷ b'e' ∷ b' ' ∷ b'r' ∷ b'e' ∷ b'a' ∷ b's' ∷ b'o' ∷ b'n'
    ∷ []

abbrev pub interval_key : List ℕ
interval_key = b'i' ∷ b'n' ∷ b't' ∷ b'e' ∷ b'r' ∷ b'v' ∷ b'a' ∷ b'l' ∷ []

abbrev pub peers_key : List ℕ
peers_key = b'p' ∷ b'e' ∷ b'e' ∷ b'r' ∷ b's' ∷ []

abbrev pub ip_key : List ℕ
ip_key = b'i' ∷ b'p' ∷ []

abbrev pub port_key : List ℕ
port_key = b'p' ∷ b'o' ∷ b'r' ∷ b't' ∷ []

abbrev pub peer_id_key : List ℕ
peer_id_key = b'p' ∷ b'e' ∷ b'e' ∷ b'r' ∷ b' ' ∷ b'i' ∷ b'd' ∷ []

pub record Peer : Type 0 where
  pub peer_id : Option (List ℕ)
  pub addr : IpAddr
  pub port : ℕ

-- The interval is in nanoseconds.
pub record AnnounceResponse : Type 0 where
  pub interval : ℕ
  pub peers : List Peer

pub data TrackerError : Type 0 where
  undecodable : ℕ → TrackerError
  not_dictionary : TrackerError
  tracker_failure : List ℕ → TrackerError
  invalid_interval interval_too_large : TrackerError
  invalid_peers compact_length : TrackerError
  peer_not_dictionary invalid_ip : ℕ → TrackerError
  non_ip_address : ℕ → List ℕ → TrackerError
  port_range port_type : TrackerError
  peer_id_type : TrackerError
  peer_id_length : ℕ → TrackerError
  peer_failed : ℕ → TrackerError → TrackerError

abbrev pub second : ℕ
second = 10 ^ 9

-- uint64(maxDuration / time.Second)
abbrev pub max_seconds : ℕ
max_seconds = (2 ^ 63 - 1) / second

duration : ℕ → Result TrackerError ℕ
duration seconds = if ltb max_seconds seconds then err interval_too_large else ok (seconds * second)

unfoldable pub parse_interval : Option Value → Result TrackerError ℕ
unfolding duration
parse_interval (some (int64 n)) =
    if not (is_positive n) then err invalid_interval else duration (magnitude n)
parse_interval (some (uint64 n)) = if n == 0 then err invalid_interval else duration n
parse_interval _ = err invalid_interval

-- The test at the end of `parsePort`, and the conversion to uint16.
port_in_range : ℕ → Result TrackerError ℕ
port_in_range port = if port == 0 || ltb 65535 port then err port_range else ok (port % 2 ^ 16)

unfoldable pub parse_port : Option Value → Result TrackerError ℕ
unfolding port_in_range
parse_port (some (int64 n)) =
    if not (is_positive n) then err port_range else port_in_range (magnitude n)
parse_port (some (uint64 n)) = port_in_range n
parse_port _ = err port_type

unfoldable pub parse_peer_id : Value → Result TrackerError (List ℕ)
parse_peer_id (text s) =
    if not (length s == 20) then err (peer_id_length (length s)) else ok (take 20 s)
parse_peer_id _ = err peer_id_type

-- The peer of one chunk of six bytes.
unfoldable pub compact_peer : List ℕ → Peer
compact_peer chunk = record {
  peer_id = none;
  addr = ip4 (take 4 chunk);
  port = uint16 (take 2 (drop 4 chunk));
}

unfoldable pub parse_compact_peers : List ℕ → Result TrackerError (List Peer)
parse_compact_peers raw =
    if length raw % 6 == 0
    then ok (map compact_peer (slices 6 (length raw / 6) 0 raw))
    else err compact_length

named : ℕ → IpAddr → ℕ → Result TrackerError (List ℕ) → Result TrackerError Peer
named i a port (err e) = err (peer_failed i e)
named i a port (ok id) = ok (record { peer_id = some id; addr = a; port = port })

-- The ID of peer `i` may be missing.
identified : ℕ → IpAddr → ℕ → Option Value → Result TrackerError Peer
unfolding named
identified i a port none = ok (record { peer_id = none; addr = a; port = port })
identified i a port (some v) = named i a port (parse_peer_id v)

with_port : ℕ → IpAddr → Result TrackerError ℕ → Entries → Result TrackerError Peer
unfolding identified
with_port i a (err e) d = err (peer_failed i e)
with_port i a (ok port) d = identified i a port (lookup peer_id_key d)

prepend :
    Result TrackerError Peer → Result TrackerError (List Peer) → Result TrackerError (List Peer)
prepend (err e) r = err e
prepend (ok p) (err e) = err e
prepend (ok p) (ok ps) = ok (p ∷ ps)

module _ (parse_addr : List ℕ → Option IpAddr) where
  with_addr : ℕ → List ℕ → Option IpAddr → Entries → Result TrackerError Peer
  unfolding with_port
  with_addr i ip none d = err (non_ip_address i ip)
  with_addr i ip (some a) d = with_port i a (parse_port (lookup port_key d)) d

  with_ip : ℕ → Option Value → Entries → Result TrackerError Peer
  unfolding with_addr
  with_ip i (some (text ip)) d = with_addr i ip (parse_addr ip) d
  with_ip i _ d = err (invalid_ip i)

  -- One round of the loop of `parseDictPeers`.
  dict_peer : ℕ → Value → Result TrackerError Peer
  unfolding with_ip
  dict_peer i (dictionary d) = with_ip i (lookup ip_key d) d
  dict_peer i _ = err (peer_not_dictionary i)

  -- The loop, from peer `i` on; an error of an earlier peer goes first.
  dict_peers : ℕ → Values → Result TrackerError (List Peer)
  unfolding dict_peer prepend
  dict_peers i end = ok []
  dict_peers i (item v vs) = prepend (dict_peer i v) (dict_peers (suc i) vs)

  unfoldable pub parse_dict_peers : Values → Result TrackerError (List Peer)
  unfolding dict_peers
  parse_dict_peers vs = dict_peers 0 vs

  parse_peers : Option Value → Result TrackerError (List Peer)
  parse_peers (some (text raw)) = parse_compact_peers raw
  parse_peers (some (items vs)) = parse_dict_peers vs
  parse_peers _ = err invalid_peers

  with_peers : ℕ → Result TrackerError (List Peer) → Result TrackerError AnnounceResponse
  with_peers interval (err e) = err e
  with_peers interval (ok ps) = ok (record { interval = interval; peers = ps })

  with_interval : Result TrackerError ℕ → Option Value → Result TrackerError AnnounceResponse
  unfolding with_peers parse_peers
  with_interval (err e) raw = err e
  with_interval (ok interval) raw = with_peers interval (parse_peers raw)

  -- A failure reason goes before everything else.
  unless_failure : Option Value → Entries → Result TrackerError AnnounceResponse
  unfolding with_interval
  unless_failure (some (text reason)) d = err (tracker_failure reason)
  unless_failure _ d = with_interval (parse_interval (lookup interval_key d)) (lookup peers_key d)

  decoded : Result ℕ Value → Result TrackerError AnnounceResponse
  unfolding unless_failure
  decoded (err e) = err (undecodable e)
  decoded (ok (dictionary d)) = unless_failure (lookup failure_key d) d
  decoded (ok _) = err not_dictionary

  -- decodeAnnounceResponse, with `decode` for `bencode.Decode` on the body
  unfoldable pub decode_announce_response :
      {Body : Type 0} → (Body → Result ℕ Value) → Body → Result TrackerError AnnounceResponse
  unfolding decoded
  decode_announce_response decode body = decoded (decode body)
