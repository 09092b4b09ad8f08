-- ===== src/Examples/Trackers.antt =====
-- A response with an interval of 1800 seconds and two peers, in the compact form and as
-- dictionaries.
use bittorrent_client.Base.{
  Bool, List, Option, Result, [], bytes_eq, err, false, if◌then◌else◌, none, ok, pos, refl,
  replicate, slices, some, true, ℕ, ◌*◌, ◌++◌, ◌<◌, ◌^◌, ◌↔◌, ◌∷◌, ◌≡◌,
}
use bittorrent_client.Net.{IpAddr, ip4, ip6}
use bittorrent_client.Tracker.{
  Value, Values, Entries, Peer, AnnounceResponse, int64, uint64, text, dictionary, end, item, empty,
  entry, interval_key, peers_key, ip_key, port_key, peer_id_key, parse_interval,
  parse_compact_peers, parse_dict_peers, decode_announce_response, lookup, parse_port,
  parse_peer_id, compact_peer,
}
use bittorrent_client.Wire.Endian.{uint16}
use bittorrent_client.Tracker.Interval.{Counts, parse_interval_iff, parse_port_iff}
use bittorrent_client.Tracker.Compact.{Packed, parse_compact_peers_iff}
use bittorrent_client.Tracker.Listed.{Listed, parse_dict_peers_iff}
use bittorrent_client.Tracker.Response.{Announces, decode_announce_response_iff}

-- Only "9" is an address.
abbrev literal : List ℕ → Option IpAddr
literal s = if bytes_eq s (57 ∷ []) then some (ip6 (replicate 15 0 ++ (9 ∷ [])) []) else none

abbrev packed_peers : List ℕ
packed_peers = 127 ∷ 0 ∷ 0 ∷ 1 ∷ 26 ∷ 225 ∷ 10 ∷ 0 ∷ 0 ∷ 2 ∷ 0 ∷ 80 ∷ []

abbrev two_peers : List Peer
two_peers =
    record { peer_id = none; addr = ip4 (127 ∷ 0 ∷ 0 ∷ 1 ∷ []); port = 6881 }
    ∷ record { peer_id = none; addr = ip4 (10 ∷ 0 ∷ 0 ∷ 2 ∷ []); port = 80 }
    ∷ []

abbrev response_entries : Entries
response_entries = entry interval_key (int64 (pos 1800)) (entry peers_key (text packed_peers) empty)

abbrev response : AnnounceResponse
response = record { interval = 1800000000000; peers = two_peers }

abbrev decode : Bool → Result ℕ Value
decode true = ok (dictionary response_entries)
decode false = err 0

decode_announce_response_iff_example :
    (decode_announce_response literal decode true ≡ ok response)
    ↔ ((d : Entries) × (decode true ≡ ok (dictionary d)) × Announces literal d response)
decode_announce_response_iff_example = decode_announce_response_iff literal decode true response

decode_two_peers : decode_announce_response literal decode true ≡ ok response
unfolding decode_announce_response lookup parse_interval parse_compact_peers compact_peer slices
    uint16 bytes_eq
decode_two_peers = refl

parse_interval_iff_example : (parse_interval (some (uint64 1800)) ≡ ok 1800000000000) ↔ (
    (s : ℕ) × Counts (some (uint64 1800)) s
    × (0 < s)
    × (1800000000000 ≡ s * 10 ^ 9)
    × (1800000000000 < 2 ^ 63))
parse_interval_iff_example = parse_interval_iff (some (uint64 1800)) 1800000000000

parse_port_iff_example :
    (parse_port (some (int64 (pos 6881))) ≡ ok 6881)
    ↔ (Counts (some (int64 (pos 6881))) 6881 × (0 < 6881) × (6881 < 2 ^ 16))
parse_port_iff_example = parse_port_iff (some (int64 (pos 6881))) 6881

parse_compact_peers_iff_example :
    (parse_compact_peers packed_peers ≡ ok two_peers) ↔ Packed packed_peers two_peers
parse_compact_peers_iff_example = parse_compact_peers_iff packed_peers two_peers

abbrev one_dictionary : Values
one_dictionary =
    item
      (dictionary (
        entry ip_key (text (57 ∷ []))
          (entry port_key (uint64 80) (entry peer_id_key (text (replicate 20 7)) empty))))
      end

abbrev named_peer : List Peer
named_peer =
    record {
      peer_id = some (replicate 20 7);
      addr = ip6 (replicate 15 0 ++ (9 ∷ [])) [];
      port = 80;
    }
    ∷ []

parse_dict_peers_iff_example :
    (parse_dict_peers literal one_dictionary ≡ ok named_peer)
    ↔ Listed literal one_dictionary named_peer
parse_dict_peers_iff_example = parse_dict_peers_iff literal one_dictionary named_peer

parse_named_peer : parse_dict_peers literal one_dictionary ≡ ok named_peer
unfolding parse_dict_peers lookup parse_port parse_peer_id bytes_eq
parse_named_peer = refl
