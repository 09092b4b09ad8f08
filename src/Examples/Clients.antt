-- ===== src/Examples/Clients.antt =====
-- An announce to a tracker whose URL has a query of its own, and which knows one peer.
use bittorrent_client.Base.{
  List, [], bytes_eq, none, ok, pos, refl, replicate, slices, some, true, ℕ, ◌↔◌, ◌∷◌, ◌≡◌,
}
use bittorrent_client.Wire.Io.{eof}
use bittorrent_client.Wire.Endian.{uint16}
use bittorrent_client.Net.{ip4}
use bittorrent_client.Tracker.{
  AnnounceResponse, dictionary, empty, entry, int64, interval_key, peers_key, text, compact_peer,
  decode_announce_response, lookup, parse_compact_peers, parse_interval,
}
use bittorrent_client.Tracker.Url.{
  add_pieces, all_pairs, encode_values, insert_key, join, parse_query, query_escape, query_unescape,
  sort_keys, split_on, url_query, values_add, values_get, values_set, values_update,
}
use bittorrent_client.Tracker.Client.{
  AnnounceRequest, Client, Http, announce, announce_values, build_tracker_url, event_started,
  format_uint, limited, timeout_of, port_param,
}
use bittorrent_client.Tracker.Client.Answered.{Answered, announce_iff}

-- k=%2f&k=v+w&x=%zz: the last is no parameter.
abbrev own_query : List ℕ
own_query =
    b'k' ∷ b'=' ∷ b'%' ∷ b'2' ∷ b'f' ∷ b'&' ∷ b'k' ∷ b'=' ∷ b'v' ∷ b'+' ∷ b'w' ∷ b'&' ∷ b'x' ∷ b'='
    ∷ b'%' ∷ b'z' ∷ b'z' ∷ []

abbrev pub local_http : Http
local_http = record {
  Url = List ℕ;
  parse_url = λ url. ok url;
  raw_query = λ url. own_query;
  with_raw_query = λ url sent. sent;
  print_url = λ url. url;
  make_request = λ url. none;
  send =
      λ timeout url. ok (record { status_code = 200; body = record { bytes = []; ending = eof } });
  decode_body = λ body. ok (
      dictionary (
        entry interval_key (int64 (pos 60))
          (entry peers_key (text (127 ∷ 0 ∷ 0 ∷ 1 ∷ 0 ∷ 80 ∷ [])) empty)));
  parse_addr = λ literal. none;
}

abbrev started : AnnounceRequest
started = record {
  info_hash = replicate 20 1;
  peer_id = replicate 20 2;
  port = 6881;
  uploaded = 0;
  downloaded = 0;
  left = 1234;
  compact = true;
  event = event_started;
}

port_digits :
    values_get port_param (announce_values started []) ≡ some ((54 ∷ 56 ∷ 56 ∷ 49 ∷ []) ∷ [])
unfolding values_get announce_values values_set values_update format_uint bytes_eq
port_digits = refl

own_values : url_query own_query ≡ ((b'k' ∷ []), (b'/' ∷ []) ∷ (b'v' ∷ 32 ∷ b'w' ∷ []) ∷ []) ∷ []
unfolding url_query parse_query split_on add_pieces query_unescape values_add values_update bytes_eq
own_values = refl

sent_bytes :
    encode_values (((b'b' ∷ []), (1 ∷ 254 ∷ []) ∷ []) ∷ ((b'a' ∷ []), (32 ∷ []) ∷ []) ∷ [])
    ≡ b'a' ∷ b'=' ∷ b'+' ∷ b'&' ∷ b'b' ∷ b'=' ∷ b'%' ∷ b'0' ∷ b'1' ∷ b'%' ∷ b'F' ∷ b'E' ∷ []
unfolding encode_values sort_keys insert_key all_pairs join query_escape
sent_bytes = refl

abbrev one_peer : AnnounceResponse
one_peer = record {
  interval = 60000000000;
  peers = record { peer_id = none; addr = ip4 (127 ∷ 0 ∷ 0 ∷ 1 ∷ []); port = 80 } ∷ [];
}

abbrev client : Client
client = record { http_client = none }

announce_iff_example :
    (announce local_http client (7 ∷ []) started ≡ ok one_peer)
    ↔ Answered local_http client (7 ∷ []) started one_peer
announce_iff_example = announce_iff local_http client (7 ∷ []) started one_peer

announced : announce local_http client (7 ∷ []) started ≡ ok one_peer
unfolding announce build_tracker_url announce_values values_set values_update format_uint timeout_of
    limited decode_announce_response lookup parse_interval parse_compact_peers compact_peer slices
    uint16 bytes_eq
announced = refl
