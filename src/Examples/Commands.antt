-- ===== src/Examples/Commands.antt =====
-- A download of the only piece of a torrent, of two bytes, from a peer that sends a Have, an
-- Unchoke and the block. SHA-1 is a padding to 20 bytes here.
use bittorrent_client.Base.{
  All, Bool-cases, Flow, Leads, List, Option, Returns, [], arith, bytes_eq, done, fail, false,
  if◌then◌else◌, inl, inr, ltb, none, ok, pos, refl, replicate, slices, some, spent, subst, take, ℕ,
  ◌++◌, ◌∷◌, ◌≡◌, ◌≢◌,
}
use bittorrent_client.Examples.Writers.{slow}
use bittorrent_client.Examples.Clients.{local_http}
use bittorrent_client.Wire.Io.{eof, discard, read_full}
use bittorrent_client.Wire.Endian.{IsBytes}
use bittorrent_client.Wire.Bitfield.{
  set_piece, bitfield_byte_count, has_piece, new_bitfield, parse_bitfield, validate_piece_count,
}
use bittorrent_client.Wire.Endian.{put_uint32, uint16, uint32}
use bittorrent_client.Wire.Message.{
  encode, frame_message, is_keep_alive, is_unsupported, write_interested, write_to,
}
use bittorrent_client.Wire.Frame.{read_frame}
use bittorrent_client.Wire.Writer.{settle, write_full}
use bittorrent_client.Wire.Payload.{new_request, parse_have, parse_piece, write_request}
use bittorrent_client.Peer.Session.{new_session, read, receive, session_has_piece}
use bittorrent_client.Peer.Fetch.{fetch_piece}
use bittorrent_client.Tracker.{
  compact_peer, decode_announce_response, lookup, parse_compact_peers, parse_interval,
}
use bittorrent_client.Tracker.Url.{
  add_pieces, parse_query, query_unescape, split_on, url_query, values_add, values_set,
  values_update,
}
use bittorrent_client.Tracker.Client.{
  announce, announce_values, build_tracker_url, format_uint, limited, timeout_of,
}
use bittorrent_client.Metainfo.{split_piece_hashes, to_torrent_file}
use bittorrent_client.Metainfo.Open.{open_torrent}
use bittorrent_client.Disk.{
  call, create_on, link_on, linked, lstat_on, patch, read_file_on, read_on, remove_on, stat_on,
  unlinked, write_at, write_on,
}
use bittorrent_client.Command.{
  announce_started, check_download_flags, dialled, find_peer, give, lift, new_peer_id, open_input,
  refuse, shaken, torrent_of,
}
use bittorrent_client.Command.Span.{
  bits64, fits_wire, to_int64, int64_mul, int64_sub, min_int, piece_length_at,
}
use bittorrent_client.Command.Download.{check_piece_index, check_piece_length, deferred, store}
use bittorrent_client.Command.Run.{inspect_command, run}
use bittorrent_client.Command.Run.Unchanged.{run-Unchanged}
use bittorrent_client.Net.{ip4}
use bittorrent_client.Tracker.Client.{announce}
use bittorrent_client.Disk.{Entry, Host, regular}
use bittorrent_client.Metainfo.Open.{Bencode}
use bittorrent_client.Command.{CommandError, DialResult, Flags, Machine}
use bittorrent_client.Command.Download.{download_piece}
use bittorrent_client.Command.Download.Attempt.{IsDisk}
use bittorrent_client.Command.Download.Safe.{Failed, Succeeded, download_piece-Safe}
use bittorrent_client.Command.Download.Finite.{download_piece-Returns}

abbrev bencoded : Bencode
bencoded = record {
  unmarshal_raw = λ bytes. ok (record { announce = 7 ∷ []; info = bytes });
  unmarshal_info = λ bytes. ok (record {
    len = pos 2;
    name = 5 ∷ [];
    piece_length = pos 2;
    pieces = 10 ∷ 20 ∷ replicate 18 0;
  });
}

abbrev peer : DialResult slow
peer = record {
  conn = record {
    out = [];
    input = record {
      bytes =
          0 ∷ 0 ∷ 0 ∷ 5 ∷ 4 ∷ 0 ∷ 0 ∷ 0 ∷ 0 ∷ 0 ∷ 0 ∷ 0 ∷ 1 ∷ 1 ∷ 0 ∷ 0 ∷ 0 ∷ 11 ∷ 7 ∷ 0 ∷ 0 ∷ 0 ∷ 0
          ∷ 0 ∷ 0 ∷ 0 ∷ 0 ∷ 10 ∷ 20 ∷ [];
      ending = eof;
    };
    closed = false;
  };
  addr = record { addr = ip4 (127 ∷ 0 ∷ 0 ∷ 1 ∷ []); port = 80 };
  handshake = record {
    reserved = replicate 8 0;
    info_hash = replicate 20 1;
    peer_id = replicate 20 2;
  };
}

abbrev flags : Flags
flags = record {
  args = (1 ∷ []) ∷ [];
  port = 6881;
  piece = pos 0;
  output = 2 ∷ [];
  timeout = pos 1;
  force = false;
}

abbrev machine : Machine
machine = record {
  parse_flags = λ args. ok flags;
  http = local_http;
  fault = λ n. none;
  temp_names = λ output. (3 ∷ []) ∷ [];
  bencode = bencoded;
  sha1 = λ bytes. take 20 (bytes ++ replicate 20 0);
  random = ok (replicate 12 0);
  writer = slow;
  dial_first = λ addrs info_hash peer_id. ok peer;
  context = λ s n. none;
  watch = λ s. none;
}

abbrev torrent_entry : List ℕ → Option Entry
torrent_entry name = if bytes_eq name (1 ∷ []) then some (regular 0) else none

-- Only the torrent is there.
abbrev before : Host
before = record {
  disk = record { entry = torrent_entry; contents = λ i. 8 ∷ []; next = 1 };
  calls = 0;
}

before-IsDisk : IsDisk before.disk
before-IsDisk name i h = elim (Bool-cases (bytes_eq name (1 ∷ []))) [
  | inl e ↦ ground arith
  | inr e ↦ absurd (ground arith)
]

temp-apart : All (λ (n : List ℕ). n ≢ flags.output) (machine.temp_names flags.output)
temp-apart = (λ h. cc, tt)

download_piece-Safe_example :
    Leads
      (λ _ k. Succeeded machine flags before.disk k.disk)
      (λ _ k. Failed machine flags before.disk k.disk)
      (download_piece machine flags before)
download_piece-Safe_example = download_piece-Safe machine flags before before-IsDisk temp-apart

-- The sixth call of the file system and all later ones fail.
abbrev failing : Machine
failing = record machine {
  fault = λ n. if ltb n 5 then none else some (record { code = 28; progress = 0 });
}

download_piece-Returns_example : Returns (download_piece machine flags before)
download_piece-Returns_example =
    download_piece-Returns machine flags before (λ addrs info_hash peer_id r h.
      let same : peer ≡ r = ground arith in
      subst (λ (x : DialResult slow). IsBytes x.conn.input.bytes) same (omega arith))

-- What a name stands for in the end, and what the file of the piece holds; 9 if the command fails.
abbrev outcome : Flow CommandError Host (Unit {0}) → List ℕ → Option Entry × List ℕ
outcome (done a h) name = (h.disk.entry name, h.disk.contents 1)
outcome (fail e h) name = (none, 9 ∷ [])
outcome spent name = (none, [])

published :
    outcome (download_piece machine flags before) (2 ∷ []) ≡ (some (regular 1), 10 ∷ 20 ∷ [])
unfolding download_piece refuse check_download_flags lift give open_input open_torrent
    to_torrent_file split_piece_hashes slices new_peer_id find_peer announce_started torrent_of
    shaken dialled announce build_tracker_url announce_values values_set values_update url_query
    parse_query split_on add_pieces query_unescape values_add format_uint timeout_of limited
    decode_announce_response lookup parse_interval parse_compact_peers compact_peer uint16 store
    check_piece_index check_piece_length deferred fits_wire piece_length_at min_int int64_sub
    int64_mul to_int64 bits64 call write_at lstat_on stat_on read_file_on create_on write_on patch
    read_on remove_on link_on unlinked linked bytes_eq fetch_piece session_has_piece has_piece read
    receive read_frame validate_piece_count bitfield_byte_count discard read_full uint32
    is_keep_alive is_unsupported frame_message set_piece parse_have parse_piece parse_bitfield
    write_request write_interested write_to write_full new_request put_uint32 encode settle
    new_session new_bitfield
published = refl

run-Unchanged_example :
    Leads
      (λ _ k. k.disk ≡ before.disk)
      (λ _ k. k.disk ≡ before.disk)
      (run machine (inspect_command ∷ (1 ∷ []) ∷ []) before)
run-Unchanged_example =
    run-Unchanged machine before.disk (inspect_command ∷ (1 ∷ []) ∷ []) before (λ rest h. cc) refl
