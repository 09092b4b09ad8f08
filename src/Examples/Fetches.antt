-- ===== src/Examples/Fetches.antt =====
-- The fetch of a piece of two bytes, the eighth of ten, whose input is a Have, an Unchoke and the
-- block.
use bittorrent_client.Base.{
  List, Returns, [], arith, done, false, none, refl, true, ℕ, ◌++◌, ◌<◌, ◌∷◌, ◌≡◌,
}
use bittorrent_client.Examples.Bitfields.{blank}
use bittorrent_client.Examples.Writers.{slow}
use bittorrent_client.Wire.Io.{eof, discard, read_full}
use bittorrent_client.Peer.Fetch.{Caller, PieceSpec, World, fetch_piece}
use bittorrent_client.Wire.Bitfield.{
  set_piece, bitfield_byte_count, has_piece, parse_bitfield, validate_piece_count,
}
use bittorrent_client.Wire.Endian.{put_uint32, uint32}
use bittorrent_client.Wire.Message.{
  encode, frame_message, is_keep_alive, is_unsupported, write_interested, write_to,
}
use bittorrent_client.Wire.Frame.{read_frame}
use bittorrent_client.Wire.Writer.{settle, write_full}
use bittorrent_client.Wire.Payload.{new_request, parse_have, parse_piece, write_request}
use bittorrent_client.Peer.Session.{read, receive, session_has_piece}
use bittorrent_client.Peer.Fetch.Origin.{Brings, fetch_piece-Brings}
use bittorrent_client.Peer.Fetch.Requests.{Asks, fetch_piece-Asks}
use bittorrent_client.Peer.Fetch.Finite.{fetch_piece-Returns}

abbrev collecting : Caller
collecting = record {
  writer = slow;
  Sink = List ℕ;
  on_block = λ offset bytes s. (none, s ++ bytes);
  context = λ s n. none;
  watch = λ s. none;
}

abbrev pub eighth : PieceSpec
eighth = record { index = 7; len = 2 }

abbrev start : World collecting
start = record {
  link = record {
    session = record {
      choked = true;
      piece_count = 10;
      peer_pieces = blank;
      bitfield_allowed = true;
    };
    input = record {
      bytes =
          0 ∷ 0 ∷ 0 ∷ 5 ∷ 4 ∷ 0 ∷ 0 ∷ 0 ∷ 7 ∷ 0 ∷ 0 ∷ 0 ∷ 1 ∷ 1 ∷ 0 ∷ 0 ∷ 0 ∷ 11 ∷ 7 ∷ 0 ∷ 0 ∷ 0 ∷ 7
          ∷ 0 ∷ 0 ∷ 0 ∷ 0 ∷ 10 ∷ 20 ∷ [];
      ending = eof;
    };
  };
  out = [];
  sink = [];
  looks = 0;
}

abbrev finish : World collecting
finish = record {
  link = record {
    session = record {
      choked = false;
      piece_count = 10;
      peer_pieces = record { bits = 1 ∷ 0 ∷ []; piece_count = 10 };
      bitfield_allowed = false;
    };
    input = record { bytes = []; ending = eof };
  };
  out = 0 ∷ 0 ∷ 0 ∷ 1 ∷ 2 ∷ 0 ∷ 0 ∷ 0 ∷ 13 ∷ 6 ∷ 0 ∷ 0 ∷ 0 ∷ 7 ∷ 0 ∷ 0 ∷ 0 ∷ 0 ∷ 0 ∷ 0 ∷ 0 ∷ 2 ∷ [];
  sink = 10 ∷ 20 ∷ [];
  looks = 4;
}

fetched : fetch_piece collecting true true eighth start ≡ done tt finish
unfolding fetch_piece session_has_piece has_piece read receive read_frame validate_piece_count
    bitfield_byte_count discard read_full uint32 is_keep_alive is_unsupported frame_message
    set_piece parse_have parse_piece parse_bitfield write_request write_interested write_to
    write_full new_request put_uint32 encode settle
fetched = refl

fetch_piece-Brings_example :
    (7 < 10) × (0 < 2) × Brings collecting eighth (10 ∷ 20 ∷ []) [] 0 [] start.link.input.bytes
fetch_piece-Brings_example =
    fetch_piece-Brings collecting true true eighth start finish tt (omega arith) (omega arith)
      fetched

fetch_piece-Returns_example : Returns (fetch_piece collecting true true eighth start)
fetch_piece-Returns_example =
    fetch_piece-Returns collecting true true eighth start (omega arith) (omega arith)

fetch_piece-Asks_example :
    (bytes : List ℕ) × Asks collecting eighth bytes × (finish.out ≡ start.out ++ bytes)
fetch_piece-Asks_example =
    fetch_piece-Asks collecting true true eighth start finish tt (omega arith) fetched
