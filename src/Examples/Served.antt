-- ===== src/Examples/Served.antt =====
-- The fetch of the eighth of ten pieces, of two bytes, on a new session: the peer tells of it, chokes,
-- is interested, unchokes and sends it.
use bittorrent_client.Base.{
  List, [], ap, arith, inl, inr, length, none, ok, pos, refl, subst, sym, take_all, true, ℕ, ◌++◌,
  ◌∷◌, ◌≡◌,
}
use bittorrent_client.Examples.Fetches.{eighth}
use bittorrent_client.Examples.Bitfields.{blank, blank-IsBitfield}
use bittorrent_client.Wire.Bitfield.{
  Bitfield, bitfield_byte_count, has_piece, new_bitfield, set_piece, validate_piece_count,
}
use bittorrent_client.Wire.Bitfield.Invariant.{IsBitfield}
use bittorrent_client.Wire.Bitfield.Pieces.{set_piece-has_piece}
use bittorrent_client.Peer.Session.{new_session}
use bittorrent_client.Wire.Io.{eof}
use bittorrent_client.Wire.Endian.{put_uint32}
use bittorrent_client.Wire.Message.{encode}
use bittorrent_client.Wire.Writer.{Writer}
use bittorrent_client.Wire.Writer.Whole.{TakesAll}
use bittorrent_client.Peer.Fetch.{Caller, World, fetch_piece}
use bittorrent_client.Peer.Fetch.Faultless.{Faultless}
use bittorrent_client.Peer.Fetch.Served.{Served, fetch_piece-Served, pieces_from}

abbrev eager : Writer
eager = record {
  State = List ℕ;
  write = λ s p. record { count = length p; error = none; next = s ++ p };
  sent = λ s. s;
  count_le = λ s p. omega arith;
  sent-write = λ s p. ap (λ q. s ++ q) (sym (take_all (length p) p (omega arith)));
}

eager-TakesAll : TakesAll eager
eager-TakesAll = record { all = λ s p. refl; no_error = λ s p. refl }

abbrev keeping : Caller
keeping = record {
  writer = eager;
  Sink = List ℕ;
  on_block = λ offset bytes s. (none, s ++ bytes);
  context = λ s n. none;
  watch = λ s. none;
}

keeping-Faultless : Faultless keeping
keeping-Faultless = record {
  running = λ s n. refl;
  watched = λ s. refl;
  takes_all = eager-TakesAll;
  accepted = λ offset bytes s. refl;
}

abbrev two_bytes : List ℕ
two_bytes = 10 ∷ 20 ∷ []

abbrev only_eighth : Bitfield
only_eighth = record { bits = 1 ∷ 0 ∷ []; piece_count = 10 }

set_eighth : set_piece blank (pos 7) ≡ ok only_eighth
unfolding set_piece
set_eighth = refl

only_eighth-IsBitfield : IsBitfield only_eighth
only_eighth-IsBitfield =
    let (b, made, well, _, _) = set_piece-has_piece blank 7 blank-IsBitfield (omega arith) in
    let same : b ≡ only_eighth = cc set_eighth in subst IsBitfield same well

abbrev new_world : World keeping
new_world = record {
  link = record {
    session = record {
      choked = true;
      piece_count = 10;
      peer_pieces = blank;
      bitfield_allowed = true;
    };
    input = record {
      bytes =
          0 ∷ 0 ∷ 0 ∷ 3 ∷ 5 ∷ 1 ∷ 0 ∷ 0 ∷ 0 ∷ 0 ∷ 1 ∷ 0 ∷ 0 ∷ 0 ∷ 0 ∷ 1 ∷ 2 ∷ 0 ∷ 0 ∷ 0 ∷ 1 ∷ 1 ∷ 0
          ∷ 0 ∷ 0 ∷ 11 ∷ 7 ∷ 0 ∷ 0 ∷ 0 ∷ 7 ∷ 0 ∷ 0 ∷ 0 ∷ 0 ∷ 10 ∷ 20 ∷ 99 ∷ [];
      ending = eof;
    };
  };
  out = [];
  sink = [];
  looks = 0;
}

fetch_piece-Served_example :
    Served keeping keeping-Faultless
      (pieces_from 3 7 0 two_bytes)
      (99 ∷ [])
      eof
      new_world
      (fetch_piece keeping true true eighth new_world)
unfolding encode put_uint32 has_piece new_session new_bitfield validate_piece_count
    bitfield_byte_count
fetch_piece-Served_example =
    fetch_piece-Served keeping keeping-Faultless eighth only_eighth (0 ∷ 2 ∷ []) two_bytes (99 ∷ [])
      eof new_world only_eighth-IsBitfield (omega arith) refl (omega arith) (omega arith)
      (omega arith) refl (inl refl, (inr (inl refl), tt)) refl refl
