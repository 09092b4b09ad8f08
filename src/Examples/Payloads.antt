-- ===== src/Examples/Payloads.antt =====
-- Have, Request and Piece payloads.
use bittorrent_client.Base.{[], arith, ok, refl, ◌↔◌, ◌∷◌, ◌≡◌}
use bittorrent_client.Wire.Endian.{uint32}
use bittorrent_client.Wire.Message.{Message}
use bittorrent_client.Wire.Payload.{
  Block, Piece, new_request, parse_request, new_piece, parse_piece, parse_have,
}
use bittorrent_client.Wire.Payload.RoundTrip.{parse_request_iff}
use bittorrent_client.Wire.Payload.Blocks.{parse_piece_iff}

abbrev have_message : Message
have_message = record { id = 4; payload = 0 ∷ 0 ∷ 1 ∷ 2 ∷ [] }

parse_258 : parse_have have_message ≡ ok 258
unfolding parse_have uint32
parse_258 = refl

abbrev request_message : Message
request_message = record { id = 6; payload = 0 ∷ 0 ∷ 0 ∷ 3 ∷ 0 ∷ 0 ∷ 64 ∷ 0 ∷ 0 ∷ 0 ∷ 64 ∷ 0 ∷ [] }

abbrev second_block : Block
second_block = record { index = 3; begin = 16384; len = 16384 }

parse_request_iff_example :
    (parse_request request_message ≡ ok second_block)
    ↔ (new_request second_block ≡ ok request_message)
parse_request_iff_example =
    parse_request_iff request_message second_block (omega arith) (omega arith) (omega arith)

parse_second_block : parse_request request_message ≡ ok second_block
unfolding parse_request uint32
parse_second_block = refl

abbrev piece_message : Message
piece_message = record { id = 7; payload = 0 ∷ 0 ∷ 0 ∷ 3 ∷ 0 ∷ 0 ∷ 0 ∷ 0 ∷ 9 ∷ 8 ∷ [] }

abbrev two_bytes : Piece
two_bytes = record { index = 3; begin = 0; block = 9 ∷ 8 ∷ [] }

parse_piece_iff_example :
    (parse_piece piece_message ≡ ok two_bytes) ↔ (new_piece two_bytes ≡ ok piece_message)
parse_piece_iff_example =
    parse_piece_iff piece_message two_bytes (omega arith) (omega arith) (omega arith)

parse_two_bytes : parse_piece piece_message ≡ ok two_bytes
unfolding parse_piece uint32
parse_two_bytes = refl
