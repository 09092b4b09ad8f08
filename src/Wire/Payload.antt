-- ===== src/Wire/Payload.antt =====
-- The typed payloads of internal/peerwire/message.go: Have, Request and Piece, their constructors
-- and parsers, and the writers of framed messages. Arguments are Go's `uint32`, so below 2 ^ 32.
pub mod RoundTrip
pub mod Blocks
pub mod Sending
use bittorrent_client.Base.{
  List, Result, drop, err, if◌then◌else◌, length, ltb, ok, take, ℕ, ◌++◌, ◌==◌,
}
use bittorrent_client.Wire.Endian.{put_uint32, uint32}
use bittorrent_client.Wire.Error.{
  WireError, wrong_id, payload_length, zero_request, parsed_zero_request, request_too_long,
  parsed_request_too_long, block_too_long, parsed_block_too_long,
}
use bittorrent_client.Wire.Writer.{Writer}
use bittorrent_client.Wire.Message.{
  max_block_size, message_have, message_bitfield, message_request, message_piece, Message, Sent,
  write_to,
}
use bittorrent_client.Wire.Bitfield.{Bitfield}

unfoldable pub new_have : ℕ → Message
new_have index = record { id = message_have; payload = put_uint32 index }

unfoldable pub parse_have : Message → Result WireError ℕ
parse_have m =
    if m.id == message_have
    then if length m.payload == 4
      then ok (uint32 m.payload)
      else err (payload_length (length m.payload) 4)
    else err (wrong_id m.id message_have)

-- A block request: piece index, offset in the piece, and length.
pub record Block : Type 0 where
  pub index : ℕ
  pub begin : ℕ
  pub len : ℕ

unfoldable pub new_request : Block → Result WireError Message
new_request b =
    if b.len == 0
    then err zero_request
    else if ltb max_block_size b.len
    then err (request_too_long b.len)
    else ok (record {
      id = message_request;
      payload = put_uint32 b.index ++ (put_uint32 b.begin ++ put_uint32 b.len);
    })

check_request : Block → Result WireError Block
check_request b =
    if b.len == 0
    then err parsed_zero_request
    else if ltb max_block_size b.len
    then err (parsed_request_too_long b.len)
    else ok b

unfoldable pub parse_request : Message → Result WireError Block
unfolding check_request
parse_request m =
    if m.id == message_request
    then if length m.payload == 12
      then check_request (record {
        index = uint32 (take 4 m.payload);
        begin = uint32 (take 4 (drop 4 m.payload));
        len = uint32 (take 4 (drop 8 m.payload));
      })
      else err (payload_length (length m.payload) 12)
    else err (wrong_id m.id message_request)

-- A block response: piece index, offset in the piece, and the block.
pub record Piece : Type 0 where
  pub index : ℕ
  pub begin : ℕ
  pub block : List ℕ

unfoldable pub new_piece : Piece → Result WireError Message
new_piece p =
    if ltb max_block_size (length p.block)
    then err (block_too_long (length p.block))
    else ok (record {
      id = message_piece;
      payload = put_uint32 p.index ++ (put_uint32 p.begin ++ p.block);
    })

check_piece : Piece → Result WireError Piece
check_piece p =
    if ltb max_block_size (length p.block)
    then err (parsed_block_too_long (length p.block))
    else ok p

unfoldable pub parse_piece : Message → Result WireError Piece
unfolding check_piece
parse_piece m =
    if m.id == message_piece
    then if ltb (length m.payload) 8
      then err (payload_length (length m.payload) 8)
      else check_piece (record {
        index = uint32 (take 4 m.payload);
        begin = uint32 (take 4 (drop 4 m.payload));
        block = drop 8 m.payload;
      })
    else err (wrong_id m.id message_piece)

module _ (w : Writer) where
  open w use {State}

  -- A payload that its constructor refuses is not written at all.
  pub data Answer : Type 0 where
    invalid : WireError → State → Answer
    sent : Sent w → Answer

  write_checked : Result WireError Message → State → Answer
  write_checked (err e) s = invalid e s
  write_checked (ok m) s = sent (write_to w m s)

  unfoldable pub write_have : ℕ → State → Sent w
  write_have index s = write_to w (new_have index) s

  unfoldable pub write_request : Block → State → Answer
  unfolding write_checked
  write_request b s = write_checked (new_request b) s

  unfoldable pub write_piece : Piece → State → Answer
  unfolding write_checked
  write_piece p s = write_checked (new_piece p) s

  unfoldable pub write_bitfield : Bitfield → State → Sent w
  write_bitfield b s = write_to w (record { id = message_bitfield; payload = b.bits }) s
