-- ===== src/Wire/Payload/Blocks.antt =====
-- Piece payloads: `NewPiece` and `ParsePiece` are inverse to each other.
use bittorrent_client.Base.{
  List, ap, ap₂, arith, drop, length, ok, sym, take, ℕ, ◌++◌, ◌<◌, ◌^◌, ◌↔◌, ◌∙◌, ◌≡◌, ◌≤◌,
}
use bittorrent_client.Wire.Endian.{IsBytes, put_uint32, uint32, uint32-put_uint32}
use bittorrent_client.Wire.Message.{Message, max_block_size, message_piece}
use bittorrent_client.Wire.Payload.{Piece, new_piece, parse_piece}
use bittorrent_client.Wire.Payload.RoundTrip.{two_words, Message_eq}

-- What ParsePiece found, if it found a block.
record IsPiece (m : Message) (p : Piece) : Type 0 where
  id : m.id ≡ message_piece
  size : 8 ≤ length m.payload
  index : uint32 (take 4 m.payload) ≡ p.index
  begin : uint32 (take 4 (drop 4 m.payload)) ≡ p.begin
  block : drop 8 m.payload ≡ p.block
  small : length p.block ≤ max_block_size

parse_piece-IsPiece : (m : Message) (p : Piece) → parse_piece m ≡ ok p → IsPiece m p
unfolding parse_piece
parse_piece-IsPiece m p e = ground arith

abbrev pub piece_payload : Piece → List ℕ
piece_payload p = put_uint32 p.index ++ (put_uint32 p.begin ++ p.block)

abbrev pub piece_message : Piece → Message
piece_message p = record { id = message_piece; payload = piece_payload p }

pub new_piece_lem :
    (p : Piece) → length p.block ≤ max_block_size → new_piece p ≡ ok (piece_message p)
unfolding new_piece
new_piece_lem p h = ground arith

new_piece-ok :
    (p : Piece) (m : Message)
    → new_piece p ≡ ok m
    → (length p.block ≤ max_block_size) × (m ≡ piece_message p)
unfolding new_piece
new_piece-ok p m e = ground arith

piece_payload-IsPiece :
    (m : Message) (p : Piece) → IsBytes m.payload → IsPiece m p → piece_payload p ≡ m.payload
piece_payload-IsPiece m p h r =
    ap₂ ◌++◌ (ap put_uint32 (sym r.index)) (ap₂ ◌++◌ (ap put_uint32 (sym r.begin)) (sym r.block))
    ∙ two_words m.payload h r.size

-- A payload that is parsed is the one of its block.
pub parse_piece-message :
    (m : Message) (p : Piece) → IsBytes m.payload → parse_piece m ≡ ok p → m ≡ piece_message p
parse_piece-message m p h e =
    let r = parse_piece-IsPiece m p e in sym (Message_eq (sym r.id) (piece_payload-IsPiece m p h r))

pub parse_piece-piece_message :
    (p : Piece)
    → p.index < 2 ^ 32
    → p.begin < 2 ^ 32
    → length p.block ≤ max_block_size
    → parse_piece (piece_message p) ≡ ok p
unfolding parse_piece put_uint32
parse_piece-piece_message p hi hb h =
    ground (arith, uint32-put_uint32 p.index hi, uint32-put_uint32 p.begin hb)

-- ParsePiece gives a block exactly for the message that NewPiece makes of it; so both refuse a block
-- above 16 KiB, and the block comes back byte for byte.
pub parse_piece_iff :
    (m : Message) (p : Piece)
    → IsBytes m.payload
    → p.index < 2 ^ 32
    → p.begin < 2 ^ 32
    → (parse_piece m ≡ ok p) ↔ (new_piece p ≡ ok m)
parse_piece_iff m p h i k = (
  λ e.
      let r = parse_piece-IsPiece m p e in
      new_piece_lem p r.small ∙ ap ok (Message_eq (sym r.id) (piece_payload-IsPiece m p h r)),
  λ e.
      let (small, same) = new_piece-ok p m e in
      ap parse_piece same ∙ parse_piece-piece_message p i k small,
)
