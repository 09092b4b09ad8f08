-- ===== src/Wire/Bitfield.antt =====
-- internal/peerwire/bitfield.go: piece availability in high-bit-first wire order. Go's `int` is of
-- 64 bits. The piece count that a Bitfield keeps has been validated, so it is not negative.
pub mod Byte
pub mod Count
pub mod Invariant
pub mod Pieces
pub mod Parse
use bittorrent_client.Base.{
  Bool, List, Result, [], bit_and, bit_or, err, false, get_or, if◌then◌else◌, leb, length, ltb,
  negsuc, not, ok, pos, replicate, set, ℕ, ℤ, ◌%◌, ◌&&◌, ◌+◌, ◌-◌, ◌/◌, ◌==◌, ◌^◌,
}
use bittorrent_client.Wire.Error.{
  WireError, negative_piece_count, piece_count_range, bitfield_length, spare_bits, negative_index,
  index_range,
}

pub record Bitfield : Type 0 where
  pub bits : List ℕ
  pub piece_count : ℕ

-- The Go zero value.
abbrev pub no_bitfield : Bitfield
no_bitfield = record { bits = []; piece_count = 0 }

unfoldable pub validate_piece_count : ℤ → Result WireError ℕ
validate_piece_count (negsuc n) = err negative_piece_count
validate_piece_count (pos n) = if ltb (2 ^ 32) n then err (piece_count_range n) else ok n

unfoldable pub bitfield_byte_count : ℕ → ℕ
bitfield_byte_count n = if n % 8 == 0 then n / 8 else n / 8 + 1

blank_bitfield : Result WireError ℕ → Result WireError Bitfield
blank_bitfield (err e) = err e
blank_bitfield (ok n) = ok (record { bits = replicate (bitfield_byte_count n) 0; piece_count = n })

unfoldable pub new_bitfield : ℤ → Result WireError Bitfield
unfolding blank_bitfield
new_bitfield n = blank_bitfield (validate_piece_count n)

-- payload[len(payload)-1] & ((1 << spare) - 1), where the last byte has unused bits
unfoldable pub spare_of : List ℕ → ℕ → ℕ
spare_of payload n = bit_and (get_or payload (length payload - 1) 0) (2 ^ (8 - n % 8) - 1)

check_payload : List ℕ → Result WireError ℕ → Result WireError Bitfield
check_payload payload (err e) = err e
check_payload payload (ok n) =
    if length payload == bitfield_byte_count n
    then if not (n % 8 == 0) && not (spare_of payload n == 0)
      then err spare_bits
      else ok (record { bits = payload; piece_count = n })
    else err (bitfield_length (length payload) (bitfield_byte_count n))

unfoldable pub parse_bitfield : List ℕ → ℤ → Result WireError Bitfield
unfolding check_payload
parse_bitfield payload n = check_payload payload (validate_piece_count n)

-- byte(1 << (7 - i%8))
abbrev pub mask : ℕ → ℕ
mask i = 2 ^ (7 - i % 8)

unfoldable pub has_piece : Bitfield → ℤ → Bool
has_piece b (negsuc i) = false
has_piece b (pos i) =
    if leb b.piece_count i then false else bit_and (get_or b.bits (i / 8) 0) (mask i) == mask i

unfoldable pub set_piece : Bitfield → ℤ → Result WireError Bitfield
set_piece b (negsuc i) = err negative_index
set_piece b (pos i) =
    if leb b.piece_count i
    then err (index_range i b.piece_count)
    else ok (record b { bits = set b.bits (i / 8) (bit_or (get_or b.bits (i / 8) 0) (mask i)) })
