-- ===== src/Wire/Bitfield/Count.antt =====
-- `validatePieceCount` and `bitfieldByteCount`: the counts that pass, and the rounding.
use bittorrent_client.Base.{arith, negsuc, ok, pos, ℕ, ℤ, ◌*◌, ◌+◌, ◌<◌, ◌^◌, ◌≡◌, ◌≤◌}
use bittorrent_client.Wire.Bitfield.{validate_piece_count, bitfield_byte_count}

pub validate_piece_count-pos : (n : ℕ) → n ≤ 2 ^ 32 → validate_piece_count (pos n) ≡ ok n
unfolding validate_piece_count
validate_piece_count-pos n h = ground arith

pub validate_piece_count-ok :
    (z : ℤ) (n : ℕ) → validate_piece_count z ≡ ok n → (z ≡ pos n) × (n ≤ 2 ^ 32)
unfolding validate_piece_count
validate_piece_count-ok (negsuc z) n h = ground arith
validate_piece_count-ok (pos z) n h = ground arith

-- Rounding up to bytes.
pub bitfield_byte_count_bounds :
    (n : ℕ) → (n ≤ 8 * bitfield_byte_count n) × (8 * bitfield_byte_count n < n + 8)
unfolding bitfield_byte_count
bitfield_byte_count_bounds n = ground arith

pub bitfield_byte_count_unique : (n k : ℕ) → n ≤ 8 * k → 8 * k < n + 8 → bitfield_byte_count n ≡ k
bitfield_byte_count_unique n k lo hi = omega (arith, bitfield_byte_count_bounds n)
