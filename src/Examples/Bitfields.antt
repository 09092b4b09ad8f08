-- ===== src/Examples/Bitfields.antt =====
-- Bitfields of a torrent of ten pieces.
use bittorrent_client.Base.{[], arith, err, ok, pos, refl, subst, ℤ, ◌||◌, ◌∷◌, ◌≡◌}
use bittorrent_client.Wire.Error.{spare_bits}
use bittorrent_client.Wire.Bitfield.{
  validate_piece_count, spare_of, Bitfield, bitfield_byte_count, new_bitfield, parse_bitfield,
  has_piece, set_piece,
}
use bittorrent_client.Wire.Bitfield.Invariant.{IsBitfield, new_bitfield-IsBitfield}
use bittorrent_client.Wire.Bitfield.Pieces.{is_index, set_piece-has_piece, Bitfield_ext, and_then}
use bittorrent_client.Wire.Bitfield.Parse.{Decides, parse_bitfield-Decides}

-- Nothing is set.
abbrev pub blank : Bitfield
blank = record { bits = 0 ∷ 0 ∷ []; piece_count = 10 }

-- Pieces 0 and 9.
abbrev pub ends : Bitfield
ends = record { bits = 0x80 ∷ 0x40 ∷ []; piece_count = 10 }

new_blank : new_bitfield (pos 10) ≡ ok blank
unfolding new_bitfield validate_piece_count bitfield_byte_count
new_blank = refl

pub blank-IsBitfield : IsBitfield blank
blank-IsBitfield =
    let (b, made, well, _, _) = new_bitfield-IsBitfield 10 (omega arith) in
    let same : b ≡ blank = cc new_blank in subst IsBitfield same well

set_piece-has_piece_example :
    (c : Bitfield) × (set_piece blank (pos 9) ≡ ok c)
    × IsBitfield c
    × (c.piece_count ≡ 10)
    × ((z : ℤ) → has_piece c z ≡ (is_index 9 z || has_piece blank z))
set_piece-has_piece_example = set_piece-has_piece blank 9 blank-IsBitfield (omega arith)

Bitfield_ext_example : blank ≡ blank
Bitfield_ext_example = Bitfield_ext blank blank blank-IsBitfield blank-IsBitfield refl (λ i. refl)

parse_bitfield-Decides_example :
    Decides (0x80 ∷ 0x60 ∷ []) 10 (parse_bitfield (0x80 ∷ 0x60 ∷ []) (pos 10))
parse_bitfield-Decides_example =
    parse_bitfield-Decides (0x80 ∷ 0x60 ∷ []) 10 (omega arith) (omega arith)

-- A spare bit is refused, and the piece after it is not.
parse_spare : parse_bitfield (0x80 ∷ 0x60 ∷ []) (pos 10) ≡ err spare_bits
unfolding parse_bitfield validate_piece_count bitfield_byte_count spare_of
parse_spare = refl

set_both : and_then (set_piece blank (pos 0)) (pos 9) ≡ ok ends
unfolding set_piece
set_both = refl
