-- ===== src/Wire/Bitfield/Pieces.antt =====
-- `HasPiece` and `SetPiece` as a set of piece indexes.
use bittorrent_client.Base.{
  Bool, Bool-cases, Result, ap, ap₂, arith, bit_or, err, false, get_or, get_or_ext, inl, inr, leb,
  leb→le, length-set, negsuc, ok, pos, refl, set, subst₂, sym, ℕ, ℤ, ◌%◌, ◌*◌, ◌+◌, ◌-◌, ◌/◌, ◌<◌,
  ◌==◌, ◌^◌, ◌||◌, ◌∙◌, ◌≡◌, ◌≤◌,
}
use bittorrent_client.Wire.Error.{WireError}
use bittorrent_client.Wire.Bitfield.{Bitfield, has_piece, set_piece, bitfield_byte_count}
use bittorrent_client.Wire.Bitfield.Byte.{byte_bit, byte_bit_ext, bit_or-lt}
use bittorrent_client.Wire.Bitfield.Invariant.{
  bit_at, IsBitfield, IsBytes-get_or, IsBytes-set, bit_at-set, byte-lt-length,
}

-- In a well-formed Bitfield availability is the bit, in range and out of it.
pub has_piece-bit_at : (b : Bitfield) (i : ℕ) → IsBitfield b → has_piece b (pos i) ≡ bit_at b.bits i
unfolding has_piece
has_piece-bit_at b i v = elim (Bool-cases (leb b.piece_count i)) [
  | inl out ↦ rw out (sym (v.spare i (leb→le b.piece_count i out)))
  | inr inside ↦ rw inside
]

-- The index as the set sees it.
abbrev pub is_index : ℕ → ℤ → Bool
is_index i (pos j) = i == j
is_index i (negsuc j) = false

abbrev pub with_piece : Bitfield → ℕ → Bitfield
with_piece b i = record b {
  bits = set b.bits (i / 8) (bit_or (get_or b.bits (i / 8) 0) (2 ^ (7 - i % 8)));
}

pub set_piece_in_range :
    (b : Bitfield) (i : ℕ) → i < b.piece_count → set_piece b (pos i) ≡ ok (with_piece b i)
unfolding set_piece
set_piece_in_range b i h = ground arith

pub with_piece-IsBitfield :
    (b : Bitfield) (i : ℕ) → IsBitfield b → i < b.piece_count → IsBitfield (with_piece b i)
with_piece-IsBitfield b i v h = record {
  in_range = v.in_range;
  size = length-set b.bits (i / 8) _ ∙ v.size;
  bytes =
      IsBytes-set b.bits (i / 8) _
        (bit_or-lt (get_or b.bits (i / 8) 0) (i % 8) (IsBytes-get_or b.bits (i / 8) v.bytes)
          (omega arith))
        v.bytes;
  spare = λ j k.
      bit_at-set b.bits i j v.bytes (byte-lt-length b i v h) ∙ ap₂ ◌||◌ (differs j k) (v.spare j k);
}
  where
    differs : (j : ℕ) → b.piece_count ≤ j → (i == j) ≡ false
    differs j k = ground arith

has_piece-with_piece :
    (b : Bitfield) (i : ℕ) (z : ℤ)
    → IsBitfield b
    → i < b.piece_count
    → has_piece (with_piece b i) z ≡ (is_index i z || has_piece b z)
has_piece-with_piece b i (negsuc j) v h = unfold has_piece in refl
has_piece-with_piece b i (pos j) v h =
    has_piece-bit_at (with_piece b i) j (with_piece-IsBitfield b i v h)
    ∙ bit_at-set b.bits i j v.bytes (byte-lt-length b i v h)
    ∙ ap (λ c. i == j || c) (sym (has_piece-bit_at b j v))

-- Setting a piece that is in range succeeds. The result is well formed for the same piece count,
-- has that piece, and of every other index, negative and out-of-range ones too, it says what the
-- Bitfield said before.
pub set_piece-has_piece :
    (b : Bitfield) (i : ℕ)
    → IsBitfield b
    → i < b.piece_count
    → (c : Bitfield) × (set_piece b (pos i) ≡ ok c)
      × IsBitfield c
      × (c.piece_count ≡ b.piece_count)
      × ((z : ℤ) → has_piece c z ≡ (is_index i z || has_piece b z))
set_piece-has_piece b i v h = (
  with_piece b i,
  set_piece_in_range b i h,
  with_piece-IsBitfield b i v h,
  refl,
  λ z. has_piece-with_piece b i z v h,
)

-- A set of pieces has one well-formed Bitfield.
pub Bitfield_ext :
    (b c : Bitfield)
    → IsBitfield b
    → IsBitfield c
    → b.piece_count ≡ c.piece_count
    → ((i : ℕ) → has_piece b (pos i) ≡ has_piece c (pos i))
    → b ≡ c
Bitfield_ext b c v w e h = λ k. record { bits = same k; piece_count = e k }
  where
    bit : (i : ℕ) → bit_at b.bits i ≡ bit_at c.bits i
    bit i = sym (has_piece-bit_at b i v) ∙ h i ∙ has_piece-bit_at c i w

    byte : (q : ℕ) → get_or b.bits q 0 ≡ get_or c.bits q 0
    byte q =
        byte_bit_ext (get_or b.bits q 0) (get_or c.bits q 0) (IsBytes-get_or b.bits q v.bytes)
          (IsBytes-get_or c.bits q w.bytes) (λ r hr. at q r hr)
      where
        at : (q r : ℕ) → r < 8 → byte_bit (get_or b.bits q 0) r ≡ byte_bit (get_or c.bits q 0) r
        at q r hr =
            let d : (8 * q + r) / 8 ≡ q = omega arith in
            let m : (8 * q + r) % 8 ≡ r = omega arith in
            subst₂ (λ x y. byte_bit (get_or b.bits x 0) y ≡ byte_bit (get_or c.bits x 0) y) d m
              (bit (8 * q + r))

    same : b.bits ≡ c.bits
    same =
        get_or_ext 0 b.bits c.bits (v.size ∙ ap bitfield_byte_count e ∙ sym w.size) (λ q _. byte q)

with_piece_comm :
    (b : Bitfield) (i j : ℕ)
    → IsBitfield b
    → i < b.piece_count
    → j < b.piece_count
    → with_piece (with_piece b i) j ≡ with_piece (with_piece b j) i
with_piece_comm b i j v hi hj =
    Bitfield_ext _ _ (with_piece-IsBitfield (with_piece b i) j vi hj)
      (with_piece-IsBitfield (with_piece b j) i vj hi) refl
      λ k.
        has_piece-with_piece (with_piece b i) j (pos k) vi hj
        ∙ ap (λ c. j == k || c) (has_piece-with_piece b i (pos k) v hi)
        ∙ swap (j == k) (i == k) (has_piece b (pos k))
        ∙ sym (ap (λ c. i == k || c) (has_piece-with_piece b j (pos k) v hj))
        ∙ sym (has_piece-with_piece (with_piece b j) i (pos k) vj hi)
  where
    vi : IsBitfield (with_piece b i)
    vi = with_piece-IsBitfield b i v hi

    vj : IsBitfield (with_piece b j)
    vj = with_piece-IsBitfield b j v hj

    swap : (x y z : Bool) → (x || (y || z)) ≡ (y || (x || z))
    swap x y z = ground arith

with_piece_twice :
    (b : Bitfield) (i : ℕ)
    → IsBitfield b
    → i < b.piece_count
    → with_piece (with_piece b i) i ≡ with_piece b i
with_piece_twice b i v h =
    Bitfield_ext _ _ (with_piece-IsBitfield (with_piece b i) i vi h) vi refl λ k.
      has_piece-with_piece (with_piece b i) i (pos k) vi h
      ∙ ap (λ c. i == k || c) (has_piece-with_piece b i (pos k) v h)
      ∙ again (i == k) (has_piece b (pos k))
      ∙ sym (has_piece-with_piece b i (pos k) v h)
  where
    vi : IsBitfield (with_piece b i)
    vi = with_piece-IsBitfield b i v h

    again : (x y : Bool) → (x || (x || y)) ≡ (x || y)
    again x y = ground arith

-- A second SetPiece after one that succeeded.
abbrev pub and_then : Result WireError Bitfield → ℤ → Result WireError Bitfield
and_then (ok c) z = set_piece c z
and_then (err e) z = err e

-- Of two pieces in range the order of setting does not show, and setting one twice is setting it
-- once.
pub set_piece_comm :
    (b : Bitfield) (i j : ℕ)
    → IsBitfield b
    → i < b.piece_count
    → j < b.piece_count
    → (and_then (set_piece b (pos i)) (pos j) ≡ and_then (set_piece b (pos j)) (pos i))
      × (and_then (set_piece b (pos i)) (pos i) ≡ set_piece b (pos i))
set_piece_comm b i j v hi hj = (
  ap (λ r. and_then r (pos j)) (set_piece_in_range b i hi)
      ∙ set_piece_in_range (with_piece b i) j hj
      ∙ ap ok (with_piece_comm b i j v hi hj)
      ∙ sym (set_piece_in_range (with_piece b j) i hi)
      ∙ sym (ap (λ r. and_then r (pos i)) (set_piece_in_range b j hj)),
  ap (λ r. and_then r (pos i)) (set_piece_in_range b i hi)
      ∙ set_piece_in_range (with_piece b i) i hi
      ∙ ap ok (with_piece_twice b i v hi)
      ∙ sym (set_piece_in_range b i hi),
)
