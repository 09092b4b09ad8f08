-- ===== src/Wire/Bitfield/Invariant.antt =====
-- When a Bitfield is well formed, and that its operations keep it so.
use bittorrent_client.Base.{
  Bool, List, [], ap, ap₂, arith, bit_or, every, every-at, false, get_or, get_or-set_ne,
  get_or-set_self, length, length-replicate, not, ok, pos, refl, replicate, set, suc, sym, true,
  zero, ℕ, ℕ_discrete, ◌%◌, ◌-◌, ◌/◌, ◌<◌, ◌==◌, ◌^◌, ◌||◌, ◌∙◌, ◌∷◌, ◌≡◌, ◌≢◌, ◌≤◌,
}
use bittorrent_client.Wire.Endian.{IsBytes}
use bittorrent_client.Wire.Bitfield.{Bitfield, bitfield_byte_count, new_bitfield}
use bittorrent_client.Wire.Bitfield.Byte.{byte_bit, byte_bit-bit_or}
use bittorrent_client.Wire.Bitfield.Count.{bitfield_byte_count_bounds, validate_piece_count-pos}

-- Bit `i` of the wire order, out of range false.
abbrev pub bit_at : List ℕ → ℕ → Bool
bit_at bits i = byte_bit (get_or bits (i / 8) 0) (i % 8)

-- As many bytes as the pieces need, and no bit beyond the pieces.
pub record IsBitfield (b : Bitfield) : Type 0 where
  pub in_range : b.piece_count ≤ 2 ^ 32
  pub size : length b.bits ≡ bitfield_byte_count b.piece_count
  pub bytes : IsBytes b.bits
  pub spare : (i : ℕ) → b.piece_count ≤ i → bit_at b.bits i ≡ false

pub IsBytes-get_or : (bits : List ℕ) (i : ℕ) → IsBytes bits → get_or bits i 0 < 256
IsBytes-get_or [] i h = omega arith
IsBytes-get_or (b ∷ bits) zero h = h.0
IsBytes-get_or (b ∷ bits) (suc i) h = IsBytes-get_or bits i h.1

pub IsBytes-set : (bits : List ℕ) (i v : ℕ) → v < 256 → IsBytes bits → IsBytes (set bits i v)
IsBytes-set [] i v k h = tt
IsBytes-set (b ∷ bits) zero v k h = (k, h.1)
IsBytes-set (b ∷ bits) (suc i) v k h = (h.0, IsBytes-set bits i v k h.1)

IsBytes-replicate : (n : ℕ) → IsBytes (replicate n 0)
IsBytes-replicate zero = tt
IsBytes-replicate (suc n) = (omega arith, IsBytes-replicate n)

get_or-replicate : (n i : ℕ) → get_or {A = ℕ} (replicate n 0) i 0 ≡ 0
get_or-replicate zero i = refl
get_or-replicate (suc n) zero = refl
get_or-replicate (suc n) (suc i) = get_or-replicate n i

zero_table : every 8 (λ r. not (byte_bit 0 r)) ≡ true
unfolding every
zero_table = refl

pub byte_bit_zero : (r : ℕ) → r < 8 → byte_bit 0 r ≡ false
byte_bit_zero r h = ground (arith, every-at 8 (λ r. not (byte_bit 0 r)) r zero_table h)

same_bit : (i j : ℕ) → i / 8 ≡ j / 8 → (i % 8 == j % 8) ≡ (i == j)
same_bit i j e = ground arith

other_bit : (i j : ℕ) → i / 8 ≢ j / 8 → (i == j) ≡ false
other_bit i j h = ground arith

-- Setting one bit, by its number in wire order, changes that bit alone.
pub bit_at-set :
    (bits : List ℕ) (i j : ℕ)
    → IsBytes bits
    → i / 8 < length bits
    → bit_at (set bits (i / 8) (bit_or (get_or bits (i / 8) 0) (2 ^ (7 - i % 8)))) j
      ≡ (i == j || bit_at bits j)
bit_at-set bits i j h k = elim (ℕ_discrete (i / 8) (j / 8)) [
  | yes e ↦
      ap (λ x. byte_bit x (j % 8))
        (ap (λ (q : ℕ). get_or (set bits (i / 8) new) q 0) (sym e)
          ∙ get_or-set_self bits (i / 8) new 0 k)
      ∙ byte_bit-bit_or old (i % 8) (j % 8) (IsBytes-get_or bits (i / 8) h) (omega arith)
          (omega arith)
      ∙ ap₂ ◌||◌ (same_bit i j e) (ap (λ (q : ℕ). byte_bit (get_or bits q 0) (j % 8)) e)
  | no ne ↦
      ap (λ x. byte_bit x (j % 8)) (get_or-set_ne bits (i / 8) (j / 8) new 0 ne)
      ∙ sym (ap (λ c. c || bit_at bits j) (other_bit i j ne))
]
  where
    old : ℕ
    old = get_or bits (i / 8) 0

    new : ℕ
    new = bit_or old (2 ^ (7 - i % 8))

-- A new Bitfield is well formed and has no piece.
pub new_bitfield-IsBitfield :
    (n : ℕ)
    → n ≤ 2 ^ 32
    → (b : Bitfield) × (new_bitfield (pos n) ≡ ok b)
      × IsBitfield b
      × (b.piece_count ≡ n)
      × ((i : ℕ) → bit_at b.bits i ≡ false)
unfolding new_bitfield
new_bitfield-IsBitfield n h = (
  record { bits = replicate (bitfield_byte_count n) 0; piece_count = n },
  rw (validate_piece_count-pos n h),
  record {
    in_range = h;
    size = length-replicate (bitfield_byte_count n) 0;
    bytes = IsBytes-replicate (bitfield_byte_count n);
    spare = λ i _. clear i;
  },
  refl,
  clear,
)
  where
    clear : (i : ℕ) → bit_at (replicate (bitfield_byte_count n) 0) i ≡ false
    clear i =
        ap (λ x. byte_bit x (i % 8)) (get_or-replicate (bitfield_byte_count n) (i / 8))
        ∙ byte_bit_zero (i % 8) (omega arith)

-- A piece that is in range has its byte.
pub byte-lt-length :
    (b : Bitfield) (i : ℕ) → IsBitfield b → i < b.piece_count → i / 8 < length b.bits
byte-lt-length b i v h = omega (arith, v.size, bitfield_byte_count_bounds b.piece_count)
