-- ===== src/Wire/Bitfield/Parse.antt =====
-- `ParseBitfield`: which payloads are well-formed Bitfields.
use bittorrent_client.Base.{
  Bool-cases, List, Result, [], ap, arith, dec_lt, err, false, get_or, inl, inr, length, ok, pos,
  refl, subst₂, suc, true, zero, ℕ, ℕ_discrete, ◌%◌, ◌*◌, ◌+◌, ◌-◌, ◌/◌, ◌<◌, ◌==◌, ◌^◌, ◌∙◌, ◌∷◌,
  ◌≡◌, ◌≢◌, ◌≤◌, ◌⊎◌,
}
use bittorrent_client.Wire.Endian.{IsBytes}
use bittorrent_client.Wire.Bitfield.{
  bitfield_byte_count, spare_of, Bitfield, parse_bitfield, check_payload,
}
use bittorrent_client.Wire.Error.{WireError, bitfield_length, is_malformed, spare_bits}
use bittorrent_client.Wire.Bitfield.Byte.{byte_bit, spare_iff}
use bittorrent_client.Wire.Bitfield.Count.{bitfield_byte_count_bounds, validate_piece_count-pos}
use bittorrent_client.Wire.Bitfield.Invariant.{bit_at, IsBytes-get_or, byte_bit_zero, IsBitfield}

get_or_beyond : (xs : List ℕ) (i : ℕ) → length xs ≤ i → get_or xs i 0 ≡ 0
get_or_beyond [] i h = refl
get_or_beyond (x ∷ xs) zero h = absurd (omega arith)
get_or_beyond (x ∷ xs) (suc i) h = get_or_beyond xs i (omega arith)

-- The spare bits of the payload, as bits of wire order.
abbrev SpareClear : List ℕ → ℕ → Type 0
SpareClear payload n = (i : ℕ) → n ≤ i → bit_at payload i ≡ false

module _ (payload : List ℕ) (n : ℕ) (all : IsBytes payload)
    (size : length payload ≡ bitfield_byte_count n) where
  last-lt : get_or payload (length payload - 1) 0 < 256
  last-lt = IsBytes-get_or payload (length payload - 1) all

  -- Beyond the last byte there are no bits.
  beyond : (i : ℕ) → length payload ≤ i / 8 → bit_at payload i ≡ false
  beyond i h =
      ap (λ x. byte_bit x (i % 8)) (get_or_beyond payload (i / 8) h)
      ∙ byte_bit_zero (i % 8) (omega arith)

  -- Where the pieces fill their bytes there is no spare bit.
  SpareClear-full : n % 8 ≡ 0 → SpareClear payload n
  SpareClear-full e i h = beyond i (omega (arith, bitfield_byte_count_bounds n))

  SpareClear-of_mask : n % 8 ≢ 0 → (spare_of payload n == 0) ≡ true → SpareClear payload n
  unfolding spare_of
  SpareClear-of_mask ne z i h = elim (dec_lt (i / 8) (length payload)) [
    | yes inside ↦
        let q : i / 8 ≡ length payload - 1 = omega (arith, bitfield_byte_count_bounds n) in
        rw q (
          (spare_iff (get_or payload (length payload - 1) 0) (n % 8) last-lt (omega arith)).0 z
            (i % 8) (omega arith) (omega (arith, bitfield_byte_count_bounds n)))
    | no outside ↦ beyond i (omega arith)
  ]

  mask_of_SpareClear : n % 8 ≢ 0 → SpareClear payload n → (spare_of payload n == 0) ≡ true
  unfolding spare_of
  mask_of_SpareClear ne clear =
      (spare_iff (get_or payload (length payload - 1) 0) (n % 8) last-lt (omega arith)).1 λ r hr hu.
        let q : (8 * (length payload - 1) + r) / 8 ≡ length payload - 1 = omega arith in
        let m : (8 * (length payload - 1) + r) % 8 ≡ r = omega arith in
        subst₂ (λ x y. byte_bit (get_or payload x 0) y ≡ false) q m
          (clear (8 * (length payload - 1) + r) (omega (arith, bitfield_byte_count_bounds n)))

abbrev pub as_bitfield : List ℕ → ℕ → Bitfield
as_bitfield payload n = record { bits = payload; piece_count = n }

-- What the parser decides.
abbrev pub Decides : List ℕ → ℕ → Result WireError Bitfield → Type 0
Decides payload n r =
    (IsBitfield (as_bitfield payload n) × (r ≡ ok (as_bitfield payload n)))
    ⊎ ((¬ IsBitfield (as_bitfield payload n))
        × (e : WireError) × (r ≡ err e)
        × (is_malformed e ≡ true))

check_payload_full :
    (payload : List ℕ) (n : ℕ)
    → length payload ≡ bitfield_byte_count n
    → (n % 8 ≡ 0) ⊎ ((spare_of payload n == 0) ≡ true)
    → check_payload payload (ok n) ≡ ok (as_bitfield payload n)
unfolding check_payload
check_payload_full payload n e (inl z) = ground arith
check_payload_full payload n e (inr z) = ground arith

check_payload_spare :
    (payload : List ℕ) (n : ℕ)
    → length payload ≡ bitfield_byte_count n
    → n % 8 ≢ 0
    → (spare_of payload n == 0) ≡ false
    → check_payload payload (ok n) ≡ err spare_bits
unfolding check_payload
check_payload_spare payload n e ne z = ground arith

check_payload_size :
    (payload : List ℕ) (n : ℕ)
    → length payload ≢ bitfield_byte_count n
    → check_payload payload (ok n) ≡ err (bitfield_length (length payload) (bitfield_byte_count n))
unfolding check_payload
check_payload_size payload n ne = ground arith

check_payload-Decides :
    (payload : List ℕ) (n : ℕ)
    → IsBytes payload
    → n ≤ 2 ^ 32
    → Decides payload n (check_payload payload (ok n))
check_payload-Decides payload n all range =
    elim (ℕ_discrete (length payload) (bitfield_byte_count n)) [
      | no ne ↦ inr (λ v. ne v.size, _, check_payload_size payload n ne, refl)
      | yes size ↦ elim (ℕ_discrete (n % 8) 0) [
        | yes full ↦ inl (
          well_formed size (SpareClear-full payload n all size full),
          check_payload_full payload n size (inl full),
        )
        | no part ↦ elim (Bool-cases (spare_of payload n == 0)) [
          | inl z ↦ inl (
            well_formed size (SpareClear-of_mask payload n all size part z),
            check_payload_full payload n size (inr z),
          )
          | inr nz ↦ inr (
            λ v. let z = mask_of_SpareClear payload n all size part v.spare in cc,
            spare_bits,
            check_payload_spare payload n size part nz,
            refl,
          )
        ]
      ]
    ]
  where
    well_formed :
        length payload ≡ bitfield_byte_count n
        → SpareClear payload n
        → IsBitfield (as_bitfield payload n)
    well_formed size clear = record { in_range = range; size = size; bytes = all; spare = clear }

-- The parser accepts a payload exactly when it is a well-formed Bitfield for the piece count, with
-- one bit for each piece, rounded up to bytes, and the bits beyond the pieces clear. It then returns
-- that Bitfield, and any other payload is reported as malformed.
pub parse_bitfield-Decides :
    (payload : List ℕ) (n : ℕ)
    → IsBytes payload
    → n ≤ 2 ^ 32
    → Decides payload n (parse_bitfield payload (pos n))
unfolding parse_bitfield
parse_bitfield-Decides payload n all range =
    rw (validate_piece_count-pos n range) (check_payload-Decides payload n all range)
