-- ===== src/Wire/Bitfield/Byte.antt =====
-- Single bits of a byte, high bit first: facts about `&`, `|` and masks for every byte.
use bittorrent_client.Base.{
  ==_iff, Bool, ap, ap₂, arith, bit_and, bit_or, every, every-at, every_intro, false, if◌then◌else◌,
  ltb, not, refl, suc, sym, true, zero, ℕ, ◌&&◌, ◌+◌, ◌-◌, ◌<◌, ◌==◌, ◌^◌, ◌||◌, ◌↔◌, ◌∙◌, ◌≡◌, ◌≤◌,
}

-- Bit `r` of a byte, counted from the high end.
abbrev pub byte_bit : ℕ → ℕ → Bool
byte_bit b r = bit_and b (2 ^ (7 - r)) == 2 ^ (7 - r)

abbrev same : Bool → Bool → Bool
same true b = b
same false b = not b

same→eq : (a b : Bool) → same a b ≡ true → a ≡ b
same→eq a b h = ground arith

abbrev set_test : ℕ → ℕ → ℕ → Bool
set_test b i j = same (byte_bit (bit_or b (2 ^ (7 - i))) j) (i == j || byte_bit b j)

set_table : every 256 (λ b. every 8 (λ i. every 8 (set_test b i))) ≡ true
unfolding every
set_table = refl

-- `|` with a mask sets its bit and leaves the others.
pub byte_bit-bit_or :
    (b i j : ℕ)
    → b < 256
    → i < 8
    → j < 8
    → byte_bit (bit_or b (2 ^ (7 - i))) j ≡ (i == j || byte_bit b j)
byte_bit-bit_or b i j hb hi hj = same→eq _ _ (
    every-at 8 (set_test b i) j
      (every-at 8 (λ i. every 8 (set_test b i)) i
        (every-at 256 (λ b. every 8 (λ i. every 8 (set_test b i))) b set_table hb) hi)
      hj)

abbrev mask_test : ℕ → ℕ → Bool
mask_test b i =
    ltb (bit_or b (2 ^ (7 - i))) 256
    && bit_or (bit_or b (2 ^ (7 - i))) (2 ^ (7 - i)) == bit_or b (2 ^ (7 - i))

mask_table : every 256 (λ b. every 8 (mask_test b)) ≡ true
unfolding every
mask_table = refl

mask_test-true : (b i : ℕ) → b < 256 → i < 8 → mask_test b i ≡ true
mask_test-true b i hb hi =
    every-at 8 (mask_test b) i (every-at 256 (λ b. every 8 (mask_test b)) b mask_table hb) hi

pub bit_or-lt : (b i : ℕ) → b < 256 → i < 8 → bit_or b (2 ^ (7 - i)) < 256
bit_or-lt b i hb hi = ground (arith, mask_test-true b i hb hi)

pub bit_or_twice :
    (b i : ℕ)
    → b < 256
    → i < 8
    → bit_or (bit_or b (2 ^ (7 - i))) (2 ^ (7 - i)) ≡ bit_or b (2 ^ (7 - i))
bit_or_twice b i hb hi = ground (arith, mask_test-true b i hb hi)

-- The low `8 - u` bits of a byte are clear.
abbrev clear_from : ℕ → ℕ → Bool
clear_from u b = every 8 (λ r. ltb r u || not (byte_bit b r))

abbrev spare_test : ℕ → ℕ → Bool
spare_test b u = same (bit_and b (2 ^ (8 - u) - 1) == 0) (clear_from u b)

spare_table : every 256 (λ b. every 8 (spare_test b)) ≡ true
unfolding every
spare_table = refl

spare-clear_from : (b u : ℕ) → b < 256 → u < 8 → (bit_and b (2 ^ (8 - u) - 1) == 0) ≡ clear_from u b
spare-clear_from b u hb hu =
    same→eq _ _
      (every-at 8 (spare_test b) u (every-at 256 (λ b. every 8 (spare_test b)) b spare_table hb) hu)

clear_from-all : (u b : ℕ) → clear_from u b ≡ true → (r : ℕ) → r < 8 → u ≤ r → byte_bit b r ≡ false
clear_from-all u b h r hr hu =
    ground (arith, every-at 8 (λ r. ltb r u || not (byte_bit b r)) r h hr)

-- The spare bits are clear exactly when the masked byte is zero.
pub spare_iff :
    (b u : ℕ)
    → b < 256
    → u < 8
    → ((bit_and b (2 ^ (8 - u) - 1) == 0) ≡ true) ↔ ((r : ℕ) → r < 8 → u ≤ r → byte_bit b r ≡ false)
spare_iff b u hb hu = (
  λ h. clear_from-all u b (sym (spare-clear_from b u hb hu) ∙ h),
  λ h. spare-clear_from b u hb hu ∙ every_intro 8 _ (λ r hr. ground (arith, h r hr)),
)

-- The number with these bits, the first one highest.
abbrev weigh : (ℕ → Bool) → ℕ → ℕ
weigh f zero = 0
weigh f (suc r) = (if f r then 2 ^ (7 - r) else 0) + weigh f r

weigh_ext : (f g : ℕ → Bool) (n : ℕ) → ((r : ℕ) → r < n → f r ≡ g r) → weigh f n ≡ weigh g n
weigh_ext f g zero h = refl
weigh_ext f g (suc n) h =
    ap₂ ◌+◌ (ap (λ c. if c then 2 ^ (7 - n) else 0) (h n (omega arith)))
      (weigh_ext f g n (λ r p. h r (omega arith)))

weigh_table : every 256 (λ b. weigh (byte_bit b) 8 == b) ≡ true
unfolding every
weigh_table = refl

weigh-byte_bit : (b : ℕ) → b < 256 → weigh (byte_bit b) 8 ≡ b
weigh-byte_bit b h = (==_iff _ b).0 (every-at 256 (λ b. weigh (byte_bit b) 8 == b) b weigh_table h)

-- A byte is its bits.
pub byte_bit_ext :
    (a b : ℕ) → a < 256 → b < 256 → ((r : ℕ) → r < 8 → byte_bit a r ≡ byte_bit b r) → a ≡ b
byte_bit_ext a b ha hb h =
    sym (weigh-byte_bit a ha) ∙ weigh_ext (byte_bit a) (byte_bit b) 8 h ∙ weigh-byte_bit b hb
