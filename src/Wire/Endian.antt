-- ===== src/Wire/Endian.antt =====
-- Go's binary.BigEndian on four and two bytes.
use bittorrent_client.Base.{
  All, List, [], arith, get_or, length, refl, ℕ, ◌%◌, ◌*◌, ◌+◌, ◌/◌, ◌<◌, ◌^◌, ◌∷◌, ◌≡◌,
}

-- A byte string of Go: every element fits a byte.
abbrev pub IsBytes : List ℕ → Type 0
IsBytes = All (λ b. b < 256)

-- binary.BigEndian.PutUint32
unfoldable pub put_uint32 : ℕ → List ℕ
put_uint32 n = (n / 2 ^ 24 % 256) ∷ (n / 2 ^ 16 % 256) ∷ (n / 2 ^ 8 % 256) ∷ (n % 256) ∷ []

-- binary.BigEndian.Uint32, on the first four bytes
unfoldable pub uint32 : List ℕ → ℕ
uint32 b = get_or b 0 0 * 2 ^ 24 + get_or b 1 0 * 2 ^ 16 + get_or b 2 0 * 2 ^ 8 + get_or b 3 0

-- binary.BigEndian.Uint16, on the first two bytes
unfoldable pub uint16 : List ℕ → ℕ
uint16 b = get_or b 0 0 * 2 ^ 8 + get_or b 1 0

pub length-put_uint32 : (n : ℕ) → length (put_uint32 n) ≡ 4
unfolding put_uint32
length-put_uint32 n = refl

pub put_uint32-IsBytes : (n : ℕ) → IsBytes (put_uint32 n)
unfolding put_uint32
put_uint32-IsBytes n = omega arith

pub uint32-put_uint32 : (n : ℕ) → n < 2 ^ 32 → uint32 (put_uint32 n) ≡ n
unfolding put_uint32 uint32
uint32-put_uint32 n h = omega arith

pub put_uint32-uint32 :
    (a b c d : ℕ)
    → IsBytes (a ∷ b ∷ c ∷ d ∷ [])
    → put_uint32 (uint32 (a ∷ b ∷ c ∷ d ∷ [])) ≡ a ∷ b ∷ c ∷ d ∷ []
unfolding put_uint32 uint32
put_uint32-uint32 a b c d h = ground arith

pub uint32-lt : (a b c d : ℕ) → IsBytes (a ∷ b ∷ c ∷ d ∷ []) → uint32 (a ∷ b ∷ c ∷ d ∷ []) < 2 ^ 32
unfolding uint32
uint32-lt a b c d h = omega arith

pub uint32_of_length-lt : (xs : List ℕ) → length xs ≡ 4 → IsBytes xs → uint32 xs < 2 ^ 32
uint32_of_length-lt [] e h = absurd (omega arith)
uint32_of_length-lt (a ∷ []) e h = absurd (omega arith)
uint32_of_length-lt (a ∷ b ∷ []) e h = absurd (omega arith)
uint32_of_length-lt (a ∷ b ∷ c ∷ []) e h = absurd (omega arith)
uint32_of_length-lt (a ∷ b ∷ c ∷ d ∷ []) e h = uint32-lt a b c d h
uint32_of_length-lt (a ∷ b ∷ c ∷ d ∷ x ∷ xs) e h = absurd (omega arith)

pub put_uint32-uint32_of_length :
    (xs : List ℕ) → length xs ≡ 4 → IsBytes xs → put_uint32 (uint32 xs) ≡ xs
put_uint32-uint32_of_length [] e h = absurd (omega arith)
put_uint32-uint32_of_length (a ∷ []) e h = absurd (omega arith)
put_uint32-uint32_of_length (a ∷ b ∷ []) e h = absurd (omega arith)
put_uint32-uint32_of_length (a ∷ b ∷ c ∷ []) e h = absurd (omega arith)
put_uint32-uint32_of_length (a ∷ b ∷ c ∷ d ∷ []) e h = put_uint32-uint32 a b c d h
put_uint32-uint32_of_length (a ∷ b ∷ c ∷ d ∷ x ∷ xs) e h = absurd (omega arith)
