-- ===== src/Wire/Payload/RoundTrip.antt =====
-- Have and Request payloads: what the constructor builds its parser takes apart, and what the parser
-- accepts is what the constructor builds.
use bittorrent_client.Base.{
  All-append_left, All-append_right, List, [], ap, ap₂, arith, drop, drop-drop, length, length-drop,
  length-take, ok, refl, subst, sym, take, take-append-drop, take_all, ℕ, ◌++◌, ◌+◌, ◌<◌, ◌^◌, ◌↔◌,
  ◌∙◌, ◌∷◌, ◌≡◌, ◌≤◌,
}
use bittorrent_client.Wire.Endian.{
  IsBytes, put_uint32, uint32, uint32-put_uint32, put_uint32-uint32_of_length, uint32-lt,
}
use bittorrent_client.Wire.Message.{Message, max_block_size, message_have, message_request}
use bittorrent_client.Wire.Payload.{Block, new_have, parse_have, new_request, parse_request}

-- Four bytes out of a payload.
IsBytes-word :
    (k : ℕ) (xs : List ℕ)
    → IsBytes xs
    → k + 4 ≤ length xs
    → (put_uint32 (uint32 (take 4 (drop k xs))) ≡ take 4 (drop k xs))
IsBytes-word k xs h e =
    put_uint32-uint32_of_length (take 4 (drop k xs))
      (omega (arith, length-take 4 (drop k xs), length-drop k xs))
      (All-append_left (λ b. b < 256) (take 4 (drop k xs)) (drop 4 (drop k xs))
        (subst IsBytes (sym (take-append-drop 4 (drop k xs))) (
          All-append_right (λ b. b < 256) (take k xs) (drop k xs)
            (subst IsBytes (sym (take-append-drop k xs)) h))))

uint32-lt_of_length : (xs : List ℕ) → length xs ≡ 4 → IsBytes xs → uint32 xs < 2 ^ 32
uint32-lt_of_length [] e h = absurd (omega arith)
uint32-lt_of_length (a ∷ []) e h = absurd (omega arith)
uint32-lt_of_length (a ∷ b ∷ []) e h = absurd (omega arith)
uint32-lt_of_length (a ∷ b ∷ c ∷ []) e h = absurd (omega arith)
uint32-lt_of_length (a ∷ b ∷ c ∷ d ∷ []) e h = uint32-lt a b c d h
uint32-lt_of_length (a ∷ b ∷ c ∷ d ∷ x ∷ xs) e h = absurd (omega arith)

-- A payload is its first two words and the rest.
pub two_words :
    (xs : List ℕ)
    → IsBytes xs
    → 8 ≤ length xs
    → put_uint32 (uint32 (take 4 xs)) ++ (put_uint32 (uint32 (take 4 (drop 4 xs))) ++ drop 8 xs)
      ≡ xs
two_words xs h e =
    ap₂ ◌++◌ (IsBytes-word 0 xs h (omega arith)) (
      ap (λ l. l ++ drop 8 xs) (IsBytes-word 4 xs h (omega arith))
      ∙ ap (◌++◌ (take 4 (drop 4 xs))) (sym (drop-drop 4 4 8 xs refl))
      ∙ take-append-drop 4 (drop 4 xs))
    ∙ take-append-drop 4 xs

pub Message_eq : {m n : Message} → m.id ≡ n.id → m.payload ≡ n.payload → m ≡ n
Message_eq p q = λ k. record { id = p k; payload = q k }

parse_have-ok :
    (m : Message) (i : ℕ)
    → parse_have m ≡ ok i
    → (m.id ≡ message_have) × (length m.payload ≡ 4) × (uint32 m.payload ≡ i)
unfolding parse_have
parse_have-ok m i e = ground arith

-- ParseHave gives an index exactly for the message that NewHave makes of it.
pub parse_have_iff :
    (m : Message) (i : ℕ)
    → IsBytes m.payload
    → i < 2 ^ 32
    → (parse_have m ≡ ok i) ↔ (m ≡ new_have i)
unfolding parse_have new_have
parse_have_iff m i h k = (
  λ e.
      let (same, size, value) = parse_have-ok m i e in
      Message_eq same (sym (put_uint32-uint32_of_length m.payload size h) ∙ ap put_uint32 value),
  λ e. rw e (unfold put_uint32 in ap ok (uint32-put_uint32 i k)),
)

-- What ParseRequest found, if it found a request.
record IsRequest (m : Message) (b : Block) : Type 0 where
  id : m.id ≡ message_request
  size : length m.payload ≡ 12
  index : uint32 (take 4 m.payload) ≡ b.index
  begin : uint32 (take 4 (drop 4 m.payload)) ≡ b.begin
  len : uint32 (take 4 (drop 8 m.payload)) ≡ b.len
  positive : 0 < b.len
  small : b.len ≤ max_block_size

parse_request-IsRequest : (m : Message) (b : Block) → parse_request m ≡ ok b → IsRequest m b
unfolding parse_request
parse_request-IsRequest m b e = ground arith

abbrev request_payload : Block → List ℕ
request_payload b = put_uint32 b.index ++ (put_uint32 b.begin ++ put_uint32 b.len)

new_request_lem :
    (b : Block)
    → 0 < b.len
    → b.len ≤ max_block_size
    → new_request b ≡ ok (record { id = message_request; payload = request_payload b })
unfolding new_request
new_request_lem b h k = ground arith

new_request-ok :
    (b : Block) (m : Message)
    → new_request b ≡ ok m
    → (0 < b.len)
      × (b.len ≤ max_block_size)
      × (m ≡ record { id = message_request; payload = request_payload b })
unfolding new_request
new_request-ok b m e = ground arith

request_payload-IsRequest :
    (m : Message) (b : Block) → IsBytes m.payload → IsRequest m b → request_payload b ≡ m.payload
request_payload-IsRequest m b h r =
    ap₂ ◌++◌ (ap put_uint32 (sym r.index)) (
      ap₂ ◌++◌ (ap put_uint32 (sym r.begin)) (
        ap put_uint32 (sym r.len)
        ∙ IsBytes-word 8 m.payload h (omega arith)
        ∙ take_all 4 (drop 8 m.payload) (omega (arith, length-drop 8 m.payload))))
    ∙ two_words m.payload h (omega arith)

parse_request-request_payload :
    (b : Block)
    → b.index < 2 ^ 32
    → b.begin < 2 ^ 32
    → 0 < b.len
    → b.len ≤ max_block_size
    → parse_request (record { id = message_request; payload = request_payload b }) ≡ ok b
unfolding parse_request put_uint32
parse_request-request_payload b hi hb h k =
    ground
      (arith, uint32-put_uint32 b.index hi, uint32-put_uint32 b.begin hb, uint32-put_uint32 b.len)

-- ParseRequest gives a block request exactly for the message that NewRequest makes of it; so both
-- refuse a length of zero and one above 16 KiB.
pub parse_request_iff :
    (m : Message) (b : Block)
    → IsBytes m.payload
    → b.index < 2 ^ 32
    → b.begin < 2 ^ 32
    → (parse_request m ≡ ok b) ↔ (new_request b ≡ ok m)
parse_request_iff m b h i k = (
  λ e.
      let r = parse_request-IsRequest m b e in
      new_request_lem b r.positive r.small
      ∙ ap ok (Message_eq (sym r.id) (request_payload-IsRequest m b h r)),
  λ e.
      let (positive, small, same) = new_request-ok b m e in
      ap parse_request same ∙ parse_request-request_payload b i k positive small,
)
