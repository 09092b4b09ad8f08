-- ===== src/Wire/Frame/Layout.antt =====
-- The frames of the protocol, described without the reader: which payload lengths each message ID
-- has, and which bytes a frame is.
use bittorrent_client.Base.{List, [], arith, length, ℕ, ◌*◌, ◌+◌, ◌<◌, ◌∷◌, ◌≡◌, ◌≤◌}
use bittorrent_client.Wire.Message.{
  max_block_size, max_msg_len, message_have, message_bitfield, message_request, message_piece,
  message_cancel, Message, Frame, keep_alive, message, unsupported, encode,
}

-- The payload length fits the ID, in a torrent of `n` pieces: a bitfield has a bit for each piece,
-- rounded up to bytes.
pub data Fits (n : ℕ) (id len : ℕ) : Type 0 where
  bare : id < message_have → len ≡ 0 → Fits n id len
  have : id ≡ message_have → len ≡ 4 → Fits n id len
  bitfield : id ≡ message_bitfield → n ≤ 8 * len → 8 * len < n + 8 → Fits n id len
  request : id ≡ message_request → len ≡ 12 → Fits n id len
  piece : id ≡ message_piece → 8 ≤ len → len ≤ 8 + max_block_size → Fits n id len
  cancel : id ≡ message_cancel → len ≡ 12 → Fits n id len

-- The message can be framed, and a peer in a torrent of `n` pieces accepts it.
abbrev pub IsFrameable : ℕ → Message → Type 0
IsFrameable n m = Fits n m.id (length m.payload) × (length m.payload < max_msg_len)

-- An ID above the core messages.
abbrev pub IsForeign : Message → Type 0
IsForeign m = (message_cancel < m.id) × (length m.payload < max_msg_len)

-- The bytes `bs` are the frame `f`.
abbrev pub Encodes : ℕ → Frame → List ℕ → Type 0
Encodes n keep_alive bs = bs ≡ 0 ∷ 0 ∷ 0 ∷ 0 ∷ []
Encodes n (message m) bs = (bs ≡ encode m) × IsFrameable n m
Encodes n unsupported bs = (m : Message) × (bs ≡ encode m) × IsForeign m

pub Fits-bitfield :
    (n id len : ℕ) → Fits n id len → id ≡ message_bitfield → (n ≤ 8 * len) × (8 * len < n + 8)
Fits-bitfield n id len (Fits.bitfield h lo hi) e = (lo, hi)
Fits-bitfield n id len (Fits.bare h z) e = omega arith
Fits-bitfield n id len (Fits.have h z) e = omega arith
Fits-bitfield n id len (Fits.request h z) e = omega arith
Fits-bitfield n id len (Fits.piece h lo hi) e = omega arith
Fits-bitfield n id len (Fits.cancel h z) e = omega arith

pub Fits-have : (n id len : ℕ) → Fits n id len → id ≡ message_have → len ≡ 4
Fits-have n id len (Fits.have h z) e = z
Fits-have n id len (Fits.bitfield h lo hi) e = omega arith
Fits-have n id len (Fits.bare h z) e = omega arith
Fits-have n id len (Fits.request h z) e = omega arith
Fits-have n id len (Fits.piece h lo hi) e = omega arith
Fits-have n id len (Fits.cancel h z) e = omega arith
