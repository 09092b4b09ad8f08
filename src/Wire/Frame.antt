-- ===== src/Wire/Frame.antt =====
-- `ReadFrame` of internal/peerwire/message.go.
pub mod Layout
pub mod Accept
pub mod Sound
pub mod Reject
pub mod Long
use bittorrent_client.Base.{
  Bool, Flow, Result, done, err, fail, false, get_or, if◌then◌else◌, leb, ltb, ok, true, wrap, ℕ, ℤ,
  ◌&&◌, ◌+◌, ◌-◌, ◌==◌, ◌>>=◌, ◌||◌,
}
use bittorrent_client.Wire.Io.{Stream, IoError, read_full, discard}
use bittorrent_client.Wire.Endian.{uint32}
use bittorrent_client.Wire.Error.{
  WireError, read_length, read_id, read_body, drain, frame_too_long, frame_length,
}
use bittorrent_client.Wire.Bitfield.{bitfield_byte_count, validate_piece_count}
use bittorrent_client.Wire.Message.{
  max_block_size, max_msg_len, message_choke, message_unchoke, message_interested,
  message_not_interested, message_have, message_bitfield, message_request, message_piece,
  message_cancel, Message, Frame, keep_alive, message, unsupported,
}

-- What the switch on the message ID decides before the payload is read.
pub data Verdict : Type 0 where
  accept skip : Verdict
  reject : WireError → Verdict

pub expect_length : Bool → ℕ → ℕ → Verdict
expect_length true id len = accept
expect_length false id len = reject (frame_length id len)

-- The length that the frame declares, `len`, counts the ID.
pub check_length : ℕ → ℕ → ℕ → Verdict
unfolding expect_length
check_length id len pieces =
    if id == message_choke
      || id == message_unchoke
      || id == message_interested
      || id == message_not_interested
    then expect_length (len == 1) id len
    else if id == message_have
    then expect_length (len == 5) id len
    else if id == message_bitfield
    then expect_length (len == bitfield_byte_count pieces + 1) id len
    else if id == message_request
    then expect_length (len == 13) id len
    else if id == message_piece
    then expect_length (leb 9 len && leb len (9 + max_block_size)) id len
    else if id == message_cancel
    then expect_length (len == 13) id len
    else skip

abbrev Reader : Type 0 → Type 0
Reader A = Stream → Flow WireError Stream A

abbrev reading : {A : Type 0} → (IoError → WireError) → (Stream → Flow IoError Stream A) → Reader A
reading e m s = wrap e (m s)

pub read_payload : ℕ → ℕ → Verdict → Reader Frame
read_payload id len (reject e) = fail e
read_payload id len skip = do _ ← reading drain (discard (len - 1)); done unsupported
read_payload id len accept = do
  payload ← reading read_body (read_full (len - 1))
  done (message (record { id = id; payload = payload }))

pub read_message : ℕ → ℕ → Reader Frame
unfolding check_length read_payload
read_message pieces len = do
  id ← reading read_id (read_full 1)
  read_payload (get_or id 0 0) len (check_length (get_or id 0 0) len pieces)

pub read_declared : ℕ → ℕ → Reader Frame
unfolding read_message
read_declared pieces len =
    if len == 0
    then done keep_alive
    else if ltb max_msg_len len
    then fail (frame_too_long len)
    else read_message pieces len

pub read_valid : Result WireError ℕ → Reader Frame
unfolding read_declared
read_valid (err e) = fail e
read_valid (ok pieces) = do
  prefix ← reading read_length (read_full 4)
  read_declared pieces (uint32 prefix)

unfoldable pub read_frame : ℤ → Reader Frame
unfolding read_valid
read_frame pieces = read_valid (validate_piece_count pieces)
