-- ===== src/Wire/Message.antt =====
-- internal/peerwire/message.go: messages, frames and their encoding. A message ID is any byte.
use bittorrent_client.Base.{
  Bool, List, Option, [], false, if◌then◌else◌, leb, length, none, replicate, some, true, ℕ, ◌++◌,
  ◌+◌, ◌^◌, ◌∷◌,
}
use bittorrent_client.Wire.Endian.{put_uint32}
use bittorrent_client.Wire.Writer.{Writer, Written, write_full}

-- MaxBlockSize: 16 KiB
abbrev pub max_block_size : ℕ
max_block_size = 16384

-- maxMsgLen: 1 MiB
abbrev pub max_msg_len : ℕ
max_msg_len = 2 ^ 20

abbrev pub message_choke : ℕ
message_choke = 0

abbrev pub message_unchoke : ℕ
message_unchoke = 1

abbrev pub message_interested : ℕ
message_interested = 2

abbrev pub message_not_interested : ℕ
message_not_interested = 3

abbrev pub message_have : ℕ
message_have = 4

abbrev pub message_bitfield : ℕ
message_bitfield = 5

abbrev pub message_request : ℕ
message_request = 6

abbrev pub message_piece : ℕ
message_piece = 7

abbrev pub message_cancel : ℕ
message_cancel = 8

pub record Message : Type 0 where
  pub id : ℕ
  pub payload : List ℕ

-- A Frame's kind and its message, which only a message frame has.
pub data Frame : Type 0 where
  keep_alive : Frame
  message : Message → Frame
  unsupported : Frame

unfoldable pub frame_message : Frame → Option Message
frame_message (message m) = some m
frame_message keep_alive = none
frame_message unsupported = none

unfoldable pub is_keep_alive : Frame → Bool
is_keep_alive keep_alive = true
is_keep_alive (message m) = false
is_keep_alive unsupported = false

unfoldable pub is_unsupported : Frame → Bool
is_unsupported unsupported = true
is_unsupported keep_alive = false
is_unsupported (message m) = false

-- The buffer of `WriteTo`: length prefix, ID, payload.
unfoldable pub encode : Message → List ℕ
encode m = put_uint32 (1 + length m.payload) ++ (m.id ∷ m.payload)

module _ (w : Writer) where
  open w use {State}

  -- A message that is too long is refused before any byte is written.
  pub data Sent : Type 0 where
    refused : State → Sent
    sending : Written State → Sent

  unfoldable pub write_to : Message → State → Sent
  unfolding encode
  write_to m s =
      if leb max_msg_len (length m.payload) then refused s else sending (write_full w (encode m) s)

  unfoldable pub write_keep_alive : State → Written State
  write_keep_alive s = write_full w (replicate 4 0) s

  -- WriteChoke, WriteUnchoke, WriteInterested and WriteNotInterested
  abbrev bare : ℕ → Message
  bare id = record { id = id; payload = [] }

  unfoldable pub write_choke : State → Sent
  write_choke s = write_to (bare message_choke) s

  unfoldable pub write_unchoke : State → Sent
  write_unchoke s = write_to (bare message_unchoke) s

  unfoldable pub write_interested : State → Sent
  write_interested s = write_to (bare message_interested) s

  unfoldable pub write_not_interested : State → Sent
  write_not_interested s = write_to (bare message_not_interested) s
