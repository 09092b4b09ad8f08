-- ===== src/Peer/Session/Pieces.antt =====
-- `Read` of a Piece message that is next on the connection.
use bittorrent_client.Base.{List, arith, done, false, length, refl, ℕ, ◌++◌, ◌^◌, ◌≡◌, ◌≤◌}
use bittorrent_client.Wire.Io.{IoError}
use bittorrent_client.Wire.Message.{
  encode, frame_message, is_keep_alive, is_unsupported, max_block_size, Message,
}
use bittorrent_client.Wire.Frame.Layout.{Fits, IsFrameable}
use bittorrent_client.Wire.Frame.Accept.{read_frame-encode_frameable}
use bittorrent_client.Wire.Payload.{Piece}
use bittorrent_client.Wire.Payload.Blocks.{piece_message}
use bittorrent_client.Wire.Endian.{put_uint32}
use bittorrent_client.Peer.Session.{Session, apply_message, read, read_loop, receive, receive_frame}

piece_message-IsFrameable :
    (n : ℕ) (p : Piece) → length p.block ≤ max_block_size → IsFrameable n (piece_message p)
unfolding put_uint32
piece_message-IsFrameable n p h = (Fits.piece refl (omega arith) (omega arith), omega arith)

-- A message that fits is received.
pub read-encode :
    (s : Session) (m : Message) (tail : List ℕ) (e : IoError)
    → s.piece_count ≤ 2 ^ 32
    → IsFrameable s.piece_count m
    → read (record { session = s; input = record { bytes = encode m ++ tail; ending = e } })
      ≡ receive m (record { session = s; input = record { bytes = tail; ending = e } })
unfolding read read_loop receive_frame frame_message is_keep_alive is_unsupported
read-encode s m tail e n h = rw (read_frame-encode_frameable s.piece_count m tail e n h) refl

-- The message is returned, and the session is the same but for the window of a Bitfield.
pub read-piece_message :
    (s : Session) (p : Piece) (tail : List ℕ) (e : IoError)
    → s.piece_count ≤ 2 ^ 32
    → length p.block ≤ max_block_size
    → read (record {
      session = s;
      input = record { bytes = encode (piece_message p) ++ tail; ending = e };
    })
      ≡ done (piece_message p) (record {
        session = record s { bitfield_allowed = false };
        input = record { bytes = tail; ending = e };
      })
unfolding receive apply_message
read-piece_message s p tail e n h =
    read-encode s (piece_message p) tail e n (piece_message-IsFrameable s.piece_count p h)
