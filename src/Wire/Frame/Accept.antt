-- ===== src/Wire/Frame/Accept.antt =====
-- The reader takes back what the encoder wrote.
use bittorrent_client.Base.{
  List, [], append_assoc, arith, done, length, pos, refl, ℕ, ◌++◌, ◌+◌, ◌-◌, ◌<◌, ◌^◌, ◌∙◌, ◌∷◌,
  ◌≡◌, ◌≤◌,
}
use bittorrent_client.Wire.Io.{Stream, IoError, read_full-append, discard-append}
use bittorrent_client.Wire.Endian.{put_uint32, length-put_uint32, uint32-put_uint32}
use bittorrent_client.Wire.Bitfield.Count.{validate_piece_count-pos, bitfield_byte_count_unique}
use bittorrent_client.Wire.Message.{
  max_msg_len, message_cancel, Message, Frame, keep_alive, message, unsupported, encode,
}
use bittorrent_client.Wire.Frame.{
  accept, skip, check_length, read_payload, read_message, read_declared, read_valid, read_frame,
}
use bittorrent_client.Wire.Frame.Layout.{Fits, IsFrameable, IsForeign, Encodes}

-- The reader's switch accepts the lengths that fit.
pub check_length-Fits : (n id len : ℕ) → Fits n id len → check_length id (1 + len) n ≡ accept
unfolding check_length
check_length-Fits n id len (Fits.bare h e) = ground arith
check_length-Fits n id len (Fits.have h e) = ground arith
check_length-Fits n id len (Fits.bitfield h lo hi) =
    ground (arith, bitfield_byte_count_unique n len)
check_length-Fits n id len (Fits.request h e) = ground arith
check_length-Fits n id len (Fits.piece h lo hi) = ground arith
check_length-Fits n id len (Fits.cancel h e) = ground arith

pub check_length_foreign : (n id len : ℕ) → message_cancel < id → check_length id len n ≡ skip
unfolding check_length
check_length_foreign n id len h = ground arith

-- A length prefix that is neither zero nor too long leads on to the message.
pub read_declared-message :
    (n len : ℕ) (s : Stream)
    → 0 < len
    → len ≤ max_msg_len
    → read_declared n len s ≡ read_message n len s
unfolding read_declared
read_declared-message n len s h k = ground arith

-- With the prefix of a frame at its head, the reader comes to its test of the length.
pub read_frame-put_uint32 :
    (n len : ℕ) (bs : List ℕ) (e : IoError)
    → n ≤ 2 ^ 32
    → len < 2 ^ 32
    → read_frame (pos n) (record { bytes = put_uint32 len ++ bs; ending = e })
      ≡ read_declared n len (record { bytes = bs; ending = e })
unfolding read_frame read_valid
read_frame-put_uint32 n len bs e h k =
    rw
      (
        validate_piece_count-pos n h,
        read_full-append 4 (put_uint32 len) bs e (length-put_uint32 len),
        uint32-put_uint32 len k,
      )
      refl

-- With the ID at its head, it comes to its switch.
pub read_message-id :
    (n len id : ℕ) (bs : List ℕ) (e : IoError)
    → read_message n len (record { bytes = id ∷ bs; ending = e })
      ≡ read_payload id len (check_length id len n) (record { bytes = bs; ending = e })
unfolding read_message
read_message-id n len id bs e = rw (read_full-append 1 (id ∷ []) bs e refl)

-- At the head of an encoded message the reader comes to its switch on the ID.
pub read_frame-encode :
    (n : ℕ) (m : Message) (bs : List ℕ) (e : IoError)
    → n ≤ 2 ^ 32
    → length m.payload < max_msg_len
    → read_frame (pos n) (record { bytes = encode m ++ bs; ending = e })
      ≡ read_payload m.id
          (1 + length m.payload)
          (check_length m.id (1 + length m.payload) n)
          (record { bytes = m.payload ++ bs; ending = e })
unfolding encode
read_frame-encode n m bs e h k =
    rw
      (
        append_assoc (put_uint32 (1 + length m.payload)) (m.id ∷ m.payload) bs,
        read_frame-put_uint32 n (1 + length m.payload) (m.id ∷ m.payload ++ bs) e h (omega arith),
        read_declared-message n (1 + length m.payload)
            (record { bytes = m.id ∷ (m.payload ++ bs); ending = e }) (omega arith) (omega arith),
      )
      (read_message-id n (1 + length m.payload) m.id (m.payload ++ bs) e)

-- A message that fits is read back as it was written, from the head of any stream; the stream is
-- left at the byte after it.
pub read_frame-encode_frameable :
    (n : ℕ) (m : Message) (bs : List ℕ) (e : IoError)
    → n ≤ 2 ^ 32
    → IsFrameable n m
    → read_frame (pos n) (record { bytes = encode m ++ bs; ending = e })
      ≡ done (message m) (record { bytes = bs; ending = e })
unfolding read_payload
read_frame-encode_frameable n m bs e h f =
    let less : 1 + length m.payload - 1 ≡ length m.payload = omega arith in
    read_frame-encode n m bs e h f.1
    ∙ rw
        (
          check_length-Fits n m.id (length m.payload) f.0,
          less,
          read_full-append (length m.payload) m.payload bs e refl,
        )
        refl

-- A message with an ID above the core ones is drained to its last byte.
pub read_frame-encode_foreign :
    (n : ℕ) (m : Message) (bs : List ℕ) (e : IoError)
    → n ≤ 2 ^ 32
    → IsForeign m
    → read_frame (pos n) (record { bytes = encode m ++ bs; ending = e })
      ≡ done unsupported (record { bytes = bs; ending = e })
unfolding read_payload
read_frame-encode_foreign n m bs e h f =
    let less : 1 + length m.payload - 1 ≡ length m.payload = omega arith in
    read_frame-encode n m bs e h f.1
    ∙ rw
        (
          check_length_foreign n m.id (1 + length m.payload) f.0,
          less,
          discard-append (length m.payload) m.payload bs e refl,
        )
        refl

-- Every frame of a torrent of `n` pieces is read back from its bytes, whatever follows them: a
-- keep-alive, a core message whose length fits its ID, or a message of another ID, which is drained
-- and reported as unsupported. The stream is left at the byte after the frame.
pub read_frame-Encodes :
    (n : ℕ) (f : Frame) (bs tail : List ℕ) (e : IoError)
    → n ≤ 2 ^ 32
    → Encodes n f bs
    → read_frame (pos n) (record { bytes = bs ++ tail; ending = e })
      ≡ done f (record { bytes = tail; ending = e })
unfolding put_uint32 read_declared
read_frame-Encodes n keep_alive bs tail e h c =
    rw c (read_frame-put_uint32 n 0 tail e h (omega arith))
read_frame-Encodes n (message m) bs tail e h c =
    rw c.0 (read_frame-encode_frameable n m tail e h c.1)
read_frame-Encodes n unsupported bs tail e h c =
    rw c.1 (read_frame-encode_foreign n c.0 tail e h c.2)
