-- ===== src/Peer/Session/Frames.antt =====
-- The loop of `Read` over the frames of the connection: it ends, and it returns the first message
-- frame of the stream.
use bittorrent_client.Base.{
  All-append_right, Flow, List, Returns, [], ap, append_assoc, ap₂, arith, done, fail, length,
  length-append, pos, refl, spent, subst, suc, sym, zero, ℕ, ◌++◌, ◌+◌, ◌<◌, ◌∙◌, ◌∷◌, ◌≡◌, ◌≤◌,
}
use bittorrent_client.Wire.Io.{Stream}
use bittorrent_client.Wire.Endian.{IsBytes, length-put_uint32, put_uint32}
use bittorrent_client.Wire.Error.{WireError}
use bittorrent_client.Wire.Message.{
  Message, Frame, keep_alive, message, unsupported, encode, frame_message, is_keep_alive,
  is_unsupported,
}
use bittorrent_client.Wire.Frame.{read_frame}
use bittorrent_client.Wire.Frame.Layout.{Encodes, IsFrameable, IsForeign}
use bittorrent_client.Wire.Frame.Sound.{Reads, read_frame-Reads}
use bittorrent_client.Wire.Frame.Reject.{read_frame-Returns}
use bittorrent_client.Peer.Session.{SessionError, Link, receive, read_loop, read, wire}

pub length-encode : (m : Message) → 5 ≤ length (encode m)
unfolding encode
length-encode m = omega (
  arith,
  length-append (put_uint32 (1 + length m.payload)) (m.id ∷ m.payload),
  length-put_uint32 (1 + length m.payload),
)

length-Encodes : (n : ℕ) (f : Frame) (bs : List ℕ) → Encodes n f bs → 4 ≤ length bs
length-Encodes n keep_alive bs e = omega (arith, ap length e)
length-Encodes n (message m) bs e = omega (arith, ap length e.0, length-encode m)
length-Encodes n unsupported bs e = omega (arith, ap length e.1, length-encode e.0)

-- A frame that was read made the stream shorter, and left bytes.
Reads-shorter :
    (n : ℕ) (s t : Stream) (f : Frame) → Reads n s t f → length t.bytes + 4 ≤ length s.bytes
Reads-shorter n s t f r =
    omega (
      arith,
      ap length r.split,
      length-append r.bytes t.bytes,
      length-Encodes n f r.bytes r.encodes,
    )

Reads-IsBytes :
    (n : ℕ) (s t : Stream) (f : Frame) → IsBytes s.bytes → Reads n s t f → IsBytes t.bytes
Reads-IsBytes n s t f h r =
    All-append_right (λ b. b < 256) r.bytes t.bytes (subst IsBytes r.split h)

-- Keep-alives and messages of other IDs: what Read skips.
pub data Quiet : List ℕ → Type 0 where
  nothing : Quiet []
  alive : {cs : List ℕ} → Quiet cs → Quiet (0 ∷ 0 ∷ 0 ∷ 0 ∷ cs)
  foreign : (m : Message) {cs : List ℕ} → IsForeign m → Quiet cs → Quiet (encode m ++ cs)

-- The two ends of Read, for the outcome `r`: the first message of the stream arrives and is
-- received, or the frame after what was skipped cannot be read.
pub data Reading (l : Link) (r : Flow SessionError Link Message) : Type 0 where
  arrived :
      (quiet : List ℕ) (m : Message) (t : Stream)
      → Quiet quiet
      → IsFrameable l.session.piece_count m
      → l.input.bytes ≡ quiet ++ (encode m ++ t.bytes)
      → r ≡ receive m (record { session = l.session; input = t })
      → Reading l r
  broken :
      (quiet : List ℕ) (s : Stream) (e : WireError) (t : Stream)
      → Quiet quiet
      → l.input.bytes ≡ quiet ++ s.bytes
      → read_frame (pos l.session.piece_count) s ≡ fail e t
      → r ≡ fail (wire e) (record { session = l.session; input = t })
      → Reading l r

-- What a frame does to the outcome of the rounds after it.
Reading-keep_alive :
    (l : Link) (t : Stream) (bs : List ℕ) (r : Flow SessionError Link Message)
    → l.input.bytes ≡ bs ++ t.bytes
    → bs ≡ 0 ∷ 0 ∷ 0 ∷ 0 ∷ []
    → Reading (record { session = l.session; input = t }) r
    → Reading l r
Reading-keep_alive l t bs r split e (arrived quiet m u q f s h) =
    arrived (0 ∷ 0 ∷ 0 ∷ 0 ∷ quiet) m u (alive q) f (split ∙ ap₂ ◌++◌ e s) h
Reading-keep_alive l t bs r split e (broken quiet s x u q p d h) =
    broken (0 ∷ 0 ∷ 0 ∷ 0 ∷ quiet) s x u (alive q) (split ∙ ap₂ ◌++◌ e p) d h

Reading-foreign :
    (l : Link) (t : Stream) (bs : List ℕ) (k : Message) (r : Flow SessionError Link Message)
    → l.input.bytes ≡ bs ++ t.bytes
    → bs ≡ encode k
    → IsForeign k
    → Reading (record { session = l.session; input = t }) r
    → Reading l r
Reading-foreign l t bs k r split e above (arrived quiet m u q f s h) =
    arrived (encode k ++ quiet) m u (foreign k above q) f
      (split ∙ ap₂ ◌++◌ e s ∙ sym (append_assoc (encode k) quiet (encode m ++ u.bytes))) h
Reading-foreign l t bs k r split e above (broken quiet s x u q p d h) =
    broken (encode k ++ quiet) s x u (foreign k above q)
      (split ∙ ap₂ ◌++◌ e p ∙ sym (append_assoc (encode k) quiet s.bytes)) d h

-- One round, whose frame is known.
round :
    (fuel : ℕ) (l : Link) (f : Frame) (t : Stream)
    → Reads l.session.piece_count l.input t f
    → Reading
        (record { session = l.session; input = t })
        (read_loop fuel (record { session = l.session; input = t }))
    → read_frame (pos l.session.piece_count) l.input ≡ done f t
    → Reading l (read_loop (suc fuel) l)
unfolding read_loop frame_message is_keep_alive is_unsupported
round fuel l keep_alive t r later e =
    rw e (Reading-keep_alive l t r.bytes _ r.split r.encodes later)
round fuel l unsupported t r later e =
    let (k, same, above) = r.encodes in
    rw e (Reading-foreign l t r.bytes k _ r.split same above later)
round fuel l (message m) t r later e =
    rw e (arrived [] m t nothing r.encodes.1 (r.split ∙ ap (λ x. x ++ t.bytes) r.encodes.0) refl)

-- A round of any outcome, given the rounds after it.
round-Reading :
    (fuel : ℕ) (l : Link) (x : Flow WireError Stream Frame)
    → IsBytes l.input.bytes
    → ((t : Stream)
        → IsBytes t.bytes
        → length t.bytes < length l.input.bytes
        → Reading
            (record { session = l.session; input = t })
            (read_loop fuel (record { session = l.session; input = t })))
    → read_frame (pos l.session.piece_count) l.input ≡ x
    → Reading l (read_loop (suc fuel) l)
unfolding read_loop
round-Reading fuel l (done f t) h later e =
    let (n, same, range, r) = read_frame-Reads (pos l.session.piece_count) l.input t f h e in
    let eq : n ≡ l.session.piece_count = cc in
    let reads = subst (λ k. Reads k l.input t f) eq r in
    round fuel l f t reads
      (later t (Reads-IsBytes _ l.input t f h reads)
        (omega (arith, Reads-shorter _ l.input t f reads)))
      e
round-Reading fuel l (fail x t) h later e = broken [] l.input x t nothing refl e (rw e refl)
round-Reading fuel l spent h later e =
    absurd (subst Returns e (read_frame-Returns (pos l.session.piece_count) l.input))

read_loop-Reading :
    (fuel : ℕ) (l : Link)
    → IsBytes l.input.bytes
    → length l.input.bytes < fuel
    → Reading l (read_loop fuel l)
read_loop-Reading zero l h k = absurd (omega arith)
read_loop-Reading (suc fuel) l h k =
    round-Reading fuel l (read_frame (pos l.session.piece_count) l.input) h
      (λ t ht shorter.
        read_loop-Reading fuel (record { session = l.session; input = t }) ht (omega arith))
      refl

-- Read returns whatever the peer sends. It skips keep-alives and messages of other IDs, and then
-- either receives the first message of the stream, which is whole and valid for the piece count, or
-- fails with the error of the first frame that cannot be read and leaves the session as it was. The
-- stream holds bytes.
pub read-Reading : (l : Link) → IsBytes l.input.bytes → Reading l (read l)
unfolding read
read-Reading l h = read_loop-Reading (suc (length l.input.bytes)) l h (omega arith)
