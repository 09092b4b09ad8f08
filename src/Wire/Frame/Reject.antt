-- ===== src/Wire/Frame/Reject.antt =====
-- What the reader refuses, and where it leaves the stream then.
use bittorrent_client.Base.{
  All-append_left, List, Result, Returns, [], after-Returns, ap, append-nil, append_assoc, arith,
  done, drop, err, fail, fails_unless_done, length, length-append, length-drop, ok, pos, refl,
  subst, sym, take, take-append-drop, true, wrap, wrap-Returns, ℕ, ℤ, ◌++◌, ◌+◌, ◌-◌, ◌<◌, ◌^◌, ◌∙◌,
  ◌∷◌, ◌≡◌, ◌≢◌, ◌≤◌,
}
use bittorrent_client.Wire.Io.{Stream, IoError, discard, read_full, eof, read_full-Returns}
use bittorrent_client.Wire.Endian.{IsBytes, put_uint32, uint32}
use bittorrent_client.Wire.Error.{
  WireError, drain, frame_length, frame_too_long, is_malformed, read_body, read_id, read_length,
}
use bittorrent_client.Wire.Bitfield.{validate_piece_count}
use bittorrent_client.Wire.Message.{max_msg_len, Frame, message_cancel}
use bittorrent_client.Wire.Frame.{
  Verdict, accept, check_length, read_declared, read_frame, read_message, read_payload, read_valid,
  reject, skip,
}
use bittorrent_client.Wire.Frame.Layout.{Fits, Encodes}
use bittorrent_client.Wire.Frame.Accept.{
  read_frame-put_uint32, read_declared-message, read_message-id, read_frame-Encodes,
}
use bittorrent_client.Wire.Frame.Sound.{check_length-accept, check_length-skip, read_frame-Reads}

-- A declared length above 1 MiB is refused, with nothing read after the prefix.
pub read_frame_too_long :
    (n len : ℕ) (bs : List ℕ) (e : IoError)
    → n ≤ 2 ^ 32
    → max_msg_len < len
    → len < 2 ^ 32
    → read_frame (pos n) (record { bytes = put_uint32 len ++ bs; ending = e })
      ≡ fail (frame_too_long len) (record { bytes = bs; ending = e })
unfolding read_declared
read_frame_too_long n len bs e h long k = read_frame-put_uint32 n len bs e h k ∙ ground arith

pub check_length-reject :
    (n id len : ℕ) (x : WireError) → check_length id len n ≡ reject x → x ≡ frame_length id len
unfolding check_length
check_length-reject n id len x h = ground arith

read_payload_reject :
    (n id len : ℕ) (s : Stream) (v : Verdict)
    → check_length id (1 + len) n ≡ v
    → ¬ Fits n id len
    → id ≤ message_cancel
    → read_payload id (1 + len) v s ≡ fail (frame_length id (1 + len)) s
unfolding read_payload
read_payload_reject n id len s accept e no_fit core =
    absurd (no_fit (check_length-accept n id len e))
read_payload_reject n id len s skip e no_fit core =
    absurd (omega (arith, check_length-skip n id (1 + len) e))
read_payload_reject n id len s (reject x) e no_fit core =
    ap (λ y. fail y s) (check_length-reject n id (1 + len) x e)

-- A core message whose declared length does not fit its ID, for the piece count, is refused as
-- malformed before its payload: the stream is left at the byte after the ID.
pub read_frame_misfit :
    (n id len : ℕ) (bs : List ℕ) (e : IoError)
    → n ≤ 2 ^ 32
    → id ≤ message_cancel
    → len < max_msg_len
    → ¬ Fits n id len
    → (read_frame (pos n) (record { bytes = put_uint32 (1 + len) ++ id ∷ bs; ending = e })
        ≡ fail (frame_length id (1 + len)) (record { bytes = bs; ending = e }))
      × (is_malformed (frame_length id (1 + len)) ≡ true)
read_frame_misfit n id len bs e h core small no_fit = (
  read_frame-put_uint32 n (1 + len) (id ∷ bs) e h (omega arith)
      ∙ read_declared-message n (1 + len) (record { bytes = id ∷ bs; ending = e }) (omega arith)
          (omega arith)
      ∙ read_message-id n (1 + len) id bs e
      ∙ read_payload_reject n id len (record { bytes = bs; ending = e })
          (check_length id (1 + len) n) refl no_fit core,
  refl,
)

discard-Returns : (n : ℕ) (s : Stream) → Returns (discard n s)
unfolding discard
discard-Returns n s = ground arith

read_payload-Returns : (id len : ℕ) (v : Verdict) (s : Stream) → Returns (read_payload id len v s)
unfolding read_payload
read_payload-Returns id len accept s =
    after-Returns (wrap read_body (read_full (len - 1) s)) _
      (wrap-Returns read_body _ (read_full-Returns (len - 1) s)) (λ a t. tt)
read_payload-Returns id len skip s =
    after-Returns (wrap drain (discard (len - 1) s)) _
      (wrap-Returns drain _ (discard-Returns (len - 1) s)) (λ a t. tt)
read_payload-Returns id len (reject x) s = tt

read_message-Returns : (n len : ℕ) (s : Stream) → Returns (read_message n len s)
unfolding read_message
read_message-Returns n len s =
    after-Returns (wrap read_id (read_full 1 s)) _ (wrap-Returns read_id _ (read_full-Returns 1 s))
      (λ a t. read_payload-Returns _ len _ t)

read_declared-Returns : (n len : ℕ) (s : Stream) → Returns (read_declared n len s)
unfolding read_declared
read_declared-Returns n len s = ground (arith, read_message-Returns n len s)

read_valid-Returns : (r : Result WireError ℕ) (s : Stream) → Returns (read_valid r s)
unfolding read_valid
read_valid-Returns (err e) s = tt
read_valid-Returns (ok n) s =
    after-Returns (wrap read_length (read_full 4 s)) _
      (wrap-Returns read_length _ (read_full-Returns 4 s))
      (λ p t. read_declared-Returns n (uint32 p) t)

pub read_frame-Returns : (z : ℤ) (s : Stream) → Returns (read_frame z s)
unfolding read_frame
read_frame-Returns z s = read_valid-Returns (validate_piece_count z) s

not_done_before_end :
    (n : ℕ) (f g : Frame) (bs cs : List ℕ) (k : ℕ) (t : Stream)
    → n ≤ 2 ^ 32
    → Encodes n f bs
    → k < length bs
    → Encodes n g cs
    → take k bs ≡ cs ++ t.bytes
    → ⊥
not_done_before_end n f g bs cs k t h whole short other split =
    let join : bs ++ [] ≡ cs ++ (t.bytes ++ drop k bs) =
      append-nil bs
      ∙ sym (take-append-drop k bs)
      ∙ ap (λ l. l ++ drop k bs) split
      ∙ append_assoc cs t.bytes (drop k bs) in
    let at_once = read_frame-Encodes n f bs [] eof h whole in
    let later = read_frame-Encodes n g cs (t.bytes ++ drop k bs) eof h other in
    let same =
      sym at_once
      ∙ ap (λ l. read_frame (pos n) (record { bytes = l; ending = eof })) join
      ∙ later in
    let left : Path Stream (record { bytes = []; ending = eof })
        (record { bytes = t.bytes ++ drop k bs; ending = eof }) =
      cc (same) in
    omega (
      arith,
      ap (λ (s : Stream). length s.bytes) left,
      length-append t.bytes (drop k bs),
      length-drop k bs,
    )

-- A frame that is cut off by the end of the stream, at any byte, is an error: no part of it passes
-- for a shorter frame.
pub read_frame_cut_off :
    (n : ℕ) (f : Frame) (bs : List ℕ) (k : ℕ) (e : IoError)
    → n ≤ 2 ^ 32
    → IsBytes bs
    → Encodes n f bs
    → k < length bs
    → (x : WireError) × (t : Stream) × (read_frame
          (pos n)
          (record { bytes = take k bs; ending = e })
        ≡ fail x t)
read_frame_cut_off n f bs k e h all whole short =
    fails_unless_done (read_frame (pos n) s) (read_frame-Returns (pos n) s) never
  where
    s : Stream
    s = record { bytes = take k bs; ending = e }

    bytes_taken : IsBytes (take k bs)
    bytes_taken =
        All-append_left (λ b. b < 256) (take k bs) (drop k bs)
          (subst IsBytes (sym (take-append-drop k bs)) all)

    never : (g : Frame) (t : Stream) → read_frame (pos n) s ≢ done g t
    never g t d =
        let (m, same, range, r) = read_frame-Reads (pos n) s t g bytes_taken d in
        let eq : m ≡ n = cc in
        not_done_before_end n f g bs r.bytes k t h whole short
          (subst (λ j. Encodes j g r.bytes) eq r.encodes) r.split
