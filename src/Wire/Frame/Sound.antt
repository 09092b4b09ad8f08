-- ===== src/Wire/Frame/Sound.antt =====
-- What the reader returns is what stood at the head of the stream.
use bittorrent_client.Base.{
  ==_iff, All-append_left, Bool-cases, List, Result, [], after-done, ap, append_assoc, arith, done,
  err, get_or, inl, inr, length, ltb, ok, pos, refl, singleton_of_length, subst, suc, sym, take,
  wrap, wrap-done, zero, ℕ, ℤ, ◌++◌, ◌+◌, ◌-◌, ◌<◌, ◌==◌, ◌^◌, ◌∙◌, ◌∷◌, ◌≡◌, ◌≤◌, ◌⊎◌,
}
use bittorrent_client.Wire.Io.{Stream, Took, read_full, read_full-Took, discard, discard-Took}
use bittorrent_client.Wire.Endian.{IsBytes, put_uint32, uint32, put_uint32-uint32_of_length}
use bittorrent_client.Wire.Error.{WireError, read_length, read_id, read_body, drain}
use bittorrent_client.Wire.Bitfield.{validate_piece_count}
use bittorrent_client.Wire.Bitfield.Count.{validate_piece_count-ok, bitfield_byte_count_bounds}
use bittorrent_client.Wire.Message.{
  max_msg_len, message_cancel, Message, Frame, keep_alive, message, unsupported, encode,
}
use bittorrent_client.Wire.Frame.{
  Verdict, accept, skip, reject, check_length, read_payload, read_message, read_declared,
  read_valid, read_frame,
}
use bittorrent_client.Wire.Frame.Layout.{Fits, Encodes}

-- A length that the switch accepts fits the ID.
pub check_length-accept : (n id len : ℕ) → check_length id (1 + len) n ≡ accept → Fits n id len
unfolding check_length
check_length-accept n zero len h = Fits.bare (omega arith) (ground arith)
check_length-accept n (suc zero) len h = Fits.bare (omega arith) (ground arith)
check_length-accept n (suc (suc zero)) len h = Fits.bare (omega arith) (ground arith)
check_length-accept n (suc (suc (suc zero))) len h = Fits.bare (omega arith) (ground arith)
check_length-accept n (suc (suc (suc (suc zero)))) len h = Fits.have refl (ground arith)
check_length-accept n (suc (suc (suc (suc (suc zero))))) len h =
    Fits.bitfield refl (ground (arith, bitfield_byte_count_bounds n))
      (ground (arith, bitfield_byte_count_bounds n))
check_length-accept n (suc (suc (suc (suc (suc (suc zero)))))) len h =
    Fits.request refl (ground arith)
check_length-accept n (suc (suc (suc (suc (suc (suc (suc zero))))))) len h =
    Fits.piece refl (ground arith) (ground arith)
check_length-accept n (suc (suc (suc (suc (suc (suc (suc (suc zero)))))))) len h =
    Fits.cancel refl (ground arith)
check_length-accept n (suc (suc (suc (suc (suc (suc (suc (suc (suc k))))))))) len h =
    absurd (ground arith)

pub check_length-skip : (n id len : ℕ) → check_length id len n ≡ skip → message_cancel < id
unfolding check_length
check_length-skip n id len h = ground arith

-- The payload of an accepted message, or the drained bytes of a foreign one.
record ReadsPayload (n id len : ℕ) (s t : Stream) (f : Frame) : Type 0 where
  payload : List ℕ
  took : Took len s payload t
  frame :
      ((f ≡ message (record { id = id; payload = payload })) × Fits n id len)
      ⊎ ((f ≡ unsupported) × (message_cancel < id))

read_payload-accept :
    (n id len : ℕ) (s t : Stream) (f : Frame)
    → Fits n id len
    → read_payload id (1 + len) accept s ≡ done f t
    → ReadsPayload n id len s t f
unfolding read_payload
read_payload-accept n id len s t f fits h =
    let (p, u, e, r) = after-done (wrap read_body (read_full (1 + len - 1) s)) _ h in
    let took : Took (1 + len - 1) s p u =
      read_full-Took (1 + len - 1) s u p (wrap-done read_body (read_full (1 + len - 1) s) e) in
    let same : u ≡ t = cc in
    record {
      payload = p;
      took = record {
        size = omega (arith, took.size);
        split = subst (λ v. s.bytes ≡ p ++ v.bytes) same took.split;
        same_ending = subst (λ v. v.ending ≡ s.ending) same took.same_ending;
      };
      frame = inl (cc, fits);
    }

read_payload_skip :
    (n id len : ℕ) (s t : Stream) (f : Frame)
    → message_cancel < id
    → read_payload id (1 + len) skip s ≡ done f t
    → ReadsPayload n id len s t f
unfolding read_payload
read_payload_skip n id len s t f above h =
    let (p, u, e, r) = after-done (wrap drain (discard (1 + len - 1) s)) _ h in
    let took : Took (1 + len - 1) s (take (1 + len - 1) s.bytes) u =
      discard-Took (1 + len - 1) s u p (wrap-done drain (discard (1 + len - 1) s) e) in
    let same : u ≡ t = cc in
    record {
      payload = take (1 + len - 1) s.bytes;
      took = record {
        size = omega (arith, took.size);
        split = subst (λ v. s.bytes ≡ take (1 + len - 1) s.bytes ++ v.bytes) same took.split;
        same_ending = subst (λ v. v.ending ≡ s.ending) same took.same_ending;
      };
      frame = inr (cc, above);
    }

read_payload-done :
    (n id len : ℕ) (s t : Stream) (f : Frame) (v : Verdict)
    → check_length id (1 + len) n ≡ v
    → read_payload id (1 + len) v s ≡ done f t
    → ReadsPayload n id len s t f
unfolding read_payload
read_payload-done n id len s t f accept e h =
    read_payload-accept n id len s t f (check_length-accept n id len e) h
read_payload-done n id len s t f skip e h =
    read_payload_skip n id len s t f (check_length-skip n id (1 + len) e) h
read_payload-done n id len s t f (reject x) e h = cc

-- A frame stood at the head of `s`, and `t` is what follows it.
pub record Reads (n : ℕ) (s t : Stream) (f : Frame) : Type 0 where
  pub bytes : List ℕ
  pub encodes : Encodes n f bytes
  pub split : s.bytes ≡ bytes ++ t.bytes
  pub same_ending : t.ending ≡ s.ending

-- The frame of a payload that was read, with the prefix and the ID that stood before it.
payload_frame :
    (n id len : ℕ) (s t : Stream) (f : Frame) (p : List ℕ)
    → len < max_msg_len
    → length p ≡ len
    → ((f ≡ message (record { id = id; payload = p })) × Fits n id len)
      ⊎ ((f ≡ unsupported) × (message_cancel < id))
    → Encodes n f (encode (record { id = id; payload = p }))
payload_frame n id len s t f p small e (inl (h, fits)) =
    subst (λ g. Encodes n g (encode (record { id = id; payload = p }))) (sym h)
      (refl, (subst (Fits n id) (sym e) fits, omega arith))
payload_frame n id len s t f p small e (inr (h, above)) =
    subst (λ g. Encodes n g (encode (record { id = id; payload = p }))) (sym h)
      (record { id = id; payload = p }, refl, (above, omega arith))

read_message-done :
    (n len : ℕ) (s t : Stream) (f : Frame)
    → read_message n (1 + len) s ≡ done f t
    → (id : ℕ) × (u : Stream) × Took 1 s (id ∷ []) u × ReadsPayload n id len u t f
unfolding read_message
read_message-done n len s t f h =
    let (p, u, e, r) = after-done (wrap read_id (read_full 1 s)) _ h in
    let took : Took 1 s p u = read_full-Took 1 s u p (wrap-done read_id (read_full 1 s) e) in
    (
      get_or p 0 0,
      u,
      subst (λ q. Took 1 s q u) (singleton_of_length 0 p took.size) took,
      read_payload-done n (get_or p 0 0) len u t f _ refl r,
    )

module _ (n : ℕ) (p : List ℕ) (s u t : Stream) (f : Frame) (all : IsBytes s.bytes)
    (took : Took 4 s p u) where
  prefix-put_uint32 : put_uint32 (uint32 p) ≡ p
  prefix-put_uint32 =
      put_uint32-uint32_of_length p took.size
        (All-append_left (λ b. b < 256) p u.bytes (subst IsBytes took.split all))

  -- A keep-alive: the prefix is zero.
  Reads-keep_alive : uint32 p ≡ 0 → keep_alive ≡ f → u ≡ t → Reads n s t f
  unfolding put_uint32
  Reads-keep_alive z e same = record {
    bytes = p;
    encodes = subst (λ g. Encodes n g p) e (sym prefix-put_uint32 ∙ ap put_uint32 z);
    split = subst (λ v. s.bytes ≡ p ++ v.bytes) same took.split;
    same_ending = subst (λ v. v.ending ≡ s.ending) same took.same_ending;
  }

  -- Any other frame: the prefix counts the ID and the payload.
  Reads-message :
      (k : ℕ)
      → uint32 p ≡ 1 + k
      → k < max_msg_len
      → read_message n (1 + k) u ≡ done f t
      → Reads n s t f
  unfolding encode
  Reads-message k e small h =
      let (id, v, id_took, r) = read_message-done n k u t f h in
      let m : Message = record { id = id; payload = r.payload } in
      let q : ReadsPayload n id k v t f = r in
      let head : put_uint32 (1 + length q.payload) ≡ p =
        ap put_uint32 (omega (arith, q.took.size)) ∙ prefix-put_uint32 in
      record {
        bytes = encode m;
        encodes = payload_frame n id k v t f q.payload small q.took.size q.frame;
        split =
            took.split
            ∙ ap (◌++◌ p) (id_took.split ∙ ap (◌∷◌ id) q.took.split)
            ∙ sym (append_assoc p (id ∷ q.payload) t.bytes)
            ∙ ap (λ l. (l ++ (id ∷ q.payload)) ++ t.bytes) (sym head);
        same_ending = q.took.same_ending ∙ id_took.same_ending ∙ took.same_ending;
      }

  read_declared-done : read_declared n (uint32 p) u ≡ done f t → Reads n s t f
  unfolding read_declared
  read_declared-done h = elim (Bool-cases (uint32 p == 0)) [
    | inl z ↦ Reads-keep_alive ((==_iff (uint32 p) 0).0 z) (ground arith) (ground arith)
    | inr nz ↦ elim (Bool-cases (ltb max_msg_len (uint32 p))) [
      | inl long ↦ absurd (ground arith)
      | inr fits ↦
          let less : 1 + (uint32 p - 1) ≡ uint32 p = ground arith in
          Reads-message (uint32 p - 1) (sym less) (ground arith) (rw less (ground arith))
    ]
  ]

-- Whatever the reader returns without an error stood at the head of the stream as one whole frame
-- that is valid for the piece count, which is itself in range; the stream is left at the byte after
-- the frame. The stream holds bytes.
pub read_frame-Reads :
    (z : ℤ) (s t : Stream) (f : Frame)
    → IsBytes s.bytes
    → read_frame z s ≡ done f t
    → (n : ℕ) × (z ≡ pos n) × (n ≤ 2 ^ 32) × Reads n s t f
unfolding read_frame read_valid
read_frame-Reads z s t f all h = go (validate_piece_count z) refl h
  where
    go :
        (r : Result WireError ℕ)
        → validate_piece_count z ≡ r
        → read_valid r s ≡ done f t
        → (n : ℕ) × (z ≡ pos n) × (n ≤ 2 ^ 32) × Reads n s t f
    go (err e) v q = cc
    go (ok n) v q =
        let (p, u, e, r) = after-done (wrap read_length (read_full 4 s)) _ q in
        let (same, range) = validate_piece_count-ok z n v in
        let took = read_full-Took 4 s u p (wrap-done read_length (read_full 4 s) e) in
        (n, same, range, read_declared-done n p s u t f all took r)
