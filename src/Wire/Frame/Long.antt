-- ===== src/Wire/Frame/Long.antt =====
-- Frames that declare more than the reader takes.
use bittorrent_client.Base.{
  All-append_left, Bool-cases, Flow, Leads, List, ap, ap₂, arith, drop, fail, get_or, inl, inr, ltb,
  pos, refl, subst, sym, take, true, ℕ, ◌++◌, ◌-◌, ◌<◌, ◌==◌, ◌^◌, ◌↔◌, ◌∙◌, ◌≡◌, ◌≢◌, ◌≤◌,
}
use bittorrent_client.Wire.Io.{rest, Stream, read_full_cases, discard_cases, Took, read_full-Took}
use bittorrent_client.Wire.Endian.{
  put_uint32, IsBytes, put_uint32-uint32_of_length, uint32, uint32_of_length-lt,
}
use bittorrent_client.Wire.Error.{WireError, frame_too_long, is_malformed}
use bittorrent_client.Wire.Message.{Frame, max_msg_len}
use bittorrent_client.Wire.Bitfield.Count.{validate_piece_count-pos}
use bittorrent_client.Wire.Frame.{
  Verdict, accept, read_message, read_payload, reject, skip, check_length, read_declared,
  read_frame, read_valid,
}
use bittorrent_client.Wire.Frame.Reject.{check_length-reject, read_frame_too_long}

-- No other error of the reader is this one.
abbrev Other : ℕ → WireError → Stream → Type 0
Other len e t = e ≢ frame_too_long len

read_payload-Other :
    (id k len : ℕ) (v : Verdict) (s : Stream)
    → ((x : WireError) → v ≡ reject x → x ≢ frame_too_long len)
    → Leads {A = Frame} (λ _ _. Unit) (Other len) (read_payload id k v s)
unfolding read_payload
read_payload-Other id k len (reject x) s h = h x refl
read_payload-Other id k len skip s h = elim (discard_cases (k - 1) s) [
  | inl e ↦ rw (e.1) tt
  | inr e ↦ rw (e.1) (λ q. absurd (ground (arith, q)))
]
read_payload-Other id k len accept s h = elim (read_full_cases (k - 1) s) [
  | inl e ↦ rw (e.1) tt
  | inr e ↦ rw (e.1) (λ q. absurd (ground (arith, q)))
]

read_message-Other :
    (n k len : ℕ) (s : Stream) → Leads {A = Frame} (λ _ _. Unit) (Other len) (read_message n k s)
unfolding read_message
read_message-Other n k len s = elim (read_full_cases 1 s) [
  | inl e ↦
      let id : ℕ = get_or (take 1 s.bytes) 0 0 in
      rw (e.1) (
        read_payload-Other id k len (check_length id k n) (rest s (drop 1 s.bytes))
          (λ x v q. absurd (ground (arith, q, check_length-reject n id k x v))))
  | inr e ↦ rw (e.1) (λ q. absurd (ground (arith, q)))
]

-- The prefix declares `len`, more than 1 MiB, and `t` is what follows it.
pub record Oversized (len : ℕ) (s t : Stream) : Type 0 where
  pub split : s.bytes ≡ put_uint32 len ++ t.bytes
  pub same_ending : t.ending ≡ s.ending
  pub long : 1048576 < len
  pub word : len < 2 ^ 32

abbrev Failed : WireError → Stream → Flow WireError Stream Frame
Failed e s = fail e s

read_declared-Oversized :
    (n len k : ℕ) (u t : Stream)
    → read_declared n k u ≡ fail (frame_too_long len) t
    → (k ≡ len) × (u ≡ t) × (1048576 < len)
unfolding read_declared
read_declared-Oversized n len k u t h = elim (Bool-cases (k == 0)) [
  | inl z ↦ absurd (ground (arith, (rw z at h)))
  | inr nz ↦ elim (Bool-cases (ltb max_msg_len k)) [
    | inl long ↦
        let same : Failed (frame_too_long k) u ≡ Failed (frame_too_long len) t =
          rw (nz, long) at h in
        (ground (arith, same), ground (arith, same), ground (arith, same, long))
    | inr fits ↦
        let other : read_message n k u ≡ fail (frame_too_long len) t = rw (nz, fits) at h in
        absurd (
          subst (Leads {A = Frame} (λ _ _. Unit) (Other len)) other (read_message-Other n k len u)
            refl)
  ]
]

-- ReadFrame reports a frame as too long exactly when the prefix at the head of the stream declares
-- more than 1 MiB, and then it names that length, leaves the stream at the byte after the prefix
-- and the error counts as malformed; no other frame gets this error. The stream holds bytes and
-- the piece count is in range.
pub read_frame_too_long_iff :
    (n len : ℕ) (s t : Stream)
    → n ≤ 2 ^ 32
    → IsBytes s.bytes
    → ((read_frame (pos n) s ≡ fail (frame_too_long len) t) ↔ Oversized len s t)
      × (is_malformed (frame_too_long len) ≡ true)
unfolding read_frame read_valid
read_frame_too_long_iff n len s t range all = (
  (
    λ h. elim (read_full_cases 4 s) [
      | inr short ↦ absurd (ground (arith, (rw (validate_piece_count-pos n range, short.1) at h)))
      | inl full ↦
          let p : List ℕ = take 4 s.bytes in
          let u : Stream = rest s (drop 4 s.bytes) in
          let took : Took 4 s p u = read_full-Took 4 s u p (full.1) in
          let bytes : IsBytes p =
            All-append_left (λ b. b < 256) p u.bytes (subst IsBytes took.split all) in
          let (size, same, long) =
            read_declared-Oversized n len (uint32 p) u t
              (rw (validate_piece_count-pos n range, full.1) at h) in
          record {
            split =
                took.split
                ∙ ap₂ (λ x y. x ++ y)
                    (sym (put_uint32-uint32_of_length p took.size bytes) ∙ ap put_uint32 size)
                    (ap (λ v. v.bytes) same);
            same_ending = ap (λ v. v.ending) (sym same) ∙ took.same_ending;
            long = long;
            word = subst (λ k. k < 2 ^ 32) size (uint32_of_length-lt p took.size bytes);
          }
    ],
    λ o.
        ap (λ bs. read_frame (pos n) (record { bytes = bs; ending = s.ending })) o.split
        ∙ read_frame_too_long n len t.bytes s.ending range o.long o.word
        ∙ ap (λ x. fail (frame_too_long len) (record { bytes = t.bytes; ending = x }))
            (sym o.same_ending),
  ),
  refl,
)
