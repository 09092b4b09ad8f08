-- ===== src/Wire/Payload/Sending.antt =====
-- What the Write functions of messages have sent when they return.
use bittorrent_client.Base.{
  Bool-cases, Result, [], ap, arith, err, false, inl, inr, leb, length, none, ok, refl, some, take,
  take_all, ℕ, ◌++◌, ◌-◌, ◌<◌, ◌∙◌, ◌≡◌, ◌≤◌,
}
use bittorrent_client.Wire.Error.{WireError}
use bittorrent_client.Wire.Message.{
  Message, Sent, write_to, write_interested, encode, message_interested, message_request,
  max_msg_len, max_block_size,
}
use bittorrent_client.Wire.Writer.{Writer, Written, write_full, written, stalled}
use bittorrent_client.Wire.Endian.{put_uint32}
use bittorrent_client.Wire.Writer.Whole.{TakesAll, write_full-TakesAll}
use bittorrent_client.Wire.Writer.Complete.{Progress, write_full-Progress}
use bittorrent_client.Wire.Payload.{Block, Answer, new_request, write_request, write_checked}

module _ (w : Writer) where
  open w use {State, sent}

  -- The call returns, and without an error the receiver got the whole frame.
  abbrev pub Sends : Message → State → Sent w → Type 0
  Sends m s (Sent.refused t) = Unit
  Sends m s (Sent.sending (written n none t)) = sent t ≡ sent s ++ encode m
  Sends m s (Sent.sending (written n (some e) t)) = Unit
  Sends m s (Sent.sending stalled) = ⊥

  written-Sends :
      (m : Message) (s : State) (r : Written State)
      → Progress w (encode m) 0 s r
      → Sends m s (Sent.sending r)
  written-Sends m s (written n none t) h =
      let all : n ≡ length (encode m) = h.3 refl in
      let whole : n - 0 ≡ n = omega arith in
      h.2
      ∙ ap (λ k. sent s ++ take k (encode m)) whole
      ∙ ap (◌++◌ (sent s)) (take_all n (encode m) (omega arith))
  written-Sends m s (written n (some e) t) h = tt
  written-Sends m s stalled h = h

  pub write_to-Sends : (m : Message) (s : State) → Sends m s (write_to w m s)
  unfolding write_to
  write_to-Sends m s = elim (Bool-cases (leb max_msg_len (length m.payload))) [
    | inl long ↦ rw long tt
    | inr fits ↦
        rw fits (written-Sends m s (write_full w (encode m) s) (write_full-Progress w (encode m) s))
  ]

  pub write_interested-Sends :
      (s : State)
      → Sends (record { id = message_interested; payload = [] }) s (write_interested w s)
  unfolding write_interested
  write_interested-Sends s = write_to-Sends (record { id = message_interested; payload = [] }) s

  -- A request that is sent is the message of NewRequest.
  abbrev pub Answers : Result WireError Message → State → Answer w → Type 0
  Answers q s (Answer.invalid e t) = Unit
  Answers q s (Answer.sent r) = (m : Message) × (q ≡ ok m) × Sends m s r

  checked-Answers : (q : Result WireError Message) (s : State) → Answers q s (write_checked w q s)
  unfolding write_checked
  checked-Answers (err e) s = tt
  checked-Answers (ok m) s = (m, refl, write_to-Sends m s)

  pub write_request-Answers :
      (b : Block) (s : State) → Answers (new_request b) s (write_request w b s)
  unfolding write_request
  write_request-Answers b s = checked-Answers (new_request b) s

  -- A writer that takes all bytes is sent a message that is not too long.
  write_to-TakesAll :
      TakesAll w
      → (m : Message) (s : State) → length m.payload < max_msg_len
      → write_to w m s
        ≡ Sent.sending (written (length (encode m)) none ((w.write s (encode m)).next))
  unfolding write_to encode put_uint32
  write_to-TakesAll a m s h =
      let short : leb max_msg_len (length m.payload) ≡ false = ground arith in
      rw short (ap Sent.sending (write_full-TakesAll w a _ _ s))

  pub write_interested-TakesAll :
      TakesAll w
      → (s : State)
      → (n : ℕ) × (t : State) × (write_interested w s ≡ Sent.sending (written n none t))
  unfolding write_interested
  write_interested-TakesAll a s = (_, _, write_to-TakesAll a _ s (omega arith))

  -- A request of a permitted length is sent too.
  pub write_request-TakesAll :
      TakesAll w
      → (b : Block) (s : State) → 0 < b.len
      → b.len ≤ max_block_size
      → (n : ℕ) × (t : State) × (write_request w b s
          ≡ Answer.sent (Sent.sending (written n none t)))
  unfolding write_request write_checked new_request put_uint32
  write_request-TakesAll a b s h k =
      let m : Message = record {
        id = message_request;
        payload = put_uint32 b.index ++ (put_uint32 b.begin ++ put_uint32 b.len);
      } in
      let made : new_request b ≡ ok m = ground arith in
      (
        _,
        _,
        ap (λ r. write_checked w r s) made ∙ ap Answer.sent (write_to-TakesAll a m s (omega arith)),
      )
