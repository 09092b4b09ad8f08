-- ===== src/Peer/Fetch/Taken.antt =====
-- Where the blocks that FetchPiece gives the callback come from: Piece messages of the peer.
use bittorrent_client.Base.{
  All-append_left, All-append_right, Bool, Bool-cases, Flow, Leads, List, Option, Result,
  after-Leads, ap, append_assoc, ap₂, arith, done, err, fail, false, if◌then◌else◌, inl, inr,
  length, none, ok, pos, refl, some, spent, subst, suc, sym, true, zero, ℕ, ◌&&◌, ◌++◌, ◌<◌, ◌==◌,
  ◌∙◌, ◌≡◌,
}
use bittorrent_client.Wire.Endian.{IsBytes, put_uint32}
use bittorrent_client.Wire.Error.{WireError}
use bittorrent_client.Wire.Message.{Message, Sent, encode, write_interested}
use bittorrent_client.Wire.Payload.{Answer, Block, Piece, parse_piece, write_request}
use bittorrent_client.Wire.Payload.Blocks.{parse_piece-message, piece_message}
use bittorrent_client.Wire.Writer.{written, stalled}
use bittorrent_client.Peer.Session.{Link, SessionError, read, session_has_piece}
use bittorrent_client.Peer.Session.Heard.{Heard, read-Heard}
use bittorrent_client.Peer.Fetch.{
  Caller, FetchError, Scope, World, accept, advertised, after_answer, after_read, after_sent,
  answer, check, deliver, delivered, fail_io, fetch_block, read_with_context, rounds,
  send_interested, send_request, unchoked, wait_until_ready, watch_context,
}

encoded-IsBytes : (m : Message) → IsBytes (encode m) → IsBytes m.payload
unfolding encode put_uint32
encoded-IsBytes m h = h.1.1.1.1.1

module _ (c : Caller) where
  open c use {Sink, on_block}

  module _ (s : Sink) (bs : List ℕ) (all : IsBytes bs) where
    -- The callback's state is still `s`, and what is to be read is the end of `bs`.
    abbrev pub At : World c → Type 0
    At u = (u.sink ≡ s) × ((before : List ℕ) × (bs ≡ before ++ u.link.input.bytes))

    -- The message stood before that.
    abbrev Hears : Message → World c → Type 0
    Hears m u =
        (u.sink ≡ s) × ((before : List ℕ) × (bs ≡ before ++ (encode m ++ u.link.input.bytes)))

    abbrev Any : FetchError → World c → Type 0
    Any e u = Unit

    abbrev pub Stays : {A : Type 0} → Flow FetchError (World c) A → Type 0
    Stays m = Leads (λ _ u. At u) Any m

    Hears-At : (m : Message) (u : World c) → Hears m u → At u
    Hears-At m u (e, (before, h)) =
        (e, (before ++ encode m, h ∙ sym (append_assoc before (encode m) u.link.input.bytes)))

    pub check-Stays : (x : Scope) (v : World c) → At v → Stays (check c x v)
    unfolding check
    check-Stays x v h = ground (arith, h)

    watch_context-Stays : (x : Scope) (v : World c) → At v → Stays (watch_context c x v)
    unfolding watch_context
    watch_context-Stays x v h = ground (arith, h)

    after_sent-Stays :
        (x : Scope) (v : World c) (r : Sent c.writer) → At v → Stays (after_sent c x v r)
    unfolding after_sent fail_io
    after_sent-Stays x v (Sent.refused o) h = ground arith
    after_sent-Stays x v (Sent.sending (written n none o)) h = h
    after_sent-Stays x v (Sent.sending (written n (some e) o)) h = ground arith
    after_sent-Stays x v (Sent.sending stalled) h = tt

    after_answer-Stays :
        (x : Scope) (v : World c) (r : Answer c.writer) → At v → Stays (after_answer c x v r)
    unfolding after_answer fail_io
    after_answer-Stays x v (Answer.invalid e o) h = ground arith
    after_answer-Stays x v (Answer.sent r) h = after_sent-Stays x v r h

    after_read-Hears :
        (x : Scope) (v : World c) (r : Flow SessionError Link Message)
        → At v
        → Heard v.link.input.bytes r
        → Leads Hears Any (after_read c x v r)
    unfolding after_read fail_io
    after_read-Hears x v (done m l) (e, (before, h)) (skipped, g) = (
      e,
      (
        before ++ skipped,
        h ∙ ap (λ t. before ++ t) g ∙ sym (append_assoc before skipped (encode m ++ l.input.bytes)),
      ),
    )
    after_read-Hears x v (fail e l) h g = ground arith
    after_read-Hears x v spent h g = tt

    read_with_context-Hears :
        (x : Scope) (v : World c) → At v → Leads Hears Any (read_with_context c x v)
    unfolding read_with_context
    read_with_context-Hears x v h = after_read-Hears x v (read v.link) h (
        read-Heard v.link
          (All-append_right (λ b. b < 256) h.1.0 v.link.input.bytes (subst IsBytes h.1.1 all)))

    if-Leads :
        {A : Type 0} (D : A → World c → Type 0) (b : Bool) (x y : Flow FetchError (World c) A)
        → Leads D Any x
        → Leads D Any y
        → Leads D Any (if b then x else y)
    if-Leads D true x y h k = h
    if-Leads D false x y h k = k

    advertised-Stays : (fuel i : ℕ) (v : World c) → At v → Stays (advertised c fuel i v)
    unfolding advertised
    advertised-Stays zero i v h = tt
    advertised-Stays (suc fuel) i v h =
        if-Leads (λ _ u. At u) (session_has_piece v.link.session (pos i)) _ _ h
          (after-Leads Hears (λ _ u. At u) Any (read_with_context c Scope.setup v) _
            (read_with_context-Hears Scope.setup v h)
            (λ m u q. ground (arith, advertised-Stays fuel i u (Hears-At m u q))))

    unchoked-Stays : (fuel : ℕ) (v : World c) → At v → Stays (unchoked c fuel v)
    unfolding unchoked
    unchoked-Stays zero v h = tt
    unchoked-Stays (suc fuel) v h =
        if-Leads (λ _ u. At u) v.link.session.choked _ _
          (after-Leads Hears (λ _ u. At u) Any (read_with_context c Scope.setup v) _
            (read_with_context-Hears Scope.setup v h)
            (λ m u q. ground (arith, unchoked-Stays fuel u (Hears-At m u q))))
          h

    pub wait_until_ready-Stays : (i : ℕ) (v : World c) → At v → Stays (wait_until_ready c i v)
    unfolding wait_until_ready send_interested
    wait_until_ready-Stays i v h =
        after-Leads (λ _ u. At u) (λ _ u. At u) Any _ _ (watch_context-Stays Scope.setup v h)
          λ _ a h.
            after-Leads (λ _ u. At u) (λ _ u. At u) Any _ _ (advertised-Stays (rounds c a) i a h)
              λ _ b h.
                after-Leads (λ _ u. At u) (λ _ u. At u) Any _ _
                  (after_sent-Stays Scope.setup b (write_interested c.writer b.out) h)
                  λ _ d h.
                    after-Leads (λ _ u. At u) (λ _ u. At u) Any _ _
                      (unchoked-Stays (rounds c d) d h) λ _ k h. check-Stays Scope.setup k h

    -- The callback took the bytes of the Piece message that answers the request; it stood on the
    -- connection, and what is to be read follows it.
    abbrev pub Takes : Block → World c → Type 0
    Takes b u =
        (bytes before : List ℕ) × (bs
          ≡ before
            ++ (encode (piece_message (record { index = b.index; begin = b.begin; block = bytes }))
                ++ u.link.input.bytes))
        × (length bytes ≡ b.len)
        × (on_block b.begin bytes s ≡ (none, u.sink))

    delivered-Takes :
        (b : Block) (p : Piece) (v : World c) (r : Option ℕ × Sink)
        → p.index ≡ b.index
        → p.begin ≡ b.begin
        → length p.block ≡ b.len
        → Hears (piece_message p) v
        → on_block b.begin p.block v.sink ≡ r
        → Leads (λ _ u. Takes b u) Any (delivered c r v)
    unfolding delivered
    delivered-Takes b p v (none, t) i o l (e, (before, h)) q = (
      p.block,
      before,
      h
          ∙ ap₂
              (λ x y.
                before
                ++ (encode (piece_message (record { index = x; begin = y; block = p.block }))
                    ++ v.link.input.bytes))
              i o,
      l,
      ap (on_block b.begin p.block) (sym e) ∙ q,
    )
    delivered-Takes b p v (some x, t) i o l h q = tt

    -- The check of the context leaves the connection alone.
    check-Hears :
        (m : Message) (x : Scope) (v : World c)
        → Hears m v
        → Leads (λ _ u. Hears m u) Any (check c x v)
    unfolding check
    check-Hears m x v h = ground (arith, h)

    matched :
        (b : Block) (p : Piece)
        → (p.index == b.index && p.begin == b.begin && length p.block == b.len) ≡ true
        → (p.index ≡ b.index) × (p.begin ≡ b.begin) × (length p.block ≡ b.len)
    matched b p h = (ground arith, ground arith, ground arith)

    accept-Takes :
        (b : Block) (m : Message) (r : Result WireError Piece) (v : World c)
        → parse_piece m ≡ r
        → Hears m v
        → Leads (λ _ u. Takes b u) Any (accept c b r v)
    unfolding accept deliver
    accept-Takes b m (err x) v e h = tt
    accept-Takes b m (ok p) v e h =
        elim (Bool-cases (p.index == b.index && p.begin == b.begin && length p.block == b.len)) [
          | inr other ↦ rw other tt
          | inl match ↦
              let (i, o, l) = matched b p match in
              let suffix : IsBytes (encode m ++ v.link.input.bytes) =
                All-append_right (λ x. x < 256) (h.1.0) (encode m ++ v.link.input.bytes)
                  (subst IsBytes (h.1.1) all) in
              let payload : IsBytes m.payload =
                encoded-IsBytes m
                  (All-append_left (λ x. x < 256) (encode m) v.link.input.bytes suffix) in
              let heard : Hears (piece_message p) v =
                subst (λ x. Hears x v) (parse_piece-message m p payload e) h in
              rw match (
                after-Leads (λ _ u. Hears (piece_message p) u) (λ _ u. Takes b u) Any _ _
                  (check-Hears (piece_message p) (Scope.block b.begin) v heard)
                  (λ _ u g. delivered-Takes b p u (on_block b.begin p.block u.sink) i o l g refl))
        ]

    answer-Takes :
        (fuel : ℕ) (b : Block) (v : World c)
        → At v
        → Leads (λ _ u. Takes b u) Any (answer c fuel b v)
    unfolding answer
    answer-Takes zero b v h = tt
    answer-Takes (suc fuel) b v h =
        after-Leads Hears (λ _ u. Takes b u) Any (read_with_context c (Scope.block b.begin) v) _
          (read_with_context-Hears (Scope.block b.begin) v h)
          (λ m u q. ground (
            arith,
            answer-Takes fuel b u (Hears-At m u q),
            accept-Takes b m (parse_piece m) u refl q,
          ))

    pub fetch_block-Takes :
        (b : Block) (v : World c) → At v → Leads (λ _ u. Takes b u) Any (fetch_block c b v)
    unfolding fetch_block send_request
    fetch_block-Takes b v h =
        after-Leads (λ _ u. At u) (λ _ u. Takes b u) Any _ _
          (watch_context-Stays (Scope.block b.begin) v h)
          λ _ a h.
            after-Leads (λ _ u. At u) (λ _ u. Takes b u) Any _ _
              (check-Stays (Scope.block b.begin) a h)
              λ _ d h.
                after-Leads (λ _ u. At u) (λ _ u. Takes b u) Any _ _
                  (after_answer-Stays (Scope.block b.begin) d (write_request c.writer b d.out) h)
                  λ _ k h. answer-Takes (rounds c k) b k h
