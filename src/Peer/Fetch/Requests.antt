-- ===== src/Peer/Fetch/Requests.antt =====
-- What FetchPiece has sent when it succeeds: Interested, and one request for each block.
use bittorrent_client.Base.{
  Bool, Bool-cases, Flow, List, [], after, ap, append-nil, append_assoc, arith, done, fail, false,
  inl, inr, leb, ltb, ltb→lt, none, ok, refl, some, spent, subst, suc, sym, true, zero, ℕ, ◌%◌,
  ◌++◌, ◌+◌, ◌<◌, ◌==◌, ◌^◌, ◌∙◌, ◌≡◌, ◌≤◌,
}
use bittorrent_client.Wire.Message.{Message, Sent, encode, message_interested}
use bittorrent_client.Wire.Writer.{written, stalled}
use bittorrent_client.Wire.Payload.{Block, Answer, new_request}
use bittorrent_client.Wire.Payload.Sending.{
  Sends, Answers, write_interested-Sends, write_request-Answers,
}
use bittorrent_client.Peer.Fetch.{
  Caller, Scope, FetchError, PieceSpec, World, after_sent, after_answer, fail_io, wait_until_ready,
  rounds, blocks, fetch_block, block_at, fetch_checked, fetch_piece, send_interested, send_request,
}
use bittorrent_client.Peer.Fetch.Quiet.{
  Quiet, after-Quiet, check-Quiet, watch_context-Quiet, advertised-Quiet, unchoked-Quiet,
  answer-Quiet,
}

abbrev pub interested : Message
interested = record { id = message_interested; payload = [] }

module _ (c : Caller) where
  open c use {Sink}

  -- The call, which began with the writer `o`, has sent bytes of this kind if it ends well.
  abbrev pub Emits :
      {A : Type 0} → c.writer.State → (List ℕ → Type 0) → Flow FetchError (World c) A → Type 0
  Emits o P (done a u) =
      (bytes : List ℕ) × P bytes × (c.writer.sent u.out ≡ c.writer.sent o ++ bytes)
  Emits o P (fail e u) = Unit
  Emits o P spent = Unit

  -- Nothing, and then what the rest sends.
  silence_first-Emits :
      {A B : Type 0} (o : c.writer.State) (P : List ℕ → Type 0) (m : Flow FetchError (World c) A)
      (f : A → World c → Flow FetchError (World c) B)
      → Quiet c o m
      → ((a : A) (u : World c) → u.out ≡ o → Emits o P (f a u))
      → Emits o P (after m f)
  silence_first-Emits o P (done a u) f h k = k a u h
  silence_first-Emits o P (fail e u) f h k = tt
  silence_first-Emits o P spent f h k = tt

  -- What the call sends, and then nothing.
  silence_last-Emits :
      {A B : Type 0} (o : c.writer.State) (P : List ℕ → Type 0) (m : Flow FetchError (World c) A)
      (f : A → World c → Flow FetchError (World c) B)
      → Emits o P m
      → ((a : A) (u : World c) → Quiet c u.out (f a u))
      → Emits o P (after m f)
  silence_last-Emits {B = B} o P (done a u) f (bytes, p, e) k = still (f a u) (k a u)
    where
      still : (r : Flow FetchError (World c) B) → Quiet c u.out r → Emits o P r
      still (done b v) q = (bytes, p, ap c.writer.sent q ∙ e)
      still (fail x v) q = tt
      still spent q = tt
  silence_last-Emits o P (fail e u) f h k = tt
  silence_last-Emits o P spent f h k = tt

  -- Two sendings, one after the other.
  after-Emits :
      {A B : Type 0} (o : c.writer.State) (P Q R : List ℕ → Type 0)
      (m : Flow FetchError (World c) A) (f : A → World c → Flow FetchError (World c) B)
      → ((xs ys : List ℕ) → P xs → Q ys → R (xs ++ ys))
      → Emits o P m
      → ((a : A) (u : World c) → Emits u.out Q (f a u))
      → Emits o R (after m f)
  after-Emits {B = B} o P Q R (done a u) f join (xs, p, e) k = both (f a u) (k a u)
    where
      both : (r : Flow FetchError (World c) B) → Emits u.out Q r → Emits o R r
      both (done b v) (ys, q, d) =
          (xs ++ ys, join xs ys p q, d ∙ ap (λ l. l ++ ys) e ∙ append_assoc (c.writer.sent o) xs ys)
      both (fail x v) q = tt
      both spent q = tt
  after-Emits o P Q R (fail e u) f join h k = tt
  after-Emits o P Q R spent f join h k = tt

  after_sent-Emits :
      (x : Scope) (m : Message) (v : World c) (r : Sent c.writer)
      → Sends c.writer m v.out r
      → Emits v.out (λ bytes. bytes ≡ encode m) (after_sent c x v r)
  unfolding after_sent fail_io
  after_sent-Emits x m v (Sent.refused o) h = ground arith
  after_sent-Emits x m v (Sent.sending (written n none o)) h = (encode m, refl, h)
  after_sent-Emits x m v (Sent.sending (written n (some e) o)) h = ground arith
  after_sent-Emits x m v (Sent.sending stalled) h = tt

  -- The bytes of the request for a block.
  abbrev pub IsRequest : Block → List ℕ → Type 0
  IsRequest b bytes = (m : Message) × (new_request b ≡ ok m) × (bytes ≡ encode m)

  after_answer-Emits :
      (x : Scope) (b : Block) (v : World c) (r : Answer c.writer)
      → Answers c.writer (new_request b) v.out r
      → Emits v.out (IsRequest b) (after_answer c x v r)
  unfolding after_answer fail_io
  after_answer-Emits x b v (Answer.invalid e o) h = ground arith
  after_answer-Emits x b v (Answer.sent r) (m, same, h) =
      as_request (after_sent c x v r) (after_sent-Emits x m v r h)
    where
      as_request :
          (r : Flow FetchError (World c) (Unit {0}))
          → Emits v.out (λ bytes. bytes ≡ encode m) r
          → Emits v.out (IsRequest b) r
      as_request (done a u) (bytes, p, e) = (bytes, (m, same, p), e)
      as_request (fail y u) p = tt
      as_request spent p = tt

  -- The requests for the blocks of the piece from the offset on, each once and in order.
  pub data Requests (p : PieceSpec) : ℕ → List ℕ → Type 0 where
    all : {offset : ℕ} → offset ≡ p.len → Requests p offset []
    request :
        {offset : ℕ} {now later : List ℕ}
        → offset < p.len
        → IsRequest (block_at c p offset) now
        → Requests p (offset + (block_at c p offset).len) later
        → Requests p offset (now ++ later)

  fetch_block-Emits : (b : Block) (v : World c) → Emits v.out (IsRequest b) (fetch_block c b v)
  unfolding fetch_block send_request
  fetch_block-Emits b v =
      silence_first-Emits v.out _ _ _ (watch_context-Quiet c (Scope.block b.begin) v.out v refl)
        λ _ a p.
          silence_first-Emits v.out _ _ _ (check-Quiet c (Scope.block b.begin) v.out a p) λ _ d q.
            silence_last-Emits v.out _ _ _
              (subst (λ o. Emits o (IsRequest b) (send_request c b d)) q
                (after_answer-Emits (Scope.block b.begin) b d _
                  (write_request-Answers c.writer b d.out)))
              λ _ k. answer-Quiet c (rounds c k) b k.out k refl

  blocks-Emits :
      (fuel : ℕ) (p : PieceSpec) (offset : ℕ) (v : World c)
      → p.len < 2 ^ 32
      → offset ≤ p.len
      → Emits v.out (Requests p offset) (blocks c fuel p offset v)
  unfolding blocks
  blocks-Emits zero p offset v s h = tt
  blocks-Emits (suc fuel) p offset v s h = elim (Bool-cases (ltb offset p.len)) [
    | inr end ↦ rw end ([], all (ground arith), sym (append-nil (c.writer.sent v.out)))
    | inl more ↦
        let below : offset < p.len = ltb→lt offset p.len more in
        let next : (offset + (block_at c p offset).len) % 2 ^ 32
            ≡ offset + (block_at c p offset).len =
          omega arith in
        rw more (
          after-Emits v.out (IsRequest (block_at c p offset))
            (Requests p (offset + (block_at c p offset).len)) (Requests p offset)
            (fetch_block c (block_at c p offset) v) _ (λ xs ys now later. request below now later)
            (fetch_block-Emits (block_at c p offset) v)
            λ _ u.
              subst
                (λ (k : ℕ).
                  Emits u.out (Requests p (offset + (block_at c p offset).len))
                    (blocks c fuel p k u))
                (sym next)
                (blocks-Emits fuel p (offset + (block_at c p offset).len) u s (omega arith)))
  ]

  wait_until_ready-Emits :
      (i : ℕ) (v : World c)
      → Emits v.out (λ bytes. bytes ≡ encode interested) (wait_until_ready c i v)
  unfolding wait_until_ready send_interested
  wait_until_ready-Emits i v =
      silence_first-Emits v.out _ _ _ (watch_context-Quiet c Scope.setup v.out v refl) λ _ a p.
        silence_first-Emits v.out _ _ _ (advertised-Quiet c (rounds c a) i v.out a p) λ _ d q.
          silence_last-Emits v.out _ _ _
            (subst (λ o. Emits o (λ bytes. bytes ≡ encode interested) (send_interested c d)) q
              (after_sent-Emits Scope.setup interested d _ (write_interested-Sends c.writer d.out)))
            λ _ k.
              after-Quiet c k.out _ _ (unchoked-Quiet c (rounds c k) k.out k refl)
                λ _ u e. check-Quiet c Scope.setup k.out u e

  -- Interested and then the requests for the whole piece.
  abbrev pub Asks : PieceSpec → List ℕ → Type 0
  Asks p bytes = (later : List ℕ) × Requests p 0 later × (bytes ≡ encode interested ++ later)

  checked-Emits :
      (p : PieceSpec) (v : World c) → p.len < 2 ^ 32 → Emits v.out (Asks p) (fetch_checked c p v)
  unfolding fetch_checked
  checked-Emits p v s =
      silence_first-Emits v.out _ _ _ (check-Quiet c Scope.whole v.out v refl) λ _ a q.
        after-Emits v.out (λ bytes. bytes ≡ encode interested) (Requests p 0) (Asks p)
          (wait_until_ready c p.index a) _ (λ xs ys e later. (ys, later, ap (λ l. l ++ ys) e))
          (subst (λ o. Emits o (λ bytes. bytes ≡ encode interested) (wait_until_ready c p.index a))
            q (wait_until_ready-Emits p.index a))
          λ _ u. blocks-Emits (suc p.len) p 0 u s (omega arith)

  -- When FetchPiece reports success on a piece below 4 GiB, the peer got Interested and then one
  -- request for each block of the piece, in order from offset 0 to the length, each of 16 KiB at
  -- most, and nothing else.
  pub fetch_piece-Asks :
      (has_context has_callback : Bool) (p : PieceSpec) (v u : World c) (a : Unit {0})
      → p.len < 2 ^ 32
      → fetch_piece c has_context has_callback p v ≡ done a u
      → (bytes : List ℕ) × Asks p bytes × (c.writer.sent u.out ≡ c.writer.sent v.out ++ bytes)
  unfolding fetch_piece
  fetch_piece-Asks false k p v u a s e = absurd (ground arith)
  fetch_piece-Asks true false p v u a s e = absurd (ground arith)
  fetch_piece-Asks true true p v u a s e =
      elim (Bool-cases (leb v.link.session.piece_count p.index)) [
        | inl out ↦ absurd (ground arith)
        | inr inside ↦ elim (Bool-cases (p.len == 0)) [
          | inl empty ↦ absurd (ground arith)
          | inr some_bytes ↦
              let same : fetch_checked c p v ≡ done a u = ground arith in
              subst (Emits v.out (Asks p)) same (checked-Emits p v s)
        ]
      ]
