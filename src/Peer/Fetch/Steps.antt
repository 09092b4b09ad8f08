-- ===== src/Peer/Fetch/Steps.antt =====
-- What each step of FetchPiece gives the callback: nothing, or the one block that was requested.
use bittorrent_client.Base.{
  Bool, Bool-cases, Flow, List, Option, Result, after, arith, done, err, fail, false, if◌then◌else◌,
  inl, inr, length, none, ok, pos, refl, some, spent, subst, suc, true, zero, ℕ, ◌&&◌, ◌==◌, ◌≡◌,
}
use bittorrent_client.Wire.Message.{Sent, write_interested}
use bittorrent_client.Wire.Writer.{written, stalled}
use bittorrent_client.Wire.Payload.{Answer, Block, Piece, parse_piece, write_request}
use bittorrent_client.Wire.Error.{WireError}
use bittorrent_client.Peer.Session.{session_has_piece}
use bittorrent_client.Peer.Fetch.{
  Caller, Scope, FetchError, World, check, after_answer, after_sent, fail_io, read_with_context,
  watch_context, accept, advertised, answer, deliver, delivered, fetch_block, rounds,
  send_interested, send_request, unchoked, wait_until_ready,
}

module _ (c : Caller) where
  open c use {Sink, on_block, context}

  -- The call leaves the callback's state alone.
  abbrev pub Keeps : {A : Type 0} → Sink → Flow FetchError (World c) A → Type 0
  Keeps s (done a u) = u.sink ≡ s
  Keeps s (fail e u) = Unit
  Keeps s spent = Unit

  after-Keeps :
      {A B : Type 0} (s : Sink) (m : Flow FetchError (World c) A)
      (f : A → World c → Flow FetchError (World c) B)
      → Keeps s m
      → ((a : A) (u : World c) → u.sink ≡ s → Keeps s (f a u))
      → Keeps s (after m f)
  after-Keeps s (done a u) f h k = k a u h
  after-Keeps s (fail e u) f h k = tt
  after-Keeps s spent f h k = tt

  if-Keeps :
      {A : Type 0} (s : Sink) (b : Bool) (x y : Flow FetchError (World c) A)
      → Keeps s x
      → Keeps s y
      → Keeps s (if b then x else y)
  if-Keeps s true x y h k = h
  if-Keeps s false x y h k = k

  pub check-Keeps : (x : Scope) (v : World c) → Keeps v.sink (check c x v)
  unfolding check
  check-Keeps x v = ground arith

  read_with_context-Keeps : (x : Scope) (v : World c) → Keeps v.sink (read_with_context c x v)
  unfolding read_with_context fail_io
  read_with_context-Keeps x v = ground arith

  watch_context-Keeps : (x : Scope) (v : World c) → Keeps v.sink (watch_context c x v)
  unfolding watch_context
  watch_context-Keeps x v = ground arith

  after_sent-Keeps :
      (x : Scope) (v : World c) (r : Sent c.writer) → Keeps v.sink (after_sent c x v r)
  unfolding after_sent fail_io
  after_sent-Keeps x v (Sent.refused o) = ground arith
  after_sent-Keeps x v (Sent.sending (written n none o)) = refl
  after_sent-Keeps x v (Sent.sending (written n (some e) o)) = ground arith
  after_sent-Keeps x v (Sent.sending stalled) = tt

  after_answer-Keeps :
      (x : Scope) (v : World c) (r : Answer c.writer) → Keeps v.sink (after_answer c x v r)
  unfolding after_answer fail_io
  after_answer-Keeps x v (Answer.invalid e o) = ground arith
  after_answer-Keeps x v (Answer.sent r) = after_sent-Keeps x v r

  advertised-Keeps :
      (fuel i : ℕ) (s : Sink) (v : World c) → v.sink ≡ s → Keeps s (advertised c fuel i v)
  unfolding advertised
  advertised-Keeps zero i s v e = tt
  advertised-Keeps (suc fuel) i s v e =
      if-Keeps s (session_has_piece v.link.session (pos i)) _ _ e (
        after-Keeps s (read_with_context c Scope.setup v) _
          (subst (λ x. Keeps x (read_with_context c Scope.setup v)) e
            (read_with_context-Keeps Scope.setup v))
          (λ m u q. ground (arith, advertised-Keeps fuel i s u q)))

  unchoked-Keeps : (fuel : ℕ) (s : Sink) (v : World c) → v.sink ≡ s → Keeps s (unchoked c fuel v)
  unfolding unchoked
  unchoked-Keeps zero s v e = tt
  unchoked-Keeps (suc fuel) s v e =
      if-Keeps s v.link.session.choked _ _
        (after-Keeps s (read_with_context c Scope.setup v) _
          (subst (λ x. Keeps x (read_with_context c Scope.setup v)) e
            (read_with_context-Keeps Scope.setup v))
          (λ m u q. ground (arith, unchoked-Keeps fuel s u q)))
        e

  -- The setup gives the callback nothing.
  pub wait_until_ready-Keeps : (i : ℕ) (v : World c) → Keeps v.sink (wait_until_ready c i v)
  unfolding wait_until_ready send_interested
  wait_until_ready-Keeps i v = after-Keeps v.sink _ _ (watch_context-Keeps Scope.setup v) λ _ a p.
      after-Keeps v.sink _ _ (advertised-Keeps (rounds c a) i v.sink a p) λ _ b q.
        after-Keeps v.sink _ _
          (subst (λ x. Keeps x (send_interested c b)) q
            (after_sent-Keeps Scope.setup b (write_interested c.writer b.out)))
          λ _ d r.
            after-Keeps v.sink _ _ (unchoked-Keeps (rounds c d) v.sink d r)
              λ _ k t. subst (λ x. Keeps x (check c Scope.setup k)) t (check-Keeps Scope.setup k)

  -- One block of the request, and the callback took it.
  abbrev pub Gives : {A : Type 0} → Block → Sink → Flow FetchError (World c) A → Type 0
  Gives b s (done a u) =
      (bytes : List ℕ) × (length bytes ≡ b.len) × (on_block b.begin bytes s ≡ (none, u.sink))
  Gives b s (fail e u) = Unit
  Gives b s spent = Unit

  after-Gives :
      {A B : Type 0} (b : Block) (s : Sink) (m : Flow FetchError (World c) A)
      (f : A → World c → Flow FetchError (World c) B)
      → Keeps s m
      → ((a : A) (u : World c) → u.sink ≡ s → Gives b s (f a u))
      → Gives b s (after m f)
  after-Gives b s (done a u) f h k = k a u h
  after-Gives b s (fail e u) f h k = tt
  after-Gives b s spent f h k = tt

  delivered-Gives :
      (b : Block) (bytes : List ℕ) (v : World c) (r : Option ℕ × Sink)
      → length bytes ≡ b.len
      → on_block b.begin bytes v.sink ≡ r
      → Gives b v.sink (delivered c r v)
  unfolding delivered
  delivered-Gives b bytes v (none, s) e q = (bytes, e, q)
  delivered-Gives b bytes v (some x, s) e q = tt

  accept-Gives :
      (b : Block) (r : Result WireError Piece) (s : Sink) (v : World c)
      → v.sink ≡ s
      → Gives b s (accept c b r v)
  unfolding accept deliver
  accept-Gives b (err x) s v e = tt
  accept-Gives b (ok p) s v e =
      elim (Bool-cases (p.index == b.index && p.begin == b.begin && length p.block == b.len)) [
        | inl match ↦ rw match (
            after-Gives b s (check c (Scope.block b.begin) v) _
              (subst (λ x. Keeps x (check c (Scope.block b.begin) v)) e
                (check-Keeps (Scope.block b.begin) v))
              (λ _ u q.
                subst (λ x. Gives b x (deliver c b.begin p.block u)) q
                  (delivered-Gives b p.block u (on_block b.begin p.block u.sink) (ground arith)
                    refl)))
        | inr other ↦ rw other tt
      ]

  answer-Gives :
      (fuel : ℕ) (b : Block) (s : Sink) (v : World c) → v.sink ≡ s → Gives b s (answer c fuel b v)
  unfolding answer
  answer-Gives zero b s v e = tt
  answer-Gives (suc fuel) b s v e =
      after-Gives b s (read_with_context c (Scope.block b.begin) v) _
        (subst (λ x. Keeps x (read_with_context c (Scope.block b.begin) v)) e
          (read_with_context-Keeps (Scope.block b.begin) v))
        λ m u q. ground (arith, answer-Gives fuel b s u q, accept-Gives b (parse_piece m) s u q)

  pub fetch_block-Gives : (b : Block) (v : World c) → Gives b v.sink (fetch_block c b v)
  unfolding fetch_block send_request
  fetch_block-Gives b v =
      after-Gives b v.sink _ _ (watch_context-Keeps (Scope.block b.begin) v) λ _ a p.
        after-Gives b v.sink _ _
          (subst (λ x. Keeps x (check c (Scope.block b.begin) a)) p
            (check-Keeps (Scope.block b.begin) a))
          λ _ d q.
            after-Gives b v.sink _ _
              (subst (λ x. Keeps x (send_request c b d)) q
                (after_answer-Keeps (Scope.block b.begin) d (write_request c.writer b d.out)))
              λ _ k r. answer-Gives (rounds c k) b v.sink k r
