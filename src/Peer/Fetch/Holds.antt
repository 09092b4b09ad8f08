-- ===== src/Peer/Fetch/Holds.antt =====
-- What the callback keeps, FetchPiece keeps, on every outcome.
use bittorrent_client.Base.{
  Bool, Flow, List, Option, Result, after, arith, done, err, fail, false, if◌then◌else◌, leb,
  length, ltb, none, not, ok, pos, some, spent, suc, true, zero, ℕ, ◌&&◌, ◌==◌,
}
use bittorrent_client.Wire.Error.{WireError}
use bittorrent_client.Wire.Message.{Message, Sent, write_interested}
use bittorrent_client.Wire.Writer.{written, stalled}
use bittorrent_client.Wire.Payload.{Piece, Block, Answer, write_request, parse_piece}
use bittorrent_client.Peer.Session.{session_has_piece, Link, SessionError, read}
use bittorrent_client.Peer.Fetch.{
  Caller, Scope, FetchError, PieceSpec, World, check, watch_context, read_with_context, after_sent,
  after_answer, fail_io, wait_until_ready, rounds, blocks, fetch_block, block_at, fetch_checked,
  fetch_piece, send_interested, send_request, accept, advertised, after_read, answer, deliver,
  delivered, prefer, start_watch, unchoked, verdict,
}

module _ (c : Caller) (Q : c.Sink → Type 0) where
  -- The state that the callback is left in.
  abbrev pub Holds : {A : Type 0} → Flow FetchError (World c) A → Type 0
  Holds (done a u) = Q u.sink
  Holds (fail e u) = Q u.sink
  Holds spent = Unit

module _ (c : Caller) (Q : c.Sink → Type 0)
    (kept : (offset : ℕ) (bytes : List ℕ) (s : c.Sink)
      → Q s
      → Q (c.on_block offset bytes s).1) where
  open c use {Sink, on_block}

  abbrev Kept : {A : Type 0} → Flow FetchError (World c) A → Type 0
  Kept r = Holds c Q r

  after-Holds :
      {A B : Type 0} (m : Flow FetchError (World c) A)
      (f : A → World c → Flow FetchError (World c) B)
      → Kept m
      → ((a : A) (u : World c) → Q u.sink → Kept (f a u))
      → Kept (after m f)
  after-Holds (done a u) f h k = k a u h
  after-Holds (fail e u) f h k = h
  after-Holds spent f h k = tt

  if-Holds :
      {A : Type 0} (b : Bool) (x y : Flow FetchError (World c) A)
      → Kept x
      → Kept y
      → Kept (if b then x else y)
  if-Holds true x y h k = h
  if-Holds false x y h k = k

  verdict-Holds : (o : Option ℕ) (v : World c) → Q v.sink → Kept (verdict c o v)
  unfolding verdict
  verdict-Holds none v h = h
  verdict-Holds (some e) v h = h

  check-Holds : (x : Scope) (v : World c) → Q v.sink → Kept (check c x v)
  unfolding check
  check-Holds x v h = verdict-Holds (c.context x v.looks) _ h

  prefer-Holds :
      (A : Type 0) (o : Option ℕ) (e : FetchError) (v : World c)
      → Q v.sink
      → Kept (prefer c {A = A} o e v)
  unfolding prefer
  prefer-Holds A none e v h = h
  prefer-Holds A (some x) e v h = h

  failed-Holds :
      (A : Type 0) (x : Scope) (e : FetchError) (v : World c)
      → Q v.sink
      → Kept (fail_io c {A = A} x e v)
  unfolding fail_io
  failed-Holds A x e v h = prefer-Holds A (c.context x v.looks) e _ h

  after_read-Holds :
      (x : Scope) (v : World c) (r : Flow SessionError Link Message)
      → Q v.sink
      → Kept (after_read c x v r)
  unfolding after_read
  after_read-Holds x v (done m l) h = h
  after_read-Holds x v (fail e l) h = failed-Holds Message x _ _ h
  after_read-Holds x v spent h = tt

  read_with_context-Holds : (x : Scope) (v : World c) → Q v.sink → Kept (read_with_context c x v)
  unfolding read_with_context
  read_with_context-Holds x v h = after_read-Holds x v (read v.link) h

  start_watch-Holds : (o : Option ℕ) (v : World c) → Q v.sink → Kept (start_watch c o v)
  unfolding start_watch
  start_watch-Holds none v h = h
  start_watch-Holds (some e) v h = h

  watch_context-Holds : (x : Scope) (v : World c) → Q v.sink → Kept (watch_context c x v)
  unfolding watch_context
  watch_context-Holds x v h = start_watch-Holds (c.watch x) v h

  after_sent-Holds :
      (x : Scope) (v : World c) (r : Sent c.writer) → Q v.sink → Kept (after_sent c x v r)
  unfolding after_sent
  after_sent-Holds x v (Sent.refused o) h = failed-Holds (Unit {0}) x _ _ h
  after_sent-Holds x v (Sent.sending (written n none o)) h = h
  after_sent-Holds x v (Sent.sending (written n (some e) o)) h = failed-Holds (Unit {0}) x _ _ h
  after_sent-Holds x v (Sent.sending stalled) h = tt

  after_answer-Holds :
      (x : Scope) (v : World c) (r : Answer c.writer) → Q v.sink → Kept (after_answer c x v r)
  unfolding after_answer
  after_answer-Holds x v (Answer.invalid e o) h = failed-Holds (Unit {0}) x _ _ h
  after_answer-Holds x v (Answer.sent r) h = after_sent-Holds x v r h

  advertised-Holds : (fuel i : ℕ) (v : World c) → Q v.sink → Kept (advertised c fuel i v)
  unfolding advertised
  advertised-Holds zero i v h = tt
  advertised-Holds (suc fuel) i v h = if-Holds (session_has_piece v.link.session (pos i)) _ _ h (
      after-Holds (read_with_context c Scope.setup v) _ (read_with_context-Holds Scope.setup v h)
        (λ m u q. ground (arith, advertised-Holds fuel i u q)))

  unchoked-Holds : (fuel : ℕ) (v : World c) → Q v.sink → Kept (unchoked c fuel v)
  unfolding unchoked
  unchoked-Holds zero v h = tt
  unchoked-Holds (suc fuel) v h =
      if-Holds v.link.session.choked _ _
        (after-Holds (read_with_context c Scope.setup v) _ (read_with_context-Holds Scope.setup v h)
          (λ m u q. ground (arith, unchoked-Holds fuel u q)))
        h

  wait_until_ready-Holds : (i : ℕ) (v : World c) → Q v.sink → Kept (wait_until_ready c i v)
  unfolding wait_until_ready send_interested
  wait_until_ready-Holds i v h = after-Holds _ _ (watch_context-Holds Scope.setup v h) λ _ a p.
      after-Holds _ _ (advertised-Holds (rounds c a) i a p) λ _ b q.
        after-Holds _ _ (after_sent-Holds Scope.setup b (write_interested c.writer b.out) q)
          λ _ d r.
            after-Holds _ _ (unchoked-Holds (rounds c d) d r) λ _ k t. check-Holds Scope.setup k t

  delivered-Holds : (r : Option ℕ × Sink) (v : World c) → Q r.1 → Q v.sink → Kept (delivered c r v)
  unfolding delivered
  delivered-Holds (none, s) v h q = h
  delivered-Holds (some e, s) v h q = h

  accept-Holds :
      (b : Block) (r : Result WireError Piece) (v : World c) → Q v.sink → Kept (accept c b r v)
  unfolding accept deliver
  accept-Holds b (err x) v h = h
  accept-Holds b (ok p) v h =
      if-Holds (p.index == b.index && p.begin == b.begin && length p.block == b.len) _ _
        (after-Holds (check c (Scope.block b.begin) v) _ (check-Holds (Scope.block b.begin) v h)
          λ _ u q.
            delivered-Holds (on_block b.begin p.block u.sink) u (kept b.begin p.block u.sink q) q)
        h

  answer-Holds : (fuel : ℕ) (b : Block) (v : World c) → Q v.sink → Kept (answer c fuel b v)
  unfolding answer
  answer-Holds zero b v h = tt
  answer-Holds (suc fuel) b v h =
      after-Holds (read_with_context c (Scope.block b.begin) v) _
        (read_with_context-Holds (Scope.block b.begin) v h)
        λ m u q. ground (arith, answer-Holds fuel b u q, accept-Holds b (parse_piece m) u q)

  fetch_block-Holds : (b : Block) (v : World c) → Q v.sink → Kept (fetch_block c b v)
  unfolding fetch_block send_request
  fetch_block-Holds b v h = after-Holds _ _ (watch_context-Holds (Scope.block b.begin) v h) λ _ a p.
      after-Holds _ _ (check-Holds (Scope.block b.begin) a p) λ _ d q.
        after-Holds _ _
          (after_answer-Holds (Scope.block b.begin) d (write_request c.writer b d.out) q)
          λ _ k r. answer-Holds (rounds c k) b k r

  blocks-Holds :
      (fuel : ℕ) (p : PieceSpec) (offset : ℕ) (v : World c)
      → Q v.sink
      → Kept (blocks c fuel p offset v)
  unfolding blocks
  blocks-Holds zero p offset v h = tt
  blocks-Holds (suc fuel) p offset v h =
      if-Holds (ltb offset p.len) _ _
        (after-Holds (fetch_block c (block_at c p offset) v) _
          (fetch_block-Holds (block_at c p offset) v h) λ _ u q. blocks-Holds fuel p _ u q)
        h

  -- What every call of the callback keeps holds of its state after FetchPiece, whether that ends
  -- well or with an error.
  pub fetch_piece-Holds :
      (has_context has_callback : Bool) (p : PieceSpec) (v : World c)
      → Q v.sink
      → Holds c Q (fetch_piece c has_context has_callback p v)
  unfolding fetch_piece fetch_checked
  fetch_piece-Holds has_context has_callback p v h = if-Holds (not has_context) _ _ h (
      if-Holds (not has_callback) _ _ h (
        if-Holds (leb v.link.session.piece_count p.index) _ _ h (
          if-Holds (p.len == 0) _ _ h (
            after-Holds _ _ (check-Holds Scope.whole v h) λ _ a q.
              after-Holds _ _ (wait_until_ready-Holds p.index a q)
                λ _ u r. blocks-Holds (suc p.len) p 0 u r))))
