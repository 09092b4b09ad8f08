-- ===== src/Peer/Fetch/Quiet.antt =====
-- The steps of FetchPiece that send nothing.
use bittorrent_client.Base.{
  Bool, Flow, Option, Result, after, arith, done, err, fail, false, if◌then◌else◌, length, none, ok,
  pos, some, spent, suc, true, zero, ℕ, ◌&&◌, ◌==◌, ◌≡◌,
}
use bittorrent_client.Wire.Error.{WireError}
use bittorrent_client.Wire.Payload.{Piece, Block, parse_piece}
use bittorrent_client.Peer.Session.{session_has_piece}
use bittorrent_client.Peer.Fetch.{
  Caller, Scope, FetchError, World, check, watch_context, read_with_context, fail_io, accept,
  advertised, answer, deliver, delivered, unchoked,
}

module _ (c : Caller) where
  open c use {Sink}

  -- The call sends nothing.
  abbrev pub Quiet : {A : Type 0} → c.writer.State → Flow FetchError (World c) A → Type 0
  Quiet o (done a u) = u.out ≡ o
  Quiet o (fail e u) = Unit
  Quiet o spent = Unit

  pub after-Quiet :
      {A B : Type 0} (o : c.writer.State) (m : Flow FetchError (World c) A)
      (f : A → World c → Flow FetchError (World c) B)
      → Quiet o m
      → ((a : A) (u : World c) → u.out ≡ o → Quiet o (f a u))
      → Quiet o (after m f)
  after-Quiet o (done a u) f h k = k a u h
  after-Quiet o (fail e u) f h k = tt
  after-Quiet o spent f h k = tt

  if-Quiet :
      {A : Type 0} (o : c.writer.State) (b : Bool) (x y : Flow FetchError (World c) A)
      → Quiet o x
      → Quiet o y
      → Quiet o (if b then x else y)
  if-Quiet o true x y h k = h
  if-Quiet o false x y h k = k

  pub check-Quiet :
      (x : Scope) (o : c.writer.State) (v : World c) → v.out ≡ o → Quiet o (check c x v)
  unfolding check
  check-Quiet x o v e = ground arith

  read_with_context-Quiet :
      (x : Scope) (o : c.writer.State) (v : World c) → v.out ≡ o → Quiet o (read_with_context c x v)
  unfolding read_with_context fail_io
  read_with_context-Quiet x o v e = ground arith

  pub watch_context-Quiet :
      (x : Scope) (o : c.writer.State) (v : World c) → v.out ≡ o → Quiet o (watch_context c x v)
  unfolding watch_context
  watch_context-Quiet x o v e = ground arith

  pub advertised-Quiet :
      (fuel i : ℕ) (o : c.writer.State) (v : World c) → v.out ≡ o → Quiet o (advertised c fuel i v)
  unfolding advertised
  advertised-Quiet zero i o v e = tt
  advertised-Quiet (suc fuel) i o v e =
      if-Quiet o (session_has_piece v.link.session (pos i)) _ _ e (
        after-Quiet o (read_with_context c Scope.setup v) _
          (read_with_context-Quiet Scope.setup o v e)
          (λ m u q. ground (arith, advertised-Quiet fuel i o u q)))

  pub unchoked-Quiet :
      (fuel : ℕ) (o : c.writer.State) (v : World c) → v.out ≡ o → Quiet o (unchoked c fuel v)
  unfolding unchoked
  unchoked-Quiet zero o v e = tt
  unchoked-Quiet (suc fuel) o v e =
      if-Quiet o v.link.session.choked _ _
        (after-Quiet o (read_with_context c Scope.setup v) _
          (read_with_context-Quiet Scope.setup o v e)
          (λ m u q. ground (arith, unchoked-Quiet fuel o u q)))
        e

  delivered-Quiet :
      (r : Option ℕ × Sink) (o : c.writer.State) (v : World c)
      → v.out ≡ o
      → Quiet o (delivered c r v)
  unfolding delivered
  delivered-Quiet (none, s) o v e = e
  delivered-Quiet (some x, s) o v e = tt

  accept-Quiet :
      (b : Block) (r : Result WireError Piece) (o : c.writer.State) (v : World c)
      → v.out ≡ o
      → Quiet o (accept c b r v)
  unfolding accept deliver delivered
  accept-Quiet b (err x) o v e = tt
  accept-Quiet b (ok p) o v e =
      if-Quiet o (p.index == b.index && p.begin == b.begin && length p.block == b.len) _ _
        (after-Quiet o (check c (Scope.block b.begin) v) _ (check-Quiet (Scope.block b.begin) o v e)
          (λ _ u q. delivered-Quiet (c.on_block b.begin p.block u.sink) o u q))
        tt

  pub answer-Quiet :
      (fuel : ℕ) (b : Block) (o : c.writer.State) (v : World c)
      → v.out ≡ o
      → Quiet o (answer c fuel b v)
  unfolding answer
  answer-Quiet zero b o v e = tt
  answer-Quiet (suc fuel) b o v e =
      after-Quiet o (read_with_context c (Scope.block b.begin) v) _
        (read_with_context-Quiet (Scope.block b.begin) o v e)
        λ m u q. ground (arith, answer-Quiet fuel b o u q, accept-Quiet b (parse_piece m) o u q)
