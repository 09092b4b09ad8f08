-- ===== src/Peer/Fetch/Ends.antt =====
-- The steps of FetchPiece between its loops: each returns and takes what it reads off the input.
use bittorrent_client.Base.{
  Bool, Flow, Result, after, arith, done, fail, false, if◌then◌else◌, length, none, some, spent,
  true, ℕ, ◌<◌, ◌≤◌,
}
use bittorrent_client.Wire.Endian.{IsBytes}
use bittorrent_client.Wire.Error.{WireError}
use bittorrent_client.Wire.Message.{Message, Sent}
use bittorrent_client.Wire.Writer.{written, stalled}
use bittorrent_client.Wire.Payload.{Answer}
use bittorrent_client.Wire.Payload.Sending.{Sends, Answers}
use bittorrent_client.Peer.Session.{SessionError, Link, read}
use bittorrent_client.Peer.Session.Shorter.{Shorter, read-Shorter}
use bittorrent_client.Peer.Fetch.{
  Caller, Scope, FetchError, World, check, after_answer, after_read, after_sent, fail_io,
  read_with_context, watch_context,
}

module _ (c : Caller) where
  open c use {Sink, on_block, context}

  -- The call returns, and if it ends well, fewer than `n` bytes of the input are left.
  abbrev pub Ends : {A : Type 0} → ℕ → Flow FetchError (World c) A → Type 0
  Ends n (done a u) = IsBytes u.link.input.bytes × length u.link.input.bytes < n
  Ends n (fail e u) = Unit
  Ends n spent = ⊥

  pub after-Ends :
      {A B : Type 0} (k n : ℕ) (m : Flow FetchError (World c) A)
      (f : A → World c → Flow FetchError (World c) B)
      → Ends k m
      → ((a : A) (u : World c)
          → IsBytes u.link.input.bytes
          → length u.link.input.bytes < k
          → Ends n (f a u))
      → Ends n (after m f)
  after-Ends k n (done a u) f h g = g a u h.0 h.1
  after-Ends k n (fail e u) f h g = tt
  after-Ends k n spent f h g = h

  pub if-Ends :
      {A : Type 0} (n : ℕ) (b : Bool) (x y : Flow FetchError (World c) A)
      → Ends n x
      → Ends n y
      → Ends n (if b then x else y)
  if-Ends n true x y h k = h
  if-Ends n false x y h k = k

  pub check-Ends :
      (n : ℕ) (x : Scope) (v : World c)
      → IsBytes v.link.input.bytes
      → length v.link.input.bytes < n
      → Ends n (check c x v)
  unfolding check
  check-Ends n x v h b = ground arith

  pub watch_context-Ends :
      (n : ℕ) (x : Scope) (v : World c)
      → IsBytes v.link.input.bytes
      → length v.link.input.bytes < n
      → Ends n (watch_context c x v)
  unfolding watch_context
  watch_context-Ends n x v h b = ground arith

  after_read-Ends :
      (n : ℕ) (x : Scope) (v : World c) (r : Flow SessionError Link Message)
      → length v.link.input.bytes ≤ n
      → Shorter v.link.input r
      → Ends n (after_read c x v r)
  unfolding after_read fail_io
  after_read-Ends n x v (done m l) b h = (h.0, omega arith)
  after_read-Ends n x v (fail e l) b h = ground arith
  after_read-Ends n x v spent b h = h

  -- A message costs a byte.
  pub read_with_context-Ends :
      (n : ℕ) (x : Scope) (v : World c)
      → IsBytes v.link.input.bytes
      → length v.link.input.bytes ≤ n
      → Ends n (read_with_context c x v)
  unfolding read_with_context
  read_with_context-Ends n x v h b = after_read-Ends n x v (read v.link) b (read-Shorter v.link h)

  failed-Ends :
      (n : ℕ) (x : Scope) (e : FetchError) (v : World c) → Ends n (fail_io c {A = Unit {0}} x e v)
  unfolding fail_io
  failed-Ends n x e v = ground arith

  pub after_sent-Ends :
      (n : ℕ) (x : Scope) (m : Message) (v : World c) (r : Sent c.writer)
      → IsBytes v.link.input.bytes
      → length v.link.input.bytes < n
      → Sends c.writer m v.out r
      → Ends n (after_sent c x v r)
  unfolding after_sent
  after_sent-Ends n x m v (Sent.refused o) h b s = failed-Ends n x _ _
  after_sent-Ends n x m v (Sent.sending (written k none o)) h b s = (h, b)
  after_sent-Ends n x m v (Sent.sending (written k (some e) o)) h b s = failed-Ends n x _ _
  after_sent-Ends n x m v (Sent.sending stalled) h b s = s

  pub after_answer-Ends :
      (n : ℕ) (x : Scope) (q : Result WireError Message) (v : World c) (r : Answer c.writer)
      → IsBytes v.link.input.bytes
      → length v.link.input.bytes < n
      → Answers c.writer q v.out r
      → Ends n (after_answer c x v r)
  unfolding after_answer
  after_answer-Ends n x q v (Answer.invalid e o) h b s = failed-Ends n x _ _
  after_answer-Ends n x q v (Answer.sent r) h b (m, same, s) = after_sent-Ends n x m v r h b s
