-- ===== src/Peer/Fetch.antt =====
-- internal/peerconn/session.go: `FetchPiece` and `waitUntilReady`. What the caller brings (the
-- connection's write side, its contexts, its callback) is a record of operations.
pub mod Steps
pub mod Tiling
pub mod Ends
pub mod Finite
pub mod Quiet
pub mod Requests
pub mod Holds
pub mod Taken
pub mod Origin
pub mod Faultless
pub mod Ready
pub mod Served
use bittorrent_client.Base.{
  Bool, Flow, List, Option, Result, after, done, err, fail, if◌then◌else◌, leb, length, ltb, min,
  none, not, ok, pos, some, spent, suc, zero, ℕ, ◌%◌, ◌&&◌, ◌+◌, ◌-◌, ◌==◌, ◌>>=◌, ◌^◌,
}
use bittorrent_client.Wire.Io.{IoError}
use bittorrent_client.Wire.Error.{WireError}
use bittorrent_client.Wire.Writer.{Writer, Written, written, stalled}
use bittorrent_client.Wire.Message.{
  Message, max_block_size, message_choke, message_bitfield, message_piece, Sent, refused, sending,
  write_interested,
}
use bittorrent_client.Wire.Payload.{Piece, Block, parse_piece, Answer, write_request, invalid, sent}
use bittorrent_client.Peer.Session.{Session, SessionError, Link, read, session_has_piece}

-- The contexts of FetchPiece: the caller's, the one of the setup, and one for each block.
pub data Scope : Type 0 where
  whole setup : Scope
  block : ℕ → Scope

-- `context c n` is the error of context `c` at the n-th time that the session looks at a context,
-- and `watch c` the error of setting the connection's deadline for it. `on_block` is the callback,
-- over a state of its own.
pub record Caller : Type 1 where
  pub writer : Writer
  pub Sink : Type 0
  pub on_block : ℕ → List ℕ → Sink → Option ℕ × Sink
  pub context : Scope → ℕ → Option ℕ
  pub watch : Scope → Option ℕ

-- Wrapping by `%w` is left out: errors.Is looks through it.
pub data FetchError : Type 0 where
  no_context no_callback zero_length : FetchError
  index_range : ℕ → ℕ → FetchError
  cancelled : ℕ → FetchError
  watch_failed : ℕ → FetchError
  session_failed : SessionError → FetchError
  piece_unavailable : FetchError
  early_block : FetchError
  peer_choked : FetchError
  write_refused : FetchError
  write_failed : IoError → FetchError
  bad_request bad_piece : WireError → FetchError
  wrong_block : FetchError
  block_rejected : ℕ → FetchError

pub record PieceSpec : Type 0 where
  pub index : ℕ
  pub len : ℕ

module _ (c : Caller) where
  open c use {writer, Sink, on_block, context, watch}

  pub record World : Type 0 where
    pub link : Link
    pub out : writer.State
    pub sink : Sink
    pub looks : ℕ

  abbrev pub Fetching : Type 0 → Type 0
  Fetching A = World → Flow FetchError World A

  abbrev tick : World → World
  tick v = record v { looks = suc v.looks }

  verdict : Option ℕ → Fetching (Unit {0})
  verdict none v = done tt v
  verdict (some e) v = fail (cancelled e) v

  -- if err := ctx.Err(); err != nil { return err }
  pub check : Scope → Fetching (Unit {0})
  unfolding verdict
  check s v = verdict (context s v.looks) (tick v)

  prefer : {A : Type 0} → Option ℕ → FetchError → Fetching A
  prefer none e v = fail e v
  prefer (some x) e v = fail (cancelled x) v

  -- contextIOError: the context's error goes before that of the connection.
  pub fail_io : {A : Type 0} → Scope → FetchError → Fetching A
  unfolding prefer
  fail_io s e v = prefer (context s v.looks) e (tick v)

  after_read : Scope → World → Flow SessionError Link Message → Flow FetchError World Message
  after_read s v (done m l) = done m (record v { link = l })
  after_read s v (fail e l) = fail_io s (session_failed e) (record v { link = l })
  after_read s v spent = spent

  pub read_with_context : Scope → Fetching Message
  unfolding after_read
  read_with_context s v = after_read s v (read v.link)

  start_watch : Option ℕ → Fetching (Unit {0})
  start_watch none v = done tt v
  start_watch (some e) v = fail (watch_failed e) v

  pub watch_context : Scope → Fetching (Unit {0})
  unfolding start_watch
  watch_context s v = start_watch (watch s) v

  pub after_sent : Scope → World → Sent writer → Flow FetchError World (Unit {0})
  after_sent s v (refused o) = fail_io s write_refused (record v { out = o })
  after_sent s v (sending (written n none o)) = done tt (record v { out = o })
  after_sent s v (sending (written n (some e) o)) =
      fail_io s (write_failed e) (record v { out = o })
  after_sent s v (sending stalled) = spent

  pub after_answer : Scope → World → Answer writer → Flow FetchError World (Unit {0})
  after_answer s v (Answer.invalid e o) = fail_io s (bad_request e) (record v { out = o })
  after_answer s v (Answer.sent r) = after_sent s v r

  pub send_interested : Fetching (Unit {0})
  unfolding after_sent
  send_interested v = after_sent setup v (write_interested writer v.out)

  pub send_request : Block → Fetching (Unit {0})
  unfolding after_answer
  send_request b v = after_answer (block b.begin) v (write_request writer b v.out)

  -- `for !s.HasPiece(pieceIndex)`
  pub advertised : ℕ → ℕ → Fetching (Unit {0})
  unfolding read_with_context
  advertised zero i v = spent
  advertised (suc fuel) i v =
      if session_has_piece v.link.session (pos i)
      then done tt v
      else after (read_with_context setup v) λ m u.
        let again = advertised fuel i u in
        if m.id == message_bitfield && not (session_has_piece u.link.session (pos i))
        then fail piece_unavailable u
        else if m.id == message_piece
        then fail early_block u
        else again

  -- `for s.Choked()`
  pub unchoked : ℕ → Fetching (Unit {0})
  unfolding read_with_context
  unchoked zero v = spent
  unchoked (suc fuel) v =
      if v.link.session.choked
      then (after (read_with_context setup v) λ m u.
          let again = unchoked fuel u in
          if m.id == message_piece then fail early_block u else again)
      else done tt v

  abbrev pub rounds : World → ℕ
  rounds v = suc (length v.link.input.bytes)

  pub wait_until_ready : ℕ → Fetching (Unit {0})
  unfolding watch_context advertised send_interested unchoked check
  wait_until_ready i = do
    _ ← watch_context setup
    _ ← λ v. advertised (rounds v) i v
    _ ← send_interested
    _ ← λ v. unchoked (rounds v) v
    check setup

  delivered : Option ℕ × Sink → Fetching (Unit {0})
  delivered (none, s) v = done tt (record v { sink = s })
  delivered (some e, s) v = fail (block_rejected e) (record v { sink = s })

  deliver : ℕ → List ℕ → Fetching (Unit {0})
  unfolding delivered
  deliver offset bytes v = delivered (on_block offset bytes v.sink) v

  -- A Piece message while `b` is outstanding.
  accept : Block → Result WireError Piece → Fetching (Unit {0})
  unfolding check deliver
  accept b (err e) v = fail (bad_piece e) v
  accept b (ok p) v =
      if p.index == b.index && p.begin == b.begin && length p.block == b.len
      then after (check (block b.begin) v) (λ _. deliver b.begin p.block)
      else fail wrong_block v

  -- InnerLoop: read until the block comes or the peer chokes.
  pub answer : ℕ → Block → Fetching (Unit {0})
  unfolding read_with_context accept
  answer zero b v = spent
  answer (suc fuel) b v = after (read_with_context (block b.begin) v) λ m u.
      let again = answer fuel b u in
      if m.id == message_choke
      then fail peer_choked u
      else if m.id == message_piece
      then accept b (parse_piece m) u
      else again

  pub fetch_block : Block → Fetching (Unit {0})
  unfolding watch_context check send_request answer
  fetch_block b = do
    _ ← watch_context (block b.begin)
    _ ← check (block b.begin)
    _ ← send_request b
    λ v. answer (rounds v) b v

  -- The request at an offset: min(MaxBlockSize, piece.Length-blockOffset) bytes.
  abbrev pub block_at : PieceSpec → ℕ → Block
  block_at p offset = record {
    index = p.index;
    begin = offset;
    len = min max_block_size (p.len - offset);
  }

  -- The loop over blocks; `blockOffset += length` is on uint32.
  pub blocks : ℕ → PieceSpec → ℕ → Fetching (Unit {0})
  unfolding fetch_block
  blocks zero p offset v = spent
  blocks (suc fuel) p offset v =
      if ltb offset p.len
      then (after (fetch_block (block_at p offset) v)
          λ _. blocks fuel p ((offset + (block_at p offset).len) % 2 ^ 32))
      else done tt v

  -- Every round moves the offset, so the piece's length bounds the rounds.
  pub fetch_checked : PieceSpec → Fetching (Unit {0})
  unfolding check wait_until_ready blocks
  fetch_checked p = do _ ← check whole; _ ← wait_until_ready p.index; blocks (suc p.len) p 0

  -- FetchPiece; the context and the callback may be nil.
  unfoldable pub fetch_piece : Bool → Bool → PieceSpec → Fetching (Unit {0})
  unfolding fetch_checked
  fetch_piece has_context has_callback p v =
      if not has_context
      then fail no_context v
      else if not has_callback
      then fail no_callback v
      else if leb v.link.session.piece_count p.index
      then fail (index_range p.index v.link.session.piece_count) v
      else if p.len == 0
      then fail zero_length v
      else fetch_checked p v
