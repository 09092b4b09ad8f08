-- ===== src/Peer/Fetch/Finite.antt =====
-- FetchPiece returns: every loop reads the connection, and the stream is finite.
use bittorrent_client.Base.{
  Bool, Bool-cases, Flow, Option, Result, Returns, arith, done, err, fail, inl, inr, length, ltb,
  ltb→lt, none, not, ok, pos, some, spent, suc, zero, ℕ, ◌%◌, ◌&&◌, ◌+◌, ◌<◌, ◌==◌, ◌^◌, ◌≤◌,
}
use bittorrent_client.Wire.Endian.{IsBytes}
use bittorrent_client.Wire.Error.{WireError}
use bittorrent_client.Wire.Message.{message_bitfield, message_choke, message_piece}
use bittorrent_client.Wire.Payload.{Piece, Block, parse_piece}
use bittorrent_client.Wire.Payload.Sending.{write_interested-Sends, write_request-Answers}
use bittorrent_client.Peer.Session.{session_has_piece}
use bittorrent_client.Peer.Fetch.{
  Caller, Scope, FetchError, PieceSpec, World, read_with_context, accept, advertised, answer,
  block_at, blocks, deliver, delivered, fetch_block, fetch_checked, fetch_piece, rounds,
  send_interested, send_request, unchoked, wait_until_ready,
}
use bittorrent_client.Peer.Session.{session_has_piece}
use bittorrent_client.Peer.Fetch.Ends.{
  Ends, after-Ends, if-Ends, check-Ends, watch_context-Ends, read_with_context-Ends,
  after_sent-Ends, after_answer-Ends,
}

module _ (c : Caller) where
  open c use {Sink, on_block}

  advertised-Ends :
      (fuel i n : ℕ) (v : World c)
      → IsBytes v.link.input.bytes
      → length v.link.input.bytes < fuel
      → length v.link.input.bytes < n
      → Ends c n (advertised c fuel i v)
  unfolding advertised
  advertised-Ends zero i n v h f b = absurd (omega arith)
  advertised-Ends (suc fuel) i n v h f b =
      if-Ends c n (session_has_piece v.link.session (pos i)) _ _ (h, b)
        (after-Ends c (length v.link.input.bytes) n (read_with_context c Scope.setup v) _
          (read_with_context-Ends c (length v.link.input.bytes) Scope.setup v h (omega arith))
          (λ m u k l.
            let rest = advertised-Ends fuel i n u k (omega arith) (omega arith) in
            if-Ends c n (m.id == message_bitfield && not (session_has_piece u.link.session (pos i)))
              _ _ tt (if-Ends c n (m.id == message_piece) _ _ tt rest)))

  unchoked-Ends :
      (fuel n : ℕ) (v : World c)
      → IsBytes v.link.input.bytes
      → length v.link.input.bytes < fuel
      → length v.link.input.bytes < n
      → Ends c n (unchoked c fuel v)
  unfolding unchoked
  unchoked-Ends zero n v h f b = absurd (omega arith)
  unchoked-Ends (suc fuel) n v h f b =
      if-Ends c n v.link.session.choked _ _
        (after-Ends c (length v.link.input.bytes) n (read_with_context c Scope.setup v) _
          (read_with_context-Ends c (length v.link.input.bytes) Scope.setup v h (omega arith))
          (λ m u k l.
            if-Ends c n (m.id == message_piece) _ _ tt
              (unchoked-Ends fuel n u k (omega arith) (omega arith))))
        (h, b)

  wait_until_ready-Ends :
      (i n : ℕ) (v : World c)
      → IsBytes v.link.input.bytes
      → length v.link.input.bytes < n
      → Ends c n (wait_until_ready c i v)
  unfolding wait_until_ready send_interested
  wait_until_ready-Ends i n v h b =
      after-Ends c n n _ _ (watch_context-Ends c n Scope.setup v h b) λ _ a ha ba.
        after-Ends c n n _ _ (advertised-Ends (rounds c a) i n a ha (omega arith) ba) λ _ d hd bd.
          after-Ends c n n _ _
            (after_sent-Ends c n Scope.setup _ d _ hd bd (write_interested-Sends c.writer d.out))
            λ _ k hk bk.
              after-Ends c n n _ _ (unchoked-Ends (rounds c k) n k hk (omega arith) bk)
                λ _ u hu bu. check-Ends c n Scope.setup u hu bu

  delivered-Ends :
      (n : ℕ) (r : Option ℕ × Sink) (v : World c)
      → IsBytes v.link.input.bytes
      → length v.link.input.bytes < n
      → Ends c n (delivered c r v)
  unfolding delivered
  delivered-Ends n (none, s) v h b = (h, b)
  delivered-Ends n (some e, s) v h b = tt

  accept-Ends :
      (n : ℕ) (b : Block) (r : Result WireError Piece) (v : World c)
      → IsBytes v.link.input.bytes
      → length v.link.input.bytes < n
      → Ends c n (accept c b r v)
  unfolding accept deliver
  accept-Ends n b (err e) v h l = tt
  accept-Ends n b (ok p) v h l =
      if-Ends c n (p.index == b.index && p.begin == b.begin && length p.block == b.len) _ _
        (after-Ends c n n _ _ (check-Ends c n (Scope.block b.begin) v h l)
          λ _ u hu bu. delivered-Ends n (on_block b.begin p.block u.sink) u hu bu)
        tt

  answer-Ends :
      (fuel n : ℕ) (b : Block) (v : World c)
      → IsBytes v.link.input.bytes
      → length v.link.input.bytes < fuel
      → length v.link.input.bytes < n
      → Ends c n (answer c fuel b v)
  unfolding answer
  answer-Ends zero n b v h f l = absurd (omega arith)
  answer-Ends (suc fuel) n b v h f l =
      after-Ends c (length v.link.input.bytes) n (read_with_context c (Scope.block b.begin) v) _
        (read_with_context-Ends c (length v.link.input.bytes) (Scope.block b.begin) v h
          (omega arith))
        λ m u k q. if-Ends c n (m.id == message_choke) _ _ tt (
          if-Ends c n (m.id == message_piece) _ _
            (accept-Ends n b (parse_piece m) u k (omega arith))
            (answer-Ends fuel n b u k (omega arith) (omega arith)))

  fetch_block-Ends :
      (n : ℕ) (b : Block) (v : World c)
      → IsBytes v.link.input.bytes
      → length v.link.input.bytes < n
      → Ends c n (fetch_block c b v)
  unfolding fetch_block send_request
  fetch_block-Ends n b v h l =
      after-Ends c n n _ _ (watch_context-Ends c n (Scope.block b.begin) v h l) λ _ a ha ba.
        after-Ends c n n _ _ (check-Ends c n (Scope.block b.begin) a ha ba) λ _ d hd bd.
          after-Ends c n n _ _
            (after_answer-Ends c n (Scope.block b.begin) _ d _ hd bd
              (write_request-Answers c.writer b d.out))
            λ _ k hk bk. answer-Ends (rounds c k) n b k hk (omega arith) bk

  blocks-Ends :
      (fuel n : ℕ) (p : PieceSpec) (offset : ℕ) (v : World c)
      → p.len < 2 ^ 32
      → p.len < offset + fuel
      → offset ≤ p.len
      → IsBytes v.link.input.bytes
      → length v.link.input.bytes < n
      → Ends c n (blocks c fuel p offset v)
  unfolding blocks
  blocks-Ends zero n p offset v s f o h l = absurd (omega arith)
  blocks-Ends (suc fuel) n p offset v s f o h l = elim (Bool-cases (ltb offset p.len)) [
    | inr end ↦ rw end (h, l)
    | inl more ↦
        let below : offset < p.len = ltb→lt offset p.len more in
        rw more (
          after-Ends c n n _ _ (fetch_block-Ends n (block_at c p offset) v h l) λ _ u hu bu.
            blocks-Ends fuel n p ((offset + (block_at c p offset).len) % 2 ^ 32) u s (omega arith)
              (omega arith) hu bu)
  ]

  ended : {A : Type 0} (n : ℕ) (m : Flow FetchError (World c) A) → Ends c n m → Returns m
  ended n (done a u) h = tt
  ended n (fail e u) h = tt
  ended n spent h = h

  checked-Ends :
      (p : PieceSpec) (v : World c)
      → p.len < 2 ^ 32
      → IsBytes v.link.input.bytes
      → Ends c (rounds c v) (fetch_checked c p v)
  unfolding fetch_checked
  checked-Ends p v s h =
      after-Ends c (rounds c v) (rounds c v) _ _
        (check-Ends c (rounds c v) Scope.whole v h (omega arith))
        λ _ a ha ba.
          after-Ends c (rounds c v) (rounds c v) _ _
            (wait_until_ready-Ends p.index (rounds c v) a ha ba)
            λ _ u hu bu.
              blocks-Ends (suc p.len) (rounds c v) p 0 u s (omega arith) (omega arith) hu bu

  -- FetchPiece returns, with success or an error, whatever the peer sends, for every caller and
  -- every piece below 4 GiB: no loop of it runs for ever on a stream that ends. The stream holds
  -- bytes.
  pub fetch_piece-Returns :
      (has_context has_callback : Bool) (p : PieceSpec) (v : World c)
      → p.len < 2 ^ 32
      → IsBytes v.link.input.bytes
      → Returns (fetch_piece c has_context has_callback p v)
  unfolding fetch_piece
  fetch_piece-Returns has_context has_callback p v s h =
      ground (arith, ended (rounds c v) (fetch_checked c p v) (checked-Ends p v s h))
