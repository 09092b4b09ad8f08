-- ===== src/Peer/Fetch/Faultless.antt =====
-- The steps of FetchPiece on a connection without faults.
use bittorrent_client.Base.{
  List, Option, ap, arith, done, false, length, none, refl, some, suc, true, ℕ, ◌&&◌, ◌++◌, ◌<◌,
  ◌==◌, ◌^◌, ◌∙◌, ◌≡◌, ◌≤◌,
}
use bittorrent_client.Wire.Io.{IoError}
use bittorrent_client.Wire.Message.{encode, max_block_size}
use bittorrent_client.Wire.Writer.Whole.{TakesAll}
use bittorrent_client.Wire.Payload.{Block, Piece}
use bittorrent_client.Wire.Payload.Blocks.{parse_piece-piece_message, piece_message}
use bittorrent_client.Wire.Payload.Sending.{write_request-TakesAll}
use bittorrent_client.Peer.Session.{read}
use bittorrent_client.Peer.Session.Pieces.{read-piece_message}
use bittorrent_client.Peer.Fetch.{
  Caller, Scope, World, accept, after_answer, after_read, after_sent, answer, check, deliver,
  delivered, fetch_block, read_with_context, send_request, start_watch, verdict, watch_context,
  rounds,
}

-- No context ends, no deadline fails to be set, the connection takes all it is given, and the
-- callback accepts every block.
pub record Faultless (c : Caller) : Type 0 where
  pub running : (s : Scope) (n : ℕ) → c.context s n ≡ none
  pub watched : (s : Scope) → c.watch s ≡ none
  pub takes_all : TakesAll c.writer
  pub accepted : (offset : ℕ) (bytes : List ℕ) (s : c.Sink) → (c.on_block offset bytes s).0 ≡ none

module _ (c : Caller) (f : Faultless c) where
  open c use {writer, Sink, on_block, context, watch}

  pub check-done :
      (s : Scope) (v : World c) → check c s v ≡ done tt (record v { looks = suc v.looks })
  unfolding check verdict
  check-done s v = rw (f.running s v.looks) refl

  pub watch_context-done : (s : Scope) (v : World c) → watch_context c s v ≡ done tt v
  unfolding watch_context start_watch
  watch_context-done s v = rw (f.watched s) refl

  send_request-done :
      (b : Block) (v : World c)
      → 0 < b.len
      → b.len ≤ max_block_size
      → (o : writer.State) × (send_request c b v ≡ done tt (record v { out = o }))
  unfolding send_request after_answer after_sent
  send_request-done b v h k =
      let (n, o, e) = write_request-TakesAll writer f.takes_all b v.out h k in (o, rw e refl)

  delivered-done :
      (r : Option ℕ × Sink) (v : World c)
      → r.0 ≡ none
      → delivered c r v ≡ done tt (record v { sink = r.1 })
  unfolding delivered
  delivered-done (none, s) v h = refl
  delivered-done (some e, s) v h = absurd (ground (arith, h))

  deliver-done :
      (offset : ℕ) (bytes : List ℕ) (v : World c)
      → deliver c offset bytes v ≡ done tt (record v { sink = (on_block offset bytes v.sink).1 })
  unfolding deliver
  deliver-done offset bytes v =
      delivered-done (on_block offset bytes v.sink) v (f.accepted offset bytes v.sink)

  answer-done :
      (fuel : ℕ) (b : Block) (q : Piece) (tail : List ℕ) (e : IoError) (v : World c)
      → v.link.session.piece_count ≤ 2 ^ 32
      → b.index < 2 ^ 32
      → b.begin < 2 ^ 32
      → b.len ≤ max_block_size
      → q.index ≡ b.index
      → q.begin ≡ b.begin
      → length q.block ≡ b.len
      → v.link.input ≡ record { bytes = encode (piece_message q) ++ tail; ending = e }
      → answer c (suc fuel) b v
        ≡ done tt (record {
          link = record {
            session = record (v.link.session) { bitfield_allowed = false };
            input = record { bytes = tail; ending = e };
          };
          out = v.out;
          sink = (on_block b.begin q.block v.sink).1;
          looks = suc v.looks;
        })
  unfolding answer read_with_context after_read accept
  answer-done fuel b q tail e v n i o small qi qo ql input =
      let seen : read (v.link)
          ≡ done (piece_message q) (record {
            session = record (v.link.session) { bitfield_allowed = false };
            input = record { bytes = tail; ending = e };
          }) =
        ap (λ s. read (record { session = v.link.session; input = s })) input
        ∙ read-piece_message (v.link.session) q tail e n (omega arith) in
      let same : (q.index == b.index && q.begin == b.begin && length q.block == b.len) ≡ true =
        ground arith in
      rw
        (
          seen,
          parse_piece-piece_message q (omega arith) (omega arith) (omega arith),
          same,
          check-done (Scope.block b.begin) _,
        )
        (deliver-done b.begin (q.block) _)

  -- The block that comes next is fetched.
  pub fetch_block-done :
      (b : Block) (q : Piece) (tail : List ℕ) (e : IoError) (v : World c)
      → v.link.session.piece_count ≤ 2 ^ 32
      → b.index < 2 ^ 32
      → b.begin < 2 ^ 32
      → 0 < b.len
      → b.len ≤ max_block_size
      → q.index ≡ b.index
      → q.begin ≡ b.begin
      → length q.block ≡ b.len
      → v.link.input ≡ record { bytes = encode (piece_message q) ++ tail; ending = e }
      → (u : World c) × (fetch_block c b v ≡ done tt u)
        × (u.link.session.piece_count ≡ v.link.session.piece_count)
        × (u.link.input ≡ record { bytes = tail; ending = e })
        × (u.sink ≡ (on_block b.begin q.block v.sink).1)
  unfolding fetch_block
  fetch_block-done b q tail e v n i o some_bytes small qi qo ql input =
      let looked : World c = record v { looks = suc v.looks } in
      let (out, requested) = send_request-done b looked some_bytes small in
      let ready : World c = record looked { out = out } in
      let asked : fetch_block c b v ≡ answer c (rounds c ready) b ready =
        rw
          (
            watch_context-done (Scope.block b.begin) v,
            check-done (Scope.block b.begin) v,
            requested,
          )
          refl in
      (_, asked ∙ answer-done _ b q tail e ready n i o small qi qo ql input, refl, refl, refl)
