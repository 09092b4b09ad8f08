-- ===== src/Peer/Fetch/Served.antt =====
-- FetchPiece on a connection without faults, to a peer that sends the blocks of the piece.
use bittorrent_client.Base.{
  All, Flow, List, [], ap, append_assoc, arith, done, drop, false, leb, length, length-drop,
  length-take, ltb, lt→ltb, min, ok, pos, refl, subst, suc, sym, take, true, zero, ℕ, ◌%◌, ◌++◌,
  ◌+◌, ◌<◌, ◌==◌, ◌^◌, ◌∙◌, ◌∷◌, ◌≡◌, ◌≤◌,
}
use bittorrent_client.Wire.Io.{IoError, rest}
use bittorrent_client.Wire.Message.{encode, max_msg_len, max_block_size}
use bittorrent_client.Wire.Payload.{Piece}
use bittorrent_client.Wire.Payload.Blocks.{piece_message}
use bittorrent_client.Peer.Fetch.{
  Caller, Scope, World, fetch_piece, fetch_checked, block_at, blocks, fetch_block, FetchError,
  PieceSpec,
}
use bittorrent_client.Wire.Bitfield.{Bitfield, has_piece}
use bittorrent_client.Wire.Bitfield.Invariant.{IsBitfield}
use bittorrent_client.Peer.Session.{new_session}
use bittorrent_client.Peer.Session.Setup.{Idle, new_session_fresh}
use bittorrent_client.Peer.Fetch.Ready.{greeting, wait_until_ready-done}
use bittorrent_client.Peer.Fetch.Faultless.{Faultless, check-done, fetch_block-done}

ltb_end : (n m : ℕ) → n + 0 ≡ m → ltb n m ≡ false
ltb_end n m h = ground arith

-- The blocks of the bytes from an offset on, one for a unit of fuel: a block has a byte or more.
abbrev pub pieces_from : ℕ → ℕ → ℕ → List ℕ → List Piece
pieces_from zero index offset bytes = []
pieces_from (suc fuel) index offset [] = []
pieces_from (suc fuel) index offset (x ∷ bytes) =
    record { index = index; begin = offset; block = take max_block_size (x ∷ bytes) }
    ∷ pieces_from fuel index (offset + min max_block_size (length (x ∷ bytes)))
        (drop max_block_size (x ∷ bytes))

abbrev pub messages : List Piece → List ℕ
messages [] = []
messages (q ∷ qs) = encode (piece_message q) ++ messages qs

module _ (c : Caller) where
  open c use {Sink, on_block}

  -- The callback's state after these blocks.
  abbrev pub given : List Piece → Sink → Sink
  given [] s = s
  given (q ∷ qs) s = given qs ((on_block q.begin q.block s).1)

module _ (c : Caller) (f : Faultless c) where
  -- The call returns nil, the input is at `tail`, and the callback got the blocks.
  abbrev pub Served :
      List Piece → List ℕ → IoError → World c → Flow FetchError (World c) (Unit {0}) → Type 0
  Served qs tail e v r =
      (u : World c) × (r ≡ done tt u)
      × (u.link.input ≡ record { bytes = tail; ending = e })
      × (u.sink ≡ given c qs v.sink)

  blocks-fetched :
      (fuel offset next : ℕ) (p : PieceSpec) (v u : World c)
      → offset < p.len
      → (offset + (block_at c p offset).len) % 2 ^ 32 ≡ next
      → fetch_block c (block_at c p offset) v ≡ done tt u
      → blocks c (suc fuel) p offset v ≡ blocks c fuel p next u
  unfolding blocks
  blocks-fetched fuel offset next p v u h step fetched =
      rw (lt→ltb offset p.len h, fetched, step) refl

  blocks-Served :
      (fuel offset : ℕ) (p : PieceSpec) (bytes tail : List ℕ) (e : IoError) (v : World c)
      → v.link.session.piece_count ≤ 2 ^ 32
      → p.index < 2 ^ 32
      → p.len < 2 ^ 32
      → offset + length bytes ≡ p.len
      → length bytes < fuel
      → v.link.input
        ≡ record { bytes = messages (pieces_from fuel p.index offset bytes) ++ tail; ending = e }
      → Served (pieces_from fuel p.index offset bytes) tail e v (blocks c fuel p offset v)
  unfolding blocks
  blocks-Served zero offset p bytes tail e v n i l total enough input = absurd (omega arith)
  blocks-Served (suc fuel) offset p [] tail e v n i l total enough input =
      let ended : ltb offset p.len ≡ false = ltb_end offset p.len total in
      (v, rw ended refl, input, refl)
  blocks-Served (suc fuel) offset p (x ∷ bytes) tail e v n i l total enough input =
      let q : Piece = record {
        index = p.index;
        begin = offset;
        block = take max_block_size (x ∷ bytes);
      } in
      let next : ℕ = offset + min max_block_size (length (x ∷ bytes)) in
      let later : List ℕ = drop max_block_size (x ∷ bytes) in
      let qs : List Piece = pieces_from fuel p.index next later in
      let (u, fetched, counts, left, got) =
        fetch_block-done c f (block_at c p offset) q (messages qs ++ tail) e v n i (omega arith)
          (omega arith) (omega arith) refl refl
          (omega (arith, length-take max_block_size (x ∷ bytes)))
          (input
            ∙ ap (λ bs. record { bytes = bs; ending = e })
                (append_assoc (encode (piece_message q)) (messages qs) tail)) in
      let step : (offset + (block_at c p offset).len) % 2 ^ 32 ≡ next = omega arith in
      let (w, rest, end, sink) =
        blocks-Served fuel next p later tail e u (subst (λ k. k ≤ 2 ^ 32) (sym counts) n) i l
          (omega (arith, length-drop max_block_size (x ∷ bytes)))
          (omega (arith, length-drop max_block_size (x ∷ bytes))) left in
      (
        w,
        blocks-fetched fuel offset next p v u (omega arith) step fetched ∙ rest,
        end,
        sink ∙ ap (given c qs) got,
      )

  -- When no context ends, no deadline fails to be set, the connection takes all it is given and the
  -- callback accepts every block, FetchPiece on a new session returns nil if the peer sends its
  -- Bitfield, which has the piece, then any number of Choke, Interested and NotInterested messages,
  -- then Unchoke, and then the blocks of some bytes of the piece's length. The callback then got
  -- exactly these blocks, in order and at their offsets, and what follows them on the connection is
  -- still to be read. The Bitfield is well formed for the torrent and fits a frame, the index is in
  -- the torrent's range, the length is a uint32 and not 0.
  pub fetch_piece-Served :
      (p : PieceSpec) (b : Bitfield) (ids bytes tail : List ℕ) (e : IoError) (v : World c)
      → IsBitfield b
      → length b.bits < max_msg_len
      → has_piece b (pos p.index) ≡ true
      → p.index < b.piece_count
      → 0 < p.len
      → p.len < 2 ^ 32
      → length bytes ≡ p.len
      → All Idle ids
      → new_session true (pos b.piece_count) ≡ ok v.link.session
      → v.link.input ≡ record {
        bytes = greeting b ids (messages (pieces_from (suc p.len) p.index 0 bytes) ++ tail);
        ending = e;
      }
      → Served (pieces_from (suc p.len) p.index 0 bytes) tail e v (fetch_piece c true true p v)
  unfolding fetch_piece fetch_checked
  fetch_piece-Served p b ids bytes tail e v well short has i some_bytes l total idle fresh input =
      let (shut, count, first, lacks) =
        new_session_fresh b.piece_count p.index v.link.session well.in_range fresh in
      let inside : leb v.link.session.piece_count p.index ≡ false = ground arith in
      let not_empty : (p.len == 0) ≡ false = ground arith in
      let looked : World c = record v { looks = suc v.looks } in
      let (u, ready, same, left, kept) =
        wait_until_ready-done c f p.index b ids
          (messages (pieces_from (suc p.len) p.index 0 bytes) ++ tail) e looked well short has idle
          fresh input in
      let (w, fetched, end, sink) =
        blocks-Served (suc p.len) 0 p bytes tail e u (omega (arith, well.in_range, same))
          (omega (arith, well.in_range)) l (omega arith) (omega arith) left in
      (
        w,
        rw (inside, not_empty, check-done c f Scope.whole v, ready) fetched,
        end,
        sink ∙ ap (given c (pieces_from (suc p.len) p.index 0 bytes)) kept,
      )
