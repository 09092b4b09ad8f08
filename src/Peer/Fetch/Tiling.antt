-- ===== src/Peer/Fetch/Tiling.antt =====
-- A piece that FetchPiece reports as fetched was delivered block by block, end to end.
use bittorrent_client.Base.{
  Bool, Flow, List, after-done, arith, dec_lt, done, false, length, ltb, lt→ltb, min, none, subst,
  suc, true, zero, ℕ, ◌%◌, ◌+◌, ◌-◌, ◌<◌, ◌^◌, ◌∙◌, ◌≡◌, ◌≤◌,
}
use bittorrent_client.Wire.Message.{max_block_size}
use bittorrent_client.Peer.Fetch.{
  Caller, PieceSpec, World, blocks, fetch_block, block_at, fetch_checked, fetch_piece, FetchError,
  Scope, check, wait_until_ready,
}
use bittorrent_client.Peer.Fetch.Steps.{
  Gives, fetch_block-Gives, Keeps, check-Keeps, wait_until_ready-Keeps,
}

module _ (c : Caller) where
  open c use {Sink, on_block}

  -- From the offset on, the callback got blocks end to end, each as long as it can be, and took
  -- every one.
  pub data Delivers (p : PieceSpec) (u : Sink) : ℕ → Sink → Type 0 where
    whole : {offset : ℕ} {s : Sink} → offset ≡ p.len → u ≡ s → Delivers p u offset s
    piece :
        {offset : ℕ} {s t : Sink} (bytes : List ℕ)
        → 0 < length bytes
        → length bytes ≡ min max_block_size (p.len - offset)
        → on_block offset bytes s ≡ (none, t)
        → Delivers p u (offset + length bytes) t
        → Delivers p u offset s

  blocks-Delivers :
      (fuel : ℕ) (p : PieceSpec) (offset : ℕ) (v u : World c) (a : Unit {0})
      → p.len < 2 ^ 32
      → offset ≤ p.len
      → blocks c fuel p offset v ≡ done a u
      → Delivers p u.sink offset v.sink
  unfolding blocks
  blocks-Delivers zero p offset v u a small h e = absurd (ground arith)
  blocks-Delivers (suc fuel) p offset v u a small h e = elim (dec_lt offset p.len) [
    | no end ↦ whole (omega arith) (ground arith)
    | yes more ↦
        let test : ltb offset p.len ≡ true = lt→ltb offset p.len more in
        let (x, t, got, later) =
          after-done (fetch_block c (block_at c p offset) v)
            (λ _. blocks c fuel p ((offset + min max_block_size (p.len - offset)) % 2 ^ 32))
            (rw test at e) in
        let (bytes, size, taken) =
          subst (Gives c (block_at c p offset) v.sink) got
            (fetch_block-Gives c (block_at c p offset) v) in
        let next : (offset + min max_block_size (p.len - offset)) % 2 ^ 32 ≡ offset + length bytes =
          omega arith in
        piece bytes (omega arith) size taken (
          blocks-Delivers fuel p (offset + length bytes) t u a small (omega arith)
            (subst (λ (o : ℕ). blocks c fuel p o t ≡ done a u) next later))
  ]

  kept :
      {A : Type 0} (s : Sink) (m : Flow FetchError (World c) A) (a : A) (u : World c)
      → Keeps c s m
      → m ≡ done a u
      → u.sink ≡ s
  kept s m a u h e = subst (Keeps c s) e h

  checked-Delivers :
      (p : PieceSpec) (v u : World c) (a : Unit {0})
      → p.len < 2 ^ 32
      → fetch_checked c p v ≡ done a u
      → Delivers p u.sink 0 v.sink
  unfolding fetch_checked
  checked-Delivers p v u a small e =
      let (x, t, first, rest) = after-done (check c Scope.whole v) _ e in
      let (y, w, second, last) = after-done (wait_until_ready c p.index t) _ rest in
      subst (Delivers p u.sink 0)
        (kept t.sink _ y w (wait_until_ready-Keeps c p.index t) second
          ∙ kept v.sink _ x t (check-Keeps c Scope.whole v) first)
        (blocks-Delivers (suc p.len) p 0 w u a small (omega arith) last)

  -- When FetchPiece reports success on a piece below 4 GiB, the piece index is one of the
  -- torrent's, its length is positive, and the callback got as many bytes, in blocks laid end to end
  -- from offset 0 to the length, each as long as the block limit allows, and took every one without
  -- an error; nothing else changed the callback's state.
  pub fetch_piece-Delivers :
      (has_context has_callback : Bool) (p : PieceSpec) (v u : World c) (a : Unit {0})
      → p.len < 2 ^ 32
      → fetch_piece c has_context has_callback p v ≡ done a u
      → (p.index < v.link.session.piece_count) × (0 < p.len) × Delivers p u.sink 0 v.sink
  unfolding fetch_piece
  fetch_piece-Delivers false k p v u a small e = absurd (ground arith)
  fetch_piece-Delivers true false p v u a small e = absurd (ground arith)
  fetch_piece-Delivers true true p v u a small e =
      elim (dec_lt p.index v.link.session.piece_count) [
        | no out ↦ absurd (ground arith)
        | yes inside ↦ elim (dec_lt 0 p.len) [
          | no empty ↦ absurd (ground arith)
          | yes some_bytes ↦ (inside, some_bytes, checked-Delivers p v u a small (ground arith))
        ]
      ]
