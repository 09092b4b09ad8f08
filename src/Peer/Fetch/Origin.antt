-- ===== src/Peer/Fetch/Origin.antt =====
-- A piece that FetchPiece reports as fetched came from the peer's Piece messages, block by block.
use bittorrent_client.Base.{
  All-append_right, Bool, Flow, Leads, List, [], after-done, ap, append_assoc, arith, dec_lt, done,
  false, length, ltb, lt→ltb, min, none, refl, subst, suc, sym, true, zero, ℕ, ◌%◌, ◌++◌, ◌+◌, ◌-◌,
  ◌<◌, ◌^◌, ◌∙◌, ◌≡◌, ◌≤◌,
}
use bittorrent_client.Wire.Endian.{IsBytes}
use bittorrent_client.Wire.Message.{encode, max_block_size}
use bittorrent_client.Wire.Payload.Blocks.{piece_message}
use bittorrent_client.Peer.Fetch.{
  Caller, FetchError, PieceSpec, Scope, World, block_at, blocks, check, fetch_block, fetch_checked,
  fetch_piece, wait_until_ready,
}
use bittorrent_client.Peer.Fetch.Taken.{
  At, Takes, check-Stays, fetch_block-Takes, wait_until_ready-Stays,
}

module _ (c : Caller) where
  open c use {Sink, on_block}

  -- With the offset, the callback's state and the bytes to read: what follows on the connection has,
  -- in this order, the Piece messages for blocks laid end to end from the offset to the length, each
  -- as long as it can be. The callback got exactly their bytes at their offsets and took every one.
  -- In the end its state is `u` and `left` is still to be read.
  pub data Brings (p : PieceSpec) (u : Sink) (left : List ℕ) : ℕ → Sink → List ℕ → Type 0 where
    whole :
        {offset : ℕ} {s : Sink} {bs : List ℕ} (before : List ℕ)
        → offset ≡ p.len
        → u ≡ s
        → bs ≡ before ++ left
        → Brings p u left offset s bs
    piece :
        {offset : ℕ} {s t : Sink} {bs : List ℕ} (bytes before rest : List ℕ)
        → 0 < length bytes
        → length bytes ≡ min max_block_size (p.len - offset)
        → bs
          ≡ before
            ++ (encode (piece_message (record { index = p.index; begin = offset; block = bytes }))
                ++ rest)
        → on_block offset bytes s ≡ (none, t)
        → Brings p u left (offset + length bytes) t rest
        → Brings p u left offset s bs

  Brings-append :
      (p : PieceSpec) (u : Sink) (left : List ℕ) (offset : ℕ) (s : Sink) (xs bs : List ℕ)
      → Brings p u left offset s bs
      → Brings p u left offset s (xs ++ bs)
  Brings-append p u left offset s xs bs (whole before o e h) =
      whole (xs ++ before) o e (ap (λ y. xs ++ y) h ∙ sym (append_assoc xs before left))
  Brings-append p u left offset s xs bs (piece bytes before rest some_bytes size h taken later) =
      piece bytes (xs ++ before) rest some_bytes size
        (ap (λ y. xs ++ y) h ∙ sym (append_assoc xs before _)) taken later

  came :
      {A : Type 0} (D : World c → Type 0) (m : Flow FetchError (World c) A) (a : A) (u : World c)
      → Leads (λ _ w. D w) (λ _ _. Unit) m
      → m ≡ done a u
      → D u
  came D m a u h e = subst (Leads (λ _ w. D w) (λ _ _. Unit)) e h

  suffix-IsBytes : (xs ys bs : List ℕ) → bs ≡ xs ++ ys → IsBytes bs → IsBytes ys
  suffix-IsBytes xs ys bs e h = All-append_right (λ b. b < 256) xs ys (subst IsBytes e h)

  blocks-Brings :
      (fuel : ℕ) (p : PieceSpec) (offset : ℕ) (v u : World c) (a : Unit {0})
      → IsBytes v.link.input.bytes
      → p.len < 2 ^ 32
      → offset ≤ p.len
      → blocks c fuel p offset v ≡ done a u
      → Brings p u.sink u.link.input.bytes offset v.sink v.link.input.bytes
  unfolding blocks
  blocks-Brings zero p offset v u a all small h e = absurd (ground arith)
  blocks-Brings (suc fuel) p offset v u a all small h e = elim (dec_lt offset p.len) [
    | no end ↦
        let test : ltb offset p.len ≡ false = ground arith in
        let same : v ≡ u = ground (arith, (rw test at e)) in
        whole [] (omega arith) (ap (λ w. w.sink) (sym same)) (ap (λ w. w.link.input.bytes) same)
    | yes more ↦
        let test : ltb offset p.len ≡ true = lt→ltb offset p.len more in
        let (x, t, got, later) =
          after-done (fetch_block c (block_at c p offset) v)
            (λ _. blocks c fuel p ((offset + min max_block_size (p.len - offset)) % 2 ^ 32))
            (rw test at e) in
        let (bytes, before, split, size, taken) =
          came (Takes c v.sink v.link.input.bytes all (block_at c p offset)) _ x t
            (fetch_block-Takes c v.sink v.link.input.bytes all (block_at c p offset) v
              (refl, ([], refl)))
            got in
        let next : (offset + min max_block_size (p.len - offset)) % 2 ^ 32 ≡ offset + length bytes =
          omega arith in
        piece bytes before t.link.input.bytes (omega arith) size split taken (
          blocks-Brings fuel p (offset + length bytes) t u a
            (suffix-IsBytes _ _ _ refl (suffix-IsBytes before _ _ split all)) small (omega arith)
            (subst (λ (o : ℕ). blocks c fuel p o t ≡ done a u) next later))
  ]

  checked-Brings :
      (p : PieceSpec) (v u : World c) (a : Unit {0})
      → IsBytes v.link.input.bytes
      → p.len < 2 ^ 32
      → fetch_checked c p v ≡ done a u
      → Brings p u.sink u.link.input.bytes 0 v.sink v.link.input.bytes
  unfolding fetch_checked
  checked-Brings p v u a all small e =
      let (x, t, first, rest) = after-done (check c Scope.whole v) _ e in
      let (y, w, second, last) = after-done (wait_until_ready c p.index t) _ rest in
      let D : World c → Type 0 = At c v.sink v.link.input.bytes all in
      let checked : D t =
        came D _ x t (check-Stays c v.sink v.link.input.bytes all Scope.whole v (refl, ([], refl)))
          first in
      let (kept, (before, split)) =
        came D _ y w (wait_until_ready-Stays c v.sink v.link.input.bytes all p.index t checked)
          second in
      let from : Brings p u.sink u.link.input.bytes 0 w.sink w.link.input.bytes =
        blocks-Brings (suc p.len) p 0 w u a (suffix-IsBytes before _ _ split all) small
          (omega arith) last in
      subst (λ (s : Sink). Brings p u.sink u.link.input.bytes 0 s v.link.input.bytes) kept
        (subst (Brings p u.sink u.link.input.bytes 0 w.sink) (sym split)
          (Brings-append p u.sink u.link.input.bytes 0 w.sink before w.link.input.bytes from))

  -- When FetchPiece reports success on a piece below 4 GiB, the piece index is one of the torrent's,
  -- its length is positive, and the stream that the peer sent has, in this order, Piece messages
  -- with this piece index for blocks laid end to end from offset 0 to the length, each as long as
  -- the block limit allows. The callback got the bytes of exactly these messages, once each and at
  -- their offsets, and took every one without an error; nothing else changed the callback's state.
  -- What is left of the stream follows the last of them. The stream holds bytes.
  pub fetch_piece-Brings :
      (has_context has_callback : Bool) (p : PieceSpec) (v u : World c) (a : Unit {0})
      → IsBytes v.link.input.bytes
      → p.len < 2 ^ 32
      → fetch_piece c has_context has_callback p v ≡ done a u
      → (p.index < v.link.session.piece_count)
        × (0 < p.len)
        × Brings p u.sink u.link.input.bytes 0 v.sink v.link.input.bytes
  unfolding fetch_piece
  fetch_piece-Brings false k p v u a all small e = absurd (ground arith)
  fetch_piece-Brings true false p v u a all small e = absurd (ground arith)
  fetch_piece-Brings true true p v u a all small e =
      elim (dec_lt p.index v.link.session.piece_count) [
        | no out ↦ absurd (ground arith)
        | yes inside ↦ elim (dec_lt 0 p.len) [
          | no empty ↦ absurd (ground arith)
          | yes some_bytes ↦ (inside, some_bytes, checked-Brings p v u a all small (ground arith))
        ]
      ]
