-- ===== src/Command/Span/Tiles.antt =====
-- The lengths of the pieces of a torrent.
use bittorrent_client.Base.{
  List, ap, arith, length, lt→ltb, magnitude, min, ok, pos, refl, subst, suc, zero, ℕ, ◌%◌, ◌*◌,
  ◌+◌, ◌-◌, ◌<◌, ◌^◌, ◌∙◌, ◌≡◌, ◌≤◌,
}
use native.Mathlib.Nat.{le-mul_of_pos_right, mul-le-mul_right}
use bittorrent_client.Metainfo.{MetaInfo, TorrentFile, to_torrent_file}
use bittorrent_client.Metainfo.Layout.{Layout, to_torrent_file_iff}
use bittorrent_client.Command.Span.{
  bits64, to_int64, int64_mul, int64_sub, min_int, piece_length_at,
}

to_int64_small : (a : ℕ) → a < 2 ^ 63 → to_int64 a ≡ pos a
unfolding to_int64
to_int64_small a h = ground arith

bits64_small : (a : ℕ) → a < 2 ^ 63 → bits64 (pos a) ≡ a
unfolding bits64
bits64_small a h = omega arith

mul-exact :
    (a b : ℕ) → a < 2 ^ 63 → b < 2 ^ 63 → a * b < 2 ^ 63 → int64_mul (pos a) (pos b) ≡ pos (a * b)
unfolding int64_mul
mul-exact a b h k small = rw (bits64_small a h, bits64_small b k) (to_int64_small (a * b) small)

sub-exact : (a b : ℕ) → a < 2 ^ 63 → b ≤ a → int64_sub (pos a) (pos b) ≡ pos (a - b)
unfolding int64_sub to_int64
sub-exact a b h k =
    rw (bits64_small a h, bits64_small b (omega arith))
      (let wrapped : (a + (2 ^ 64 - b)) % 2 ^ 64 ≡ a - b = omega arith in
        rw (wrapped, lt→ltb (a - b) (2 ^ 63) (omega arith)) refl)

-- A piece in use starts before the end.
starts_before : (size n k i : ℕ) → k * size < n + size → i < k → i * size < n
starts_before size n k i c h = omega (arith, c, mul-le-mul_right size h)

-- Below the limits of int64 nothing wraps.
length_at :
    (t : TorrentFile) (size n k i : ℕ)
    → t.piece_length ≡ pos size
    → t.len ≡ pos n
    → 0 < size
    → n < 2 ^ 63
    → size < 2 ^ 63
    → k * size < n + size
    → i < k
    → piece_length_at t i ≡ pos (min size (n - i * size))
unfolding piece_length_at min_int
length_at t size n k i p l some_bytes small_n small c h =
    let start : i * size < n = starts_before size n k i c h in
    let index : i ≤ i * size = le-mul_of_pos_right i some_bytes in
    let product : int64_mul (pos i) (pos size) ≡ pos (i * size) =
      mul-exact i size (omega arith) small (omega arith) in
    let rest : int64_sub (pos n) (pos (i * size)) ≡ pos (n - i * size) =
      sub-exact n (i * size) small_n (omega arith) in
    rw (p, l, product, rest) refl

-- The lengths of the first pieces.
abbrev pub total_length : TorrentFile → ℕ → ℕ
total_length t zero = 0
total_length t (suc i) = total_length t i + magnitude (piece_length_at t i)

total-min :
    (t : TorrentFile) (size n k i : ℕ)
    → t.piece_length ≡ pos size
    → t.len ≡ pos n
    → 0 < size
    → n < 2 ^ 63
    → size < 2 ^ 63
    → k * size < n + size
    → i ≤ k
    → total_length t i ≡ min (i * size) n
total-min t size n k zero p l some_bytes small_n small c h = omega arith
total-min t size n k (suc i) p l some_bytes small_n small c h =
    let before : total_length t i ≡ min (i * size) n =
      total-min t size n k i p l some_bytes small_n small c (omega arith) in
    let here : magnitude (piece_length_at t i) ≡ min size (n - i * size) =
      ap magnitude (length_at t size n k i p l some_bytes small_n small c h) in
    rw (before, here) (omega (arith, starts_before size n k i c h))

-- For a torrent that toTorrentFile accepts, no piece index of it makes the int64 arithmetic of
-- downloadPiece wrap: piece i starts inside the content and is as long as the piece length or the
-- rest of the content, whichever is less, and the lengths of all pieces add up to the content.
-- Both lengths are int64.
pub piece_length_at-Tiles :
    (m : MetaInfo) (info_hash : List ℕ) (t : TorrentFile)
    → to_torrent_file m info_hash ≡ ok t
    → magnitude t.piece_length < 2 ^ 63
    → magnitude t.len < 2 ^ 63
    → ((i : ℕ)
        → i < length t.piece_hashes
        → (i * magnitude t.piece_length < magnitude t.len)
          × (piece_length_at t i
              ≡ pos (
                  min (magnitude t.piece_length) (magnitude t.len - i * magnitude t.piece_length))))
      × (total_length t (length t.piece_hashes) ≡ magnitude t.len)
piece_length_at-Tiles m info_hash t e small small_n =
    let lay : Layout m info_hash t = (to_torrent_file_iff m info_hash t).0 e in
    let p : t.piece_length ≡ pos lay.size = ap (λ (u : TorrentFile). u.piece_length) lay.fields in
    let l : t.len ≡ pos lay.n = ap (λ (u : TorrentFile). u.len) lay.fields in
    let k : ℕ = length t.piece_hashes in
    let limit : lay.size < 2 ^ 63 = subst (λ (x : ℕ). x < 2 ^ 63) (ap magnitude p) small in
    let limit_n : lay.n < 2 ^ 63 = subst (λ (x : ℕ). x < 2 ^ 63) (ap magnitude l) small_n in
    let above : k * lay.size < lay.n + lay.size = lay.covers.1 in
    let all : total_length t k ≡ min (k * lay.size) lay.n =
      total-min t lay.size lay.n k k p l lay.positive limit_n limit above (omega arith) in
    rw (ap magnitude p, ap magnitude l)
      (
        λ i h. (
          starts_before lay.size lay.n k i above h,
          length_at t lay.size lay.n k i p l lay.positive limit_n limit above h,
        ),
        all ∙ omega (arith, lay.covers.0),
      )
