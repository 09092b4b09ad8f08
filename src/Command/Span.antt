-- ===== src/Command/Span.antt =====
-- cmd/bt/main.go: where a piece starts and how long it is, on int64, whose sums and products wrap.
pub mod Tiles
use bittorrent_client.Base.{
  Bool, if◌then◌else◌, is_positive, leb, ltb, magnitude, min, negsuc, pos, ℕ, ℤ, ◌%◌, ◌&&◌, ◌*◌,
  ◌+◌, ◌-◌, ◌^◌,
}
use bittorrent_client.Metainfo.{TorrentFile}

-- The 64 bits of a number, and the number of 64 bits.
unfoldable pub bits64 : ℤ → ℕ
bits64 (pos n) = n % 2 ^ 64
bits64 (negsuc n) = 2 ^ 64 - 1 - n % 2 ^ 64

unfoldable pub to_int64 : ℕ → ℤ
to_int64 b =
    if ltb (b % 2 ^ 64) (2 ^ 63) then pos (b % 2 ^ 64) else negsuc (2 ^ 64 - 1 - b % 2 ^ 64)

unfoldable pub int64_mul : ℤ → ℤ → ℤ
unfolding bits64 to_int64
int64_mul x y = to_int64 (bits64 x * bits64 y)

unfoldable pub int64_sub : ℤ → ℤ → ℤ
unfolding bits64 to_int64
int64_sub x y = to_int64 (bits64 x + (2 ^ 64 - bits64 y))

unfoldable pub min_int : ℤ → ℤ → ℤ
min_int (pos a) (pos b) = pos (min a b)
min_int (pos a) (negsuc b) = negsuc b
min_int (negsuc a) (pos b) = negsuc a
min_int (negsuc a) (negsuc b) = if ltb a b then negsuc b else negsuc a

-- min(torrent.PieceLength, torrent.Length-start)
unfoldable pub piece_length_at : TorrentFile → ℕ → ℤ
piece_length_at t index =
    min_int t.piece_length (int64_sub t.len (int64_mul (pos index) t.piece_length))

-- The test of the length: the peer wire holds it in 32 bits.
unfoldable pub fits_wire : ℤ → Bool
fits_wire len = is_positive len && leb (magnitude len) (2 ^ 32 - 1)
