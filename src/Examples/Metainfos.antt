-- ===== src/Examples/Metainfos.antt =====
-- A file of 300 bytes in pieces of 256.
use bittorrent_client.Base.{
  List, [], arith, min, ok, pos, refl, replicate, slices, ℕ, ◌*◌, ◌++◌, ◌-◌, ◌<◌, ◌↔◌, ◌∷◌, ◌≡◌,
}
use bittorrent_client.Metainfo.{MetaInfo, TorrentFile, to_torrent_file, split_piece_hashes}
use bittorrent_client.Metainfo.Layout.{Layout, to_torrent_file_iff}
use bittorrent_client.Command.Span.{
  bits64, to_int64, int64_mul, int64_sub, min_int, piece_length_at,
}
use bittorrent_client.Command.Span.Tiles.{piece_length_at-Tiles, total_length}

abbrev two_pieces : MetaInfo
two_pieces = record {
  announce = 104 ∷ [];
  info = record {
    len = pos 300;
    name = 102 ∷ [];
    piece_length = pos 256;
    pieces = replicate 20 1 ++ replicate 20 2;
  };
}

abbrev identity : List ℕ
identity = replicate 20 7

abbrev two_hashes : TorrentFile
two_hashes = record {
  announce = 104 ∷ [];
  info_hash = replicate 20 7;
  piece_hashes = replicate 20 1 ∷ replicate 20 2 ∷ [];
  piece_length = pos 256;
  len = pos 300;
  name = 102 ∷ [];
}

to_torrent_file_iff_example :
    (to_torrent_file two_pieces identity ≡ ok two_hashes) ↔ Layout two_pieces identity two_hashes
to_torrent_file_iff_example = to_torrent_file_iff two_pieces identity two_hashes

accept_two_pieces : to_torrent_file two_pieces identity ≡ ok two_hashes
unfolding to_torrent_file split_piece_hashes slices
accept_two_pieces = refl

piece_length_at-Tiles_example :
    ((i : ℕ)
      → i < 2
      → (i * 256 < 300) × (piece_length_at two_hashes i ≡ pos (min 256 (300 - i * 256))))
    × (total_length two_hashes 2 ≡ 300)
piece_length_at-Tiles_example =
    piece_length_at-Tiles two_pieces identity two_hashes accept_two_pieces (omega arith)
      (omega arith)

last_piece : piece_length_at two_hashes 1 ≡ pos 44
unfolding piece_length_at min_int int64_sub int64_mul to_int64 bits64
last_piece = refl
