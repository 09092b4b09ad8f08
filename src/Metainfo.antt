-- ===== src/Metainfo.antt =====
-- internal/metainfo/parse.go: the piece layout of a decoded metainfo file. Strings and the arrays
-- of 20 bytes are byte strings. int64 and int are Go's 64-bit integers: no sum or quotient here
-- leaves their range.
pub mod Layout
pub mod Open
use bittorrent_client.Base.{
  List, Result, err, if◌then◌else◌, is_negative, is_positive, length, ltb, magnitude, not, ok,
  slices, ℕ, ℤ, ◌%◌, ◌+◌, ◌-◌, ◌/◌, ◌==◌, ◌^◌,
}

pub record Info : Type 0 where
  pub len : ℤ
  pub name : List ℕ
  pub piece_length : ℤ
  pub pieces : List ℕ

pub record MetaInfo : Type 0 where
  pub announce : List ℕ
  pub info : Info

pub record TorrentFile : Type 0 where
  pub announce : List ℕ
  pub info_hash : List ℕ
  pub piece_hashes : List (List ℕ)
  pub piece_length : ℤ
  pub len : ℤ
  pub name : List ℕ

pub data LayoutError : Type 0 where
  piece_length_not_positive : LayoutError
  negative_length : LayoutError
  partial_hash : ℕ → LayoutError
  too_many_hashes : LayoutError
  hash_count : ℕ → ℕ → LayoutError

abbrev pub hash_length : ℕ
hash_length = 20

unfoldable pub split_piece_hashes : Info → Result LayoutError (List (List ℕ))
split_piece_hashes i =
    if length i.pieces % hash_length == 0
    then ok (slices hash_length (length i.pieces / hash_length) 0 i.pieces)
    else err (partial_hash (length i.pieces))

-- expectedPieceCount, for a positive piece length
expected_piece_count : ℤ → ℤ → ℕ
expected_piece_count len piece_length =
    if is_positive len then 1 + (magnitude len - 1) / magnitude piece_length else 0

with_hashes :
    MetaInfo → List ℕ → Result LayoutError (List (List ℕ)) → Result LayoutError TorrentFile
with_hashes m info_hash (err e) = err e
with_hashes m info_hash (ok hashes) =
    let expected = expected_piece_count m.info.len m.info.piece_length in
    if ltb (2 ^ 32) (length hashes)
    then err too_many_hashes
    else if not (length hashes == expected)
    then err (hash_count (length hashes) expected)
    else ok (record {
      announce = m.announce;
      info_hash = info_hash;
      piece_hashes = hashes;
      piece_length = m.info.piece_length;
      len = m.info.len;
      name = m.info.name;
    })

unfoldable pub to_torrent_file : MetaInfo → List ℕ → Result LayoutError TorrentFile
unfolding expected_piece_count with_hashes
to_torrent_file m info_hash =
    if not (is_positive m.info.piece_length)
    then err piece_length_not_positive
    else if is_negative m.info.len
    then err negative_length
    else with_hashes m info_hash (split_piece_hashes m.info)
