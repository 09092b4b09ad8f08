-- ===== src/Metainfo/Open.antt =====
-- internal/metainfo/parse.go: `Open`, from the bytes of the file on. The package bencode and SHA-1
-- are parameters.
use bittorrent_client.Base.{List, Result, err, ok, ℕ}
use bittorrent_client.Metainfo.{Info, LayoutError, TorrentFile, to_torrent_file}
use bittorrent_client.Disk.{DiskError}

-- rawMetaInfo: the info dictionary as the bytes that stand in the file.
pub record RawMetaInfo : Type 0 where
  pub announce : List ℕ
  pub info : List ℕ

-- bencode.Unmarshal at the two types that Open uses it for.
pub record Bencode : Type 0 where
  pub unmarshal_raw : List ℕ → Result ℕ RawMetaInfo
  pub unmarshal_info : List ℕ → Result ℕ Info

pub data OpenError : Type 0 where
  unreadable : DiskError → OpenError
  undecodable info_undecodable : ℕ → OpenError
  bad_layout : LayoutError → OpenError

checked_layout : Result LayoutError TorrentFile → Result OpenError TorrentFile
checked_layout (err e) = err (bad_layout e)
checked_layout (ok t) = ok t

module _ (b : Bencode) (sha1 : List ℕ → List ℕ) where
  with_info : RawMetaInfo → Result ℕ Info → Result OpenError TorrentFile
  unfolding checked_layout
  with_info raw (err e) = err (info_undecodable e)
  with_info raw (ok i) =
      checked_layout
        (to_torrent_file (record { announce = raw.announce; info = i }) (sha1 raw.info))

  with_raw : Result ℕ RawMetaInfo → Result OpenError TorrentFile
  unfolding with_info
  with_raw (err e) = err (undecodable e)
  with_raw (ok raw) = with_info raw (b.unmarshal_info raw.info)

  -- Open, with the outcome of os.ReadFile.
  unfoldable pub open_torrent : Result DiskError (List ℕ) → Result OpenError TorrentFile
  unfolding with_raw
  open_torrent (err e) = err (unreadable e)
  open_torrent (ok bytes) = with_raw (b.unmarshal_raw bytes)
