-- ===== src/Command/Download/Safe.antt =====
-- What downloadPiece does to the disk, on every outcome.
use bittorrent_client.Base.{
  All, Bool-cases, Leads, Leads-mono, List, [], after-Leads, arith, bytes_eq, bytes_eq→eq, false,
  get_or, inl, inr, magnitude, none, refl, some, subst, sym, ℕ, ◌<◌, ◌∙◌, ◌≡◌, ◌≢◌, ◌⊎◌,
}
use bittorrent_client.Disk.{Disk, File, FileName, Entry, Host, create_temp}
use bittorrent_client.Metainfo.{TorrentFile}
use bittorrent_client.Command.{Flags, Machine, lift, not_created}
use bittorrent_client.Command.Span.{piece_length_at}
use bittorrent_client.Command.Steps.{Still, Opens}
use bittorrent_client.Command.Download.{deferred, fill, spec_of, with_temp, download_piece}
use bittorrent_client.Command.Download.Checked.{Target}
use bittorrent_client.Command.Download.Placed.{Loose, Placed}
use bittorrent_client.Peer.Fetch.{PieceSpec}
use bittorrent_client.Command.Download.Through.{download_piece-Ends}
use bittorrent_client.Command.Download.Attempt.{
  Temp, create_temp-Leads, distinct-bytes_eq, IsDisk, EndsBadly, EndsWell, fill-Leads,
  deferred-Leads,
}

-- Every name but the output that was there stands for what it stood for, and no file that was there
-- has changed.
pub record Safe (output : FileName) (d e : Disk) : Type 0 where
  pub entry_kept :
      (name : FileName) (x : Entry) → name ≢ output → d.entry name ≡ some x → e.entry name ≡ some x
  pub contents_kept : (i : ℕ) → i < d.next → e.contents i ≡ d.contents i

Loose-Safe :
    (f : File) (output : FileName) (d e : Disk)
    → d.entry f.name ≡ none
    → f.inode ≡ d.next
    → Loose f output d e
    → Safe output d e
Loose-Safe f output d e unused next l = record {
  entry_kept = λ name x apart q. elim (Bool-cases (bytes_eq name f.name)) [
    | inl same ↦
        let free : d.entry name ≡ none =
          subst (λ y. d.entry y ≡ none) (sym (bytes_eq→eq name f.name same)) unused in
        absurd (ground (arith, free, q))
    | inr other ↦ l.others name (distinct-bytes_eq name output apart) other ∙ q
  ];
  contents_kept = λ i small. l.contents_same i (λ same. absurd (omega (arith, small, same, next)));
}

module _ (m : Machine) (f : Flags) where
  open m use {fault, bencode, sha1, temp_names}

  abbrev hash_of : TorrentFile → List ℕ
  hash_of t = get_or t.piece_hashes (magnitude f.piece) []

  -- The output is the piece: as long as the torrent says, with the hash that it gives.
  pub record IsPiece (t : TorrentFile) (e : Disk) : Type 0 where
    pub size : ℕ
    pub target : Target f t size
    pub placed : Placed sha1 f.output size (hash_of t) e

  -- What downloadPiece leaves when it ends well.
  pub record Succeeded (d e : Disk) : Type 0 where
    pub t : TorrentFile
    pub opens : Opens m f d t
    pub safe : Safe f.output d e
    pub piece : IsPiece t e
    pub unforced : f.force ≡ false → d.entry f.output ≡ none

  -- What it leaves when it fails: the output may be published already.
  pub record Failed (d e : Disk) : Type 0 where
    pub safe : Safe f.output d e
    pub kept_or_piece :
        (e.entry f.output ≡ d.entry f.output) ⊎ ((t : TorrentFile) × Opens m f d t × IsPiece t e)

  untouched-Failed : (d e : Disk) → e ≡ d → Failed d e
  untouched-Failed d e s = subst (Failed d) (sym s) (record {
    safe = record { entry_kept = λ name x a q. q; contents_kept = λ i a. refl };
    kept_or_piece = inl refl;
  })

  kept_or :
      (t : TorrentFile) (d e : Disk)
      → Opens m f d t
      → Target f t (magnitude (piece_length_at t (magnitude f.piece)))
      → (e.entry f.output ≡ d.entry f.output)
        ⊎ Placed sha1 f.output (magnitude (piece_length_at t (magnitude f.piece))) (hash_of t) e
      → (e.entry f.output ≡ d.entry f.output) ⊎ ((u : TorrentFile) × Opens m f d u × IsPiece u e)
  kept_or t d e o target (inl same) = inl same
  kept_or t d e o target (inr p) = inr (t, o, record { size = _; target = target; placed = p })

  with_temp-Leads :
      (t : TorrentFile) (d : Disk) (peer_id : List ℕ) (h : Host)
      → IsDisk d
      → All (λ n. n ≢ f.output) (temp_names f.output)
      → Opens m f d t
      → Target f t (magnitude (piece_length_at t (magnitude f.piece)))
      → Still d h
      → Leads
          (λ _ k. Succeeded d k.disk)
          (λ _ k. Failed d k.disk)
          (with_temp m f t peer_id (spec_of m f t) h)
  unfolding with_temp
  with_temp-Leads t d peer_id h w names o target s =
      let p : PieceSpec = spec_of m f t in
      after-Leads (λ temp k. Temp m f d temp k) (λ _ k. Succeeded d k.disk) (λ _ k. Failed d k.disk)
        (lift not_created (create_temp fault (temp_names f.output) h))
        (λ temp k. deferred m temp (fill m f t peer_id p temp k))
        (create_temp-Leads m f d h (λ k. Failed d k.disk) names s (untouched-Failed d h.disk s))
        λ temp k c.
          let apart : bytes_eq f.output temp.name ≡ false =
            distinct-bytes_eq f.output temp.name (λ same. c.0 (sym same)) in
          Leads-mono (λ _ j. EndsWell m f t d w temp p target.fits apart j)
            (λ _ j. Succeeded d j.disk) (λ _ j. EndsBadly m f t d w temp p target.fits apart j)
            (λ _ j. Failed d j.disk) _
            (λ a j g. record {
              t = t;
              opens = o;
              safe = Loose-Safe temp f.output d j.disk c.1.unused c.1.inode_next g.0.0;
              piece = record { size = p.len; target = target; placed = g.0.1 };
              unforced = g.1;
            })
            (λ x j b. record {
              safe = Loose-Safe temp f.output d j.disk c.1.unused c.1.inode_next b.0;
              kept_or_piece = kept_or t d j.disk o target b.1;
            })
            (deferred-Leads m f t d w temp p target.fits apart (fill m f t peer_id p temp k)
              (fill-Leads m f t d w temp p target.fits apart peer_id k.disk k refl c.1))

  -- Whatever the tracker, the peer and the calls of the file system come to, downloadPiece leaves
  -- every name but the output that stood for something as it was, and the contents of every file
  -- that was there. When it ends well, the input file holds a torrent that has a piece of the index
  -- asked for, of a positive length below 2 ^ 32 bytes; the output stands for a regular file of
  -- exactly that many bytes, with the SHA-1 hash that the torrent gives for the piece; and without
  -- force the output stood for nothing before. When it fails, the output is as it was, or stands
  -- for such a file already. The inodes of the disk are numbered, and CreateTemp does not try the
  -- output's own name.
  pub download_piece-Safe :
      (h : Host)
      → IsDisk h.disk
      → All (λ n. n ≢ f.output) (temp_names f.output)
      → Leads (λ _ k. Succeeded h.disk k.disk) (λ _ k. Failed h.disk k.disk) (download_piece m f h)
  download_piece-Safe h w names =
      download_piece-Ends m f h.disk (λ k. Succeeded h.disk k.disk) (λ k. Failed h.disk k.disk)
        (λ k s. untouched-Failed h.disk k.disk s)
        (λ t peer_id k o target s. with_temp-Leads t h.disk peer_id k w names o target s) h refl
