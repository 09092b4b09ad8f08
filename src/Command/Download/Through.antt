-- ===== src/Command/Download/Through.antt =====
-- downloadPiece up to its temporary file: until then the disk does not change.
use bittorrent_client.Base.{
  Flow, Leads, Leads-mono, List, after, after-Leads, magnitude, none, ℕ, ℤ, ◌≡◌,
}
use bittorrent_client.Disk.{Disk, Host, read_file_on}
use bittorrent_client.Metainfo.{TorrentFile}
use bittorrent_client.Command.{
  CommandError, Flags, Machine, check_download_flags, input_of, new_peer_id, refuse,
}
use bittorrent_client.Command.Span.{piece_length_at}
use bittorrent_client.Command.Steps.{
  Opens, Still, give-Leads, look-Outcome, open_input-Leads, refuse-Leads,
}
use bittorrent_client.Command.Download.{
  check_destination, check_piece_index, check_piece_length, download_of, download_piece, spec_of,
  with_temp,
}
use bittorrent_client.Command.Download.Checked.{Target, check_destination-Leads, checks-Target}

-- What holds of the unchanged disk, and of what with_temp leaves for a torrent that has the piece,
-- holds of what downloadPiece leaves.
module _ (m : Machine) (f : Flags) (d : Disk) (S F : Host → Type 0)
    (untouched : (k : Host) → Still d k → F k)
    (filled : (t : TorrentFile) (peer_id : List ℕ) (k : Host)
      → Opens m f d t
      → Target f t (magnitude (piece_length_at t (magnitude f.piece)))
      → Still d k
      → Leads (λ _ j. S j) (λ _ j. F j) (with_temp m f t peer_id (spec_of m f t) k)) where
  open m use {fault, random}

  abbrev Ends : Flow CommandError Host (Unit {0}) → Type 0
  Ends r = Leads (λ _ k. S k) (λ _ k. F k) r

  from_length :
      (t : TorrentFile)
      → Opens m f d t
      → check_piece_index f t ≡ none
      → (peer_id : List ℕ) (h : Host) → Still d h
      → Ends (
          after
            (refuse (check_piece_length (piece_length_at t (magnitude f.piece))) h)
            λ _ k. after (check_destination m f k) λ _ j. with_temp m f t peer_id (spec_of m f t) j)
  from_length t o index peer_id h s =
      let size : ℤ = piece_length_at t (magnitude f.piece) in
      after-Leads (λ _ k. Still d k × (check_piece_length size ≡ none)) (λ _ k. S k) (λ _ k. F k)
        (refuse (check_piece_length size) h)
        (λ _ k. after (check_destination m f k) λ _ j. with_temp m f t peer_id (spec_of m f t) j)
        (refuse-Leads _ F (check_piece_length size) h (λ e. (s, e)) (untouched h s))
        λ _ k a.
          after-Leads (λ _ j. Still d j) (λ _ j. S j) (λ _ j. F j) (check_destination m f k)
            (λ _ j. with_temp m f t peer_id (spec_of m f t) j)
            (Leads-mono (λ _ j. Still d j) (λ _ j. Still d j) (λ _ j. Still d j) (λ _ j. F j) _
              (λ _ j q. q) (λ x j q. untouched j q) (check_destination-Leads m d f k a.0))
            λ _ j b. filled t peer_id j o (checks-Target f t index a.1) b

  download_of-Ends :
      (t : TorrentFile) (h : Host) → Opens m f d t → Still d h → Ends (download_of m f t h)
  unfolding download_of
  download_of-Ends t h o s =
      after-Leads (λ _ k. Still d k × (check_piece_index f t ≡ none)) (λ _ k. S k) (λ _ k. F k) _ _
        (refuse-Leads _ F (check_piece_index f t) h (λ e. (s, e)) (untouched h s))
        λ _ k a.
          after-Leads (λ peer_id j. Still d j) (λ _ k. S k) (λ _ k. F k) _ _
            (give-Leads _ F (new_peer_id random) k (λ _ _. a.0) (untouched k a.0))
            λ peer_id j b. from_length t o a.1 peer_id j b

  pub download_piece-Ends :
      (h : Host) → Still d h → Leads (λ _ k. S k) (λ _ k. F k) (download_piece m f h)
  unfolding download_piece
  download_piece-Ends h s =
      after-Leads (λ _ k. Still d k) (λ _ k. S k) (λ _ k. F k) _ _
        (refuse-Leads _ F (check_download_flags f) h (λ _. s) (untouched h s))
        λ _ k s.
          after-Leads (λ t j. Still d j × Opens m f d t) (λ _ j. S j) (λ _ j. F j) _ _
            (Leads-mono (λ t j. Still d j × Opens m f d t) (λ t j. Still d j × Opens m f d t)
              (λ _ j. Still d j) (λ _ j. F j) _ (λ _ j q. q) (λ x j q. untouched j q)
              (open_input-Leads m f d _
                (look-Outcome fault (λ e. read_file_on e (input_of f)) d k s)))
            λ t j o. download_of-Ends t j o.1 o.0
