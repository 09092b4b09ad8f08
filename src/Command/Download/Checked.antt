-- ===== src/Command/Download/Checked.antt =====
-- The checks of downloadPiece before it makes a file: they only look at the disk, and what passes
-- them.
use bittorrent_client.Base.{
  Bool-cases, Flow, Leads, List, Result, ap, arith, err, fail, if◌then◌else◌, inl, inr, length,
  magnitude, negsuc, none, not, ok, pos, refl, suc, sym, zero, ℕ, ℤ, ◌<◌, ◌^◌, ◌∙◌, ◌≡◌,
}
use bittorrent_client.Disk.{
  Disk, DiskError, Entry, Host, device, directory, exist, lstat_on, not_exist, regular, same_file,
  short_file, stat, stat_on, symlink,
}
use bittorrent_client.Disk.Calls.{Outcome}
use bittorrent_client.Metainfo.{TorrentFile}
use bittorrent_client.Command.{CommandError, output_exists, Flags, Machine, input_of}
use bittorrent_client.Command.Span.{fits_wire, piece_length_at}
use bittorrent_client.Command.Steps.{Still, look-Outcome}
use bittorrent_client.Command.Download.{
  check_destination, check_piece_index, check_piece_length, compare_input, destination, not_input,
}

-- The index is one of the torrent's, and the length a positive number of 32 bits.
pub record Target (f : Flags) (t : TorrentFile) (n : ℕ) : Type 0 where
  pub index_small : magnitude f.piece < length t.piece_hashes
  pub index_fits : magnitude f.piece < 2 ^ 32
  pub length_is : piece_length_at t (magnitude f.piece) ≡ pos n
  pub positive : 0 < n
  pub fits : n < 2 ^ 32

check_piece_index-none :
    (f : Flags) (t : TorrentFile)
    → check_piece_index f t ≡ none
    → (magnitude f.piece < length t.piece_hashes) × (magnitude f.piece < 2 ^ 32)
unfolding check_piece_index
check_piece_index-none f t e = (ground arith, ground arith)

check_piece_length-none :
    (x : ℤ) → check_piece_length x ≡ none → (n : ℕ) × (x ≡ pos n) × (0 < n) × (n < 2 ^ 32)
unfolding check_piece_length fits_wire
check_piece_length-none (pos zero) e = absurd (ground arith)
check_piece_length-none (pos (suc n)) e = (suc n, refl, omega arith, ground arith)
check_piece_length-none (negsuc n) e = absurd (ground arith)

pub checks-Target :
    (f : Flags) (t : TorrentFile)
    → check_piece_index f t ≡ none
    → check_piece_length (piece_length_at t (magnitude f.piece)) ≡ none
    → Target f t (magnitude (piece_length_at t (magnitude f.piece)))
checks-Target f t a b =
    let (n, same, some_bytes, small) = check_piece_length-none _ b in
    let size : magnitude (piece_length_at t (magnitude f.piece)) ≡ n = ap magnitude same in
    record {
      index_small = (check_piece_index-none f t a).0;
      index_fits = (check_piece_index-none f t a).1;
      length_is = same ∙ ap pos (sym size);
      positive = omega arith;
      fits = omega arith;
    }

module _ (m : Machine) (d : Disk) where
  open m use {fault}

  abbrev Stays : Flow CommandError Host (Unit {0}) → Type 0
  Stays r = Leads (λ _ k. Still d k) (λ _ k. Still d k) r

  abbrev Seen : Result DiskError Entry × Host → Type 0
  Seen r = Still d r.1

  seen :
      (g : Entry → Type 0) (r : Result DiskError Entry × Host)
      → Outcome (λ a k. Still d k × g a) (λ k. Still d k) r
      → Seen r
  seen g (ok a, h) o = o.0
  seen g (err e, h) o = o

  compare_input-Stays :
      (x : Entry) (r : Result DiskError Entry × Host) → Seen r → Stays (compare_input m x r)
  unfolding compare_input
  compare_input-Stays x (ok y, h) s = elim (Bool-cases (same_file x y)) [
    | inl e ↦ rw e s
    | inr e ↦ rw e s
  ]
  compare_input-Stays x (err not_exist, h) s = s
  compare_input-Stays x (err exist, h) s = s
  compare_input-Stays x (err short_file, h) s = s
  compare_input-Stays x (err (device c), h) s = s

  not_input-Stays :
      (output : List ℕ) (r : Result DiskError Entry × Host) → Seen r → Stays (not_input m output r)
  unfolding not_input
  not_input-Stays output (ok x, h) s =
      compare_input-Stays x _ (seen _ _ (look-Outcome fault (λ e. stat_on e output) d h s))
  not_input-Stays output (err e, h) s = s

  forced-Stays :
      (f : Flags) (h : Host)
      → Still d h
      → Stays (
          if not f.force
          then fail output_exists h
          else not_input m f.output (stat fault (input_of f) h))
  forced-Stays f h s = elim (Bool-cases (not f.force)) [
    | inl e ↦ rw e s
    | inr e ↦ rw e (
        not_input-Stays f.output _
          (seen _ _ (look-Outcome fault (λ x. stat_on x (input_of f)) d h s)))
  ]

  destination-Stays :
      (f : Flags) (r : Result DiskError Entry × Host) → Seen r → Stays (destination m f r)
  unfolding destination
  destination-Stays f (ok (directory i), h) s = s
  destination-Stays f (ok (regular i), h) s = forced-Stays f h s
  destination-Stays f (ok (symlink target), h) s = forced-Stays f h s
  destination-Stays f (err not_exist, h) s = s
  destination-Stays f (err exist, h) s = s
  destination-Stays f (err short_file, h) s = s
  destination-Stays f (err (device c), h) s = s

  pub check_destination-Leads :
      (f : Flags) (h : Host)
      → Still d h
      → Leads (λ _ k. Still d k) (λ _ k. Still d k) (check_destination m f h)
  unfolding check_destination
  check_destination-Leads f h s =
      destination-Stays f _ (seen _ _ (look-Outcome fault (λ e. lstat_on e f.output) d h s))
