-- ===== src/Command/Download.antt =====
-- cmd/bt/main.go: `downloadPiece`.
pub mod Stored
pub mod Filled
pub mod Checked
pub mod Placed
pub mod Removed
pub mod Publishing
pub mod Attempt
pub mod Through
pub mod Safe
pub mod Finite
pub mod Clean
use bittorrent_client.Base.{
  Bool, Flow, List, Option, Result, [], bytes_eq, done, err, fail, false, get_or, if◌then◌else◌,
  is_negative, leb, length, magnitude, none, not, ok, pos, some, spent, suc, true, ℕ, ℤ, ◌==◌,
  ◌>>=◌, ◌^◌,
}
use bittorrent_client.Disk.{
  DiskError, Entry, File, FileName, Host, WroteAt, directory, not_exist, close_file, create_temp,
  link, lstat, read_file, read_start, remove, rename, same_file, seek_start, stat, write_at,
}
use bittorrent_client.Metainfo.{TorrentFile}
use bittorrent_client.Peer.Session.{Session, SessionError, new_session}
use bittorrent_client.Peer.Fetch.{Caller, FetchError, PieceSpec, World, fetch_piece}
use bittorrent_client.Command.{
  CommandError, DialResult, Flags, Machine, Work, check_download_flags, find_peer, give, input_of,
  lift, new_peer_id, open_input, refuse, hash_mismatch, negative_content, no_session, not_closed,
  not_created, not_fetched, not_hashed, not_published, not_removed, not_sought, output_exists,
  output_is_directory, output_is_input, piece_length_range, piece_range, piece_too_large,
  stat_input, stat_output,
}
use bittorrent_client.Command.Span.{fits_wire, piece_length_at}

-- The callback's answer to WriteAt: 0 is io.ErrShortWrite, and suc e the error e of the device.
stored : ℕ → WroteAt → Option ℕ × Host
stored size r = elim r.error [
  | some e ↦ (some (suc e), r.host)
  | none ↦ (if r.count == size then none else some 0, r.host)
]

-- The checks that need the torrent.
unfoldable pub check_piece_index : Flags → TorrentFile → Option CommandError
check_piece_index f t =
    if is_negative t.len
    then some negative_content
    else if leb (length t.piece_hashes) (magnitude f.piece)
    then some (piece_range (magnitude f.piece) (length t.piece_hashes))
    else if leb (2 ^ 32) (magnitude f.piece)
    then some (piece_too_large (magnitude f.piece))
    else none

unfoldable pub check_piece_length : ℤ → Option CommandError
check_piece_length len = if fits_wire len then none else some (piece_length_range len)

module _ (m : Machine) where
  open m use {fault, sha1, writer, random, temp_names, context, watch}

  -- The callback: WriteAt on the temporary file.
  unfoldable pub store : File → ℕ → List ℕ → Host → Option ℕ × Host
  unfolding stored
  store f offset bytes h = stored (length bytes) (write_at fault f offset bytes h)

  abbrev pub caller : File → Caller
  caller f = record {
    writer = writer;
    Sink = Host;
    on_block = store f;
    context = context;
    watch = watch;
  }

  -- os.SameFile; an output whose target is missing is no file.
  compare_input : Entry → Result DiskError Entry × Host → Flow CommandError Host (Unit {0})
  compare_input input (ok output, h) =
      if same_file input output then fail output_is_input h else done tt h
  compare_input input (err not_exist, h) = done tt h
  compare_input input (err e, h) = fail (stat_output e) h

  not_input : FileName → Result DiskError Entry × Host → Flow CommandError Host (Unit {0})
  unfolding compare_input
  not_input output (ok input, h) = compare_input input (stat fault output h)
  not_input output (err e, h) = fail (stat_input e) h

  -- The destination, with what os.Lstat returns.
  destination : Flags → Result DiskError Entry × Host → Flow CommandError Host (Unit {0})
  unfolding not_input
  destination f (ok (directory i), h) = fail output_is_directory h
  destination f (ok e, h) =
      if not f.force then fail output_exists h else not_input f.output (stat fault (input_of f) h)
  destination f (err not_exist, h) = done tt h
  destination f (err e, h) = fail (stat_output e) h

  pub check_destination : Flags → Work (Unit {0})
  unfolding destination
  check_destination f h = destination f (lstat fault f.output h)

  -- What FetchPiece leaves, with the disk for the state of the callback.
  fetch_outcome :
      (f : File) → Flow FetchError (World (caller f)) (Unit {0}) → Flow CommandError Host (Unit {0})
  fetch_outcome f (done a u) = done a u.sink
  fetch_outcome f (fail e u) = fail (not_fetched e) u.sink
  fetch_outcome f spent = spent

  in_session : File → DialResult writer → PieceSpec → Result SessionError Session → Work (Unit {0})
  unfolding fetch_outcome
  in_session f r p (err e) h = fail (no_session e) h
  in_session f r p (ok s) h = fetch_outcome f (
      fetch_piece (caller f) true true p (record {
        link = record { session = s; input = r.conn.input };
        out = r.conn.out;
        sink = h;
        looks = 0;
      }))

  pub fetch_from :
      File → TorrentFile → PieceSpec → Result CommandError (DialResult writer) → Work (Unit {0})
  unfolding in_session
  fetch_from f t p (err e) h = fail e h
  fetch_from f t p (ok r) h = in_session f r p (new_session true (pos (length t.piece_hashes))) h

  compare_hash : List ℕ → List ℕ → Work (Unit {0})
  compare_hash expected bytes h =
      if bytes_eq (sha1 bytes) expected then done tt h else fail hash_mismatch h

  -- The bytes of the file, read back, have the piece's hash.
  pub verify : File → TorrentFile → PieceSpec → Work (Unit {0})
  unfolding lift compare_hash
  verify f t p = do
    _ ← λ h. lift not_sought (seek_start fault h)
    bytes ← λ h. lift not_hashed (read_start fault f p.len h)
    compare_hash (get_or t.piece_hashes p.index []) bytes

  pub publish : File → Bool → FileName → Work (Unit {0})
  unfolding lift
  publish f true output = do
    _ ← λ h. lift not_closed (close_file fault h)
    λ h. lift not_published (rename fault f.name output h)
  publish f false output = do
    _ ← λ h. lift not_closed (close_file fault h)
    _ ← λ h. lift not_published (link fault f.name output h)
    λ h. lift not_removed (remove fault f.name h)

  -- The deferred calls; their errors are dropped.
  abbrev pub clean_up : File → Host → Host
  clean_up f h = (remove fault f.name ((close_file fault h).1)).1

  unfoldable pub deferred :
      {A : Type 0} → File → Flow CommandError Host A → Flow CommandError Host A
  deferred f (done a h) = done a (clean_up f h)
  deferred f (fail e h) = fail e (clean_up f h)
  deferred f spent = spent

  -- From the temporary file on.
  pub fill : Flags → TorrentFile → List ℕ → PieceSpec → File → Work (Unit {0})
  unfolding fetch_from verify publish
  fill f t peer_id p temp = do
    _ ← fetch_from temp t p (find_peer m f t peer_id)
    _ ← verify temp t p
    publish temp f.force f.output

  pub with_temp : Flags → TorrentFile → List ℕ → PieceSpec → Work (Unit {0})
  unfolding lift deferred fill
  with_temp f t peer_id p = do
    temp ← λ h. lift not_created (create_temp fault (temp_names f.output) h)
    λ h. deferred temp (fill f t peer_id p temp h)

  -- The piece that is asked for; both numbers fit in 32 bits.
  abbrev pub spec_of : Flags → TorrentFile → PieceSpec
  spec_of f t = record {
    index = magnitude f.piece;
    len = magnitude (piece_length_at t (magnitude f.piece));
  }

  -- With the torrent opened.
  pub download_of : Flags → TorrentFile → Work (Unit {0})
  unfolding check_destination with_temp
  download_of f t = do
    _ ← refuse (check_piece_index f t)
    peer_id ← give (new_peer_id random)
    _ ← refuse (check_piece_length (piece_length_at t (magnitude f.piece)))
    _ ← check_destination f
    with_temp f t peer_id (spec_of f t)

  -- downloadPiece, with its flags parsed.
  unfoldable pub download_piece : Flags → Work (Unit {0})
  unfolding download_of
  download_piece f = do
    _ ← refuse (check_download_flags f)
    t ← λ h. open_input m (read_file fault (input_of f) h)
    download_of f t
