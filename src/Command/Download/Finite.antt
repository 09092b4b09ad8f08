-- ===== src/Command/Download/Finite.antt =====
-- downloadPiece returns.
use bittorrent_client.Base.{
  Bool, Bool-cases, Flow, List, Option, Result, Returns, [], after, after-Returns, arith, done, err,
  fail, false, get_or, if◌then◌else◌, inl, inr, length, magnitude, none, not, ok, pos, refl, some,
  spent, true, ℕ, ◌<◌, ◌^◌, ◌≡◌,
}
use bittorrent_client.Disk.{
  device, directory, exist, not_exist, regular, short_file, stat, symlink, create_temp, read_file,
  read_start, seek_start, DiskError, File, Host, Entry, close_file, link, remove, rename,
}
use bittorrent_client.Metainfo.{TorrentFile}
use bittorrent_client.Metainfo.Open.{open_torrent}
use bittorrent_client.Net.{Endpoint}
use bittorrent_client.Wire.Endian.{IsBytes}
use bittorrent_client.Tracker.{AnnounceResponse}
use bittorrent_client.Peer.Session.{Session, SessionError, new_session}
use bittorrent_client.Peer.Fetch.{FetchError, PieceSpec, World}
use bittorrent_client.Peer.Fetch.Finite.{fetch_piece-Returns}
use bittorrent_client.Command.{
  input_of, output_exists, not_sought, not_hashed, not_closed, not_published, not_removed,
  not_created, CommandError, DialResult, Flags, Machine, announce_started, check_download_flags,
  dialled, endpoints, find_peer, give, lift, open_input, refuse, shaken, torrent_of, not_closed,
  not_hashed, not_published, not_removed, not_sought,
}
use bittorrent_client.Command.Span.{piece_length_at}
use bittorrent_client.Command.{new_peer_id}
use bittorrent_client.Command.Download.{
  caller, check_destination, check_piece_index, check_piece_length, compare_hash, compare_input,
  deferred, destination, download_of, download_piece, fetch_from, fetch_outcome, fill, in_session,
  not_input, publish, spec_of, verify, with_temp,
}
use bittorrent_client.Command.Download.Checked.{checks-Target}

lift-Returns :
    {A : Type 0} (f : DiskError → CommandError) (r : Result DiskError A × Host) → Returns (lift f r)
unfolding lift
lift-Returns f (ok a, h) = tt
lift-Returns f (err e, h) = tt

give-Returns : {A : Type 0} (r : Result CommandError A) (h : Host) → Returns (give r h)
unfolding give
give-Returns (ok a) h = tt
give-Returns (err e) h = tt

refuse-Returns :
    {A : Type 0} (o : Option CommandError) (h : Host)
    (f : Unit {0} → Host → Flow CommandError Host A)
    → ((k : Host) → o ≡ none → Returns (f tt k))
    → Returns (after (refuse o h) f)
unfolding refuse
refuse-Returns none h f k = k h refl
refuse-Returns (some e) h f k = tt

module _ (m : Machine) where
  open m use {fault, dial_first}

  open_input-Returns : (r : Result DiskError (List ℕ) × Host) → Returns (open_input m r)
  unfolding open_input
  open_input-Returns (r, h) = give-Returns (torrent_of m (open_torrent m.bencode m.sha1 r)) h

  compare_input-Returns :
      (x : Entry) (r : Result DiskError Entry × Host) → Returns (compare_input m x r)
  unfolding compare_input
  compare_input-Returns x (r, h) = ground arith

  not_input-Returns :
      (output : List ℕ) (r : Result DiskError Entry × Host) → Returns (not_input m output r)
  unfolding not_input
  not_input-Returns output (ok x, h) = compare_input-Returns x _
  not_input-Returns output (err e, h) = tt

  forced-Returns :
      (f : Flags) (h : Host)
      → Returns (
          if not f.force
          then fail output_exists h
          else not_input m f.output (stat fault (input_of f) h))
  forced-Returns f h = elim (Bool-cases (not f.force)) [
    | inl e ↦ rw e tt
    | inr e ↦ rw e (not_input-Returns f.output _)
  ]

  destination-Returns :
      (f : Flags) (r : Result DiskError Entry × Host) → Returns (destination m f r)
  unfolding destination
  destination-Returns f (ok (directory i), h) = tt
  destination-Returns f (ok (regular i), h) = forced-Returns f h
  destination-Returns f (ok (symlink target), h) = forced-Returns f h
  destination-Returns f (err not_exist, h) = tt
  destination-Returns f (err exist, h) = tt
  destination-Returns f (err short_file, h) = tt
  destination-Returns f (err (device c), h) = tt

  check_destination-Returns : (f : Flags) (h : Host) → Returns (check_destination m f h)
  unfolding check_destination
  check_destination-Returns f h = destination-Returns f _

  compare_hash-Returns :
      (expected bytes : List ℕ) (h : Host) → Returns (compare_hash m expected bytes h)
  unfolding compare_hash
  compare_hash-Returns expected bytes h = ground arith

  verify-Returns :
      (f : File) (t : TorrentFile) (p : PieceSpec) (h : Host) → Returns (verify m f t p h)
  unfolding verify
  verify-Returns f t p h =
      let hash : List ℕ = get_or t.piece_hashes p.index [] in
      after-Returns (lift not_sought (seek_start fault h))
        (λ _ k. after (lift not_hashed (read_start fault f p.len k)) (compare_hash m hash))
        (lift-Returns not_sought (seek_start fault h))
        λ _ k.
          after-Returns (lift not_hashed (read_start fault f p.len k)) (compare_hash m hash)
            (lift-Returns not_hashed (read_start fault f p.len k))
            λ bytes j. compare_hash-Returns hash bytes j

  publish-Returns :
      (f : File) (force : Bool) (output : List ℕ) (h : Host) → Returns (publish m f force output h)
  unfolding publish
  publish-Returns f true output h =
      after-Returns (lift not_closed (close_file fault h))
        (λ _ k. lift not_published (rename fault f.name output k))
        (lift-Returns not_closed (close_file fault h))
        λ _ k. lift-Returns not_published (rename fault f.name output k)
  publish-Returns f false output h =
      after-Returns (lift not_closed (close_file fault h))
        (λ _ k.
          after (lift not_published (link fault f.name output k))
            λ _ j. lift not_removed (remove fault f.name j))
        (lift-Returns not_closed (close_file fault h))
        λ _ k.
          after-Returns (lift not_published (link fault f.name output k))
            (λ _ j. lift not_removed (remove fault f.name j))
            (lift-Returns not_published (link fault f.name output k))
            λ _ j. lift-Returns not_removed (remove fault f.name j)

  deferred-Returns :
      (f : File) (r : Flow CommandError Host (Unit {0})) → Returns r → Returns (deferred m f r)
  unfolding deferred
  deferred-Returns f (done a h) x = tt
  deferred-Returns f (fail e h) x = tt
  deferred-Returns f spent x = x

  fetch_outcome-Returns :
      (f : File) (r : Flow FetchError (World (caller m f)) (Unit {0}))
      → Returns r
      → Returns (fetch_outcome m f r)
  unfolding fetch_outcome
  fetch_outcome-Returns f (done a u) x = tt
  fetch_outcome-Returns f (fail e u) x = tt
  fetch_outcome-Returns f spent x = x

  in_session-Returns :
      (f : File) (r : DialResult m.writer) (p : PieceSpec) (s : Result SessionError Session)
      (h : Host)
      → p.len < 2 ^ 32
      → IsBytes r.conn.input.bytes
      → Returns (in_session m f r p s h)
  unfolding in_session
  in_session-Returns f r p (err e) h small bytes = tt
  in_session-Returns f r p (ok s) h small bytes =
      fetch_outcome-Returns f _ (fetch_piece-Returns (caller m f) true true p _ small bytes)

  fetch_from-Returns :
      (f : File) (t : TorrentFile) (p : PieceSpec) (r : Result CommandError (DialResult m.writer))
      (h : Host)
      → p.len < 2 ^ 32
      → ((x : DialResult m.writer) → r ≡ ok x → IsBytes x.conn.input.bytes)
      → Returns (fetch_from m f t p r h)
  unfolding fetch_from
  fetch_from-Returns f t p (err e) h small bytes = tt
  fetch_from-Returns f t p (ok r) h small bytes =
      in_session-Returns f r p (new_session true (pos (length t.piece_hashes))) h small
        (bytes r refl)

  -- The peer's stream holds bytes.
  abbrev pub DialsBytes : Type 0
  DialsBytes =
      (addrs : List Endpoint) (info_hash peer_id : List ℕ) (r : DialResult m.writer)
      → dial_first addrs info_hash peer_id ≡ ok r
      → IsBytes r.conn.input.bytes

  shaken-Bytes :
      (x : Result ℕ (DialResult m.writer)) (r : DialResult m.writer)
      → ((y : DialResult m.writer) → x ≡ ok y → IsBytes y.conn.input.bytes)
      → shaken m x ≡ ok r
      → IsBytes r.conn.input.bytes
  unfolding shaken
  shaken-Bytes (err e) r b h = absurd (ground arith)
  shaken-Bytes (ok y) r b h = b r (ground arith)

  dialled-Bytes :
      (t : TorrentFile) (peer_id : List ℕ) (a : Result CommandError AnnounceResponse)
      (r : DialResult m.writer)
      → DialsBytes
      → dialled m t peer_id a ≡ ok r
      → IsBytes r.conn.input.bytes
  unfolding dialled
  dialled-Bytes t peer_id (err e) r b h = absurd (ground arith)
  dialled-Bytes t peer_id (ok a) r b h =
      shaken-Bytes (dial_first (endpoints m a.peers) t.info_hash peer_id) r
        (λ y e. b (endpoints m a.peers) t.info_hash peer_id y e) h

  fill-Returns :
      (f : Flags) (t : TorrentFile) (peer_id : List ℕ) (p : PieceSpec) (temp : File) (h : Host)
      → p.len < 2 ^ 32
      → DialsBytes
      → Returns (fill m f t peer_id p temp h)
  unfolding fill find_peer
  fill-Returns f t peer_id p temp h small bytes =
      after-Returns (fetch_from m temp t p (find_peer m f t peer_id) h)
        (λ _ k. after (verify m temp t p k) λ _. publish m temp f.force f.output)
        (fetch_from-Returns temp t p (find_peer m f t peer_id) h small
          (λ x e. dialled-Bytes t peer_id (announce_started m f t peer_id) x bytes e))
        λ _ k.
          after-Returns (verify m temp t p k) (λ _. publish m temp f.force f.output)
            (verify-Returns temp t p k) λ _ j. publish-Returns temp f.force f.output j

  with_temp-Returns :
      (f : Flags) (t : TorrentFile) (peer_id : List ℕ) (p : PieceSpec) (h : Host)
      → p.len < 2 ^ 32
      → DialsBytes
      → Returns (with_temp m f t peer_id p h)
  unfolding with_temp
  with_temp-Returns f t peer_id p h small bytes =
      after-Returns _ _ (lift-Returns not_created (create_temp fault (m.temp_names f.output) h))
        λ temp k. deferred-Returns temp _ (fill-Returns f t peer_id p temp k small bytes)

  download_of-Returns :
      (f : Flags) (t : TorrentFile) (h : Host) → DialsBytes → Returns (download_of m f t h)
  unfolding download_of
  download_of-Returns f t h bytes = refuse-Returns (check_piece_index f t) h _ λ k index.
      after-Returns _ _ (give-Returns (new_peer_id m.random) k) λ peer_id j.
        refuse-Returns (check_piece_length (piece_length_at t (magnitude f.piece))) j _ λ i size.
          after-Returns _ _ (check_destination-Returns f i) λ _ l.
            with_temp-Returns f t peer_id (spec_of m f t) l (checks-Target f t index size).fits
              bytes

  -- downloadPiece returns, with success or an error, whatever the calls that it makes come to, if
  -- the peer that is dialled sends bytes and its stream ends.
  pub download_piece-Returns : (f : Flags) (h : Host) → DialsBytes → Returns (download_piece m f h)
  unfolding download_piece
  download_piece-Returns f h bytes = refuse-Returns (check_download_flags f) h _ λ k _.
      after-Returns _ _ (open_input-Returns (read_file fault (input_of f) k))
        λ t j. download_of-Returns f t j bytes
