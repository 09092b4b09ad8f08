-- ===== src/Command.antt =====
-- cmd/bt/main.go: the flags, the errors and the surroundings of the four commands, and the calls
-- that they share. What a command prints is the value that it returns.
pub mod Steps
pub mod Span
pub mod Download
pub mod Run
use bittorrent_client.Base.{
  Bool, Flow, List, Option, Result, [], done, err, fail, get_or, if◌then◌else◌, is_negative,
  is_positive, length, ltb, magnitude, map, none, not, ok, some, true, ℕ, ℤ, ◌%◌, ◌++◌, ◌==◌, ◌^◌,
  ◌||◌, ◌∷◌,
}
use bittorrent_client.Net.{Endpoint}
use bittorrent_client.Disk.{FileName, DiskError, Fault, Host}
use bittorrent_client.Metainfo.{TorrentFile}
use bittorrent_client.Metainfo.Open.{Bencode, OpenError, open_torrent}
use bittorrent_client.Tracker.{Peer, AnnounceResponse}
use bittorrent_client.Tracker.Client.{Http, ClientError, AnnounceRequest, event_started, announce}
use bittorrent_client.Wire.Writer.{Writer}
use bittorrent_client.Wire.Handshake.{Handshake}
use bittorrent_client.Peer.Dial.{Conn}
use bittorrent_client.Peer.Session.{SessionError}
use bittorrent_client.Peer.Fetch.{FetchError, Scope}

-- What the flag sets parse to; a command looks only at its own flags. The timeout is in
-- nanoseconds.
pub record Flags : Type 0 where
  pub args : List FileName
  pub port : ℕ
  pub piece : ℤ
  pub output : FileName
  pub timeout : ℤ
  pub force : Bool

pub data CommandError : Type 0 where
  usage : CommandError
  unknown_command : List ℕ → CommandError
  bad_flags : ℕ → CommandError
  argument_count bad_port negative_piece bad_timeout no_output : CommandError
  not_opened : OpenError → CommandError
  negative_content : CommandError
  piece_range : ℕ → ℕ → CommandError
  piece_too_large : ℕ → CommandError
  no_peer_id : ℕ → CommandError
  piece_length_range : ℤ → CommandError
  output_is_directory output_exists output_is_input : CommandError
  stat_input stat_output : DiskError → CommandError
  not_created : DiskError → CommandError
  not_announced : ClientError → CommandError
  no_handshake : ℕ → CommandError
  no_session : SessionError → CommandError
  not_fetched : FetchError → CommandError
  not_sought not_hashed : DiskError → CommandError
  hash_mismatch : CommandError
  not_closed not_published not_removed : DiskError → CommandError

-- DialResult
pub record DialResult (w : Writer) : Type 0 where
  pub conn : Conn w
  pub addr : Endpoint
  pub handshake : Handshake

-- What a command runs in: flag.Parse, HTTP, the calls of the file system that fail, the names that
-- CreateTemp tries beside an output, the package bencode, SHA-1, twelve random bytes, what
-- DialFirst comes to, and the contexts of FetchPiece.
pub record Machine : Type 1 where
  pub parse_flags : List (List ℕ) → Result ℕ Flags
  pub http : Http
  pub fault : ℕ → Option Fault
  pub temp_names : FileName → List FileName
  pub bencode : Bencode
  pub sha1 : List ℕ → List ℕ
  pub random : Result ℕ (List ℕ)
  pub writer : Writer
  pub dial_first : List Endpoint → List ℕ → List ℕ → Result ℕ (DialResult writer)
  pub context : Scope → ℕ → Option ℕ
  pub watch : Scope → Option ℕ

-- The arguments of announce and handshake
unfoldable pub check_announce_flags : Flags → Option CommandError
check_announce_flags f =
    if not (length f.args == 1)
    then some argument_count
    else if f.port == 0 || ltb 65535 f.port
    then some bad_port
    else if not (is_positive f.timeout)
    then some bad_timeout
    else none

-- The arguments of download-piece
unfoldable pub check_download_flags : Flags → Option CommandError
check_download_flags f =
    if not (length f.args == 1)
    then some argument_count
    else if f.port == 0 || ltb 65535 f.port
    then some bad_port
    else if is_negative f.piece
    then some negative_piece
    else if not (is_positive f.timeout)
    then some bad_timeout
    else if length f.output == 0
    then some no_output
    else none

abbrev pub client_prefix : List ℕ
client_prefix = b'-' ∷ b'B' ∷ b'T' ∷ b'0' ∷ b'0' ∷ b'0' ∷ b'1' ∷ b'-' ∷ []

-- newPeerID, with the outcome of rand.Read
unfoldable pub new_peer_id : Result ℕ (List ℕ) → Result CommandError (List ℕ)
new_peer_id (err e) = err (no_peer_id e)
new_peer_id (ok bytes) = ok (client_prefix ++ bytes)

abbrev pub Work : Type 0 → Type 0
Work A = Host → Flow CommandError Host A

-- A call of the file system, its error wrapped.
unfoldable pub lift :
    {A : Type 0} → (DiskError → CommandError) → Result DiskError A × Host → Flow CommandError Host A
lift f (ok a, h) = done a h
lift f (err e, h) = fail (f e) h

unfoldable pub give : {A : Type 0} → Result CommandError A → Work A
give (ok a) h = done a h
give (err e) h = fail e h

unfoldable pub refuse : Option CommandError → Work (Unit {0})
refuse none h = done tt h
refuse (some e) h = fail e h

-- flags.Arg(0)
abbrev pub input_of : Flags → FileName
input_of f = get_or f.args 0 []

module _ (m : Machine) where
  open m use {parse_flags, http, fault, bencode, sha1, writer, dial_first}

  unfoldable pub torrent_of : Result OpenError TorrentFile → Result CommandError TorrentFile
  torrent_of (err e) = err (not_opened e)
  torrent_of (ok t) = ok t

  -- metainfo.Open(flags.Arg(0))
  unfoldable pub open_input : Result DiskError (List ℕ) × Host → Flow CommandError Host TorrentFile
  unfolding torrent_of
  open_input (r, h) = give (torrent_of (open_torrent bencode sha1 r)) h

  flags_of : Result ℕ Flags → Result CommandError Flags
  flags_of (err e) = err (bad_flags e)
  flags_of (ok f) = ok f

  unfoldable pub parsed_flags : List (List ℕ) → Result CommandError Flags
  unfolding flags_of
  parsed_flags args = flags_of (parse_flags args)

  -- The request of a started announce; `left` is uint64(torrent.Length).
  abbrev pub started_request : Flags → TorrentFile → List ℕ → AnnounceRequest
  started_request f t peer_id = record {
    info_hash = t.info_hash;
    peer_id = peer_id;
    port = f.port % 2 ^ 16;
    uploaded = 0;
    downloaded = 0;
    left = magnitude t.len;
    compact = true;
    event = event_started;
  }

  announce_result : Result ClientError AnnounceResponse → Result CommandError AnnounceResponse
  announce_result (err e) = err (not_announced e)
  announce_result (ok a) = ok a

  unfoldable pub announce_started :
      Flags → TorrentFile → List ℕ → Result CommandError AnnounceResponse
  unfolding announce_result
  announce_started f t peer_id = announce_result (
      announce http (record { http_client = some (magnitude f.timeout) }) t.announce
        (started_request f t peer_id))

  unfoldable pub shaken : Result ℕ (DialResult writer) → Result CommandError (DialResult writer)
  shaken (err e) = err (no_handshake e)
  shaken (ok r) = ok r

  abbrev pub endpoints : List Peer → List Endpoint
  endpoints peers = map (λ p. record { addr = p.addr; port = p.port }) peers

  unfoldable pub dialled :
      TorrentFile
      → List ℕ
      → Result CommandError AnnounceResponse
      → Result CommandError (DialResult writer)
  unfolding shaken
  dialled t peer_id (err e) = err e
  dialled t peer_id (ok a) = shaken (dial_first (endpoints a.peers) t.info_hash peer_id)

  -- Announce, and dial what the tracker returned.
  unfoldable pub find_peer : Flags → TorrentFile → List ℕ → Result CommandError (DialResult writer)
  unfolding dialled
  find_peer f t peer_id = dialled t peer_id (announce_started f t peer_id)
