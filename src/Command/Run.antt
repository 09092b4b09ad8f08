-- ===== src/Command/Run.antt =====
-- cmd/bt/main.go: `inspect`, `announce`, `handshake` and `run`.
pub mod Unchanged
use bittorrent_client.Base.{
  List, Option, [], bytes_eq, done, fail, if◌then◌else◌, is_negative, length, magnitude, none, some,
  ℕ, ◌==◌, ◌>>=◌, ◌∷◌,
}
use bittorrent_client.Net.{Endpoint}
use bittorrent_client.Disk.{FileName, read_file}
use bittorrent_client.Metainfo.{TorrentFile}
use bittorrent_client.Tracker.{AnnounceResponse}
use bittorrent_client.Command.{
  CommandError, Flags, Machine, Work, announce_started, argument_count, check_announce_flags,
  find_peer, give, input_of, new_peer_id, negative_content, open_input, parsed_flags, refuse,
  unknown_command, usage,
}
use bittorrent_client.Command.Download.{download_piece}

-- What a command prints when it ends well.
pub data Report : Type 0 where
  inspected : TorrentFile → Report
  announced : AnnounceResponse → Report
  shook_hands : Endpoint → List ℕ → Report
  downloaded : ℕ → FileName → Report

unfoldable pub check_content : TorrentFile → Option CommandError
check_content t = if is_negative t.len then some negative_content else none

-- args[0]
abbrev pub inspect_command : List ℕ
inspect_command = b'i' ∷ b'n' ∷ b's' ∷ b'p' ∷ b'e' ∷ b'c' ∷ b't' ∷ []

abbrev pub announce_command : List ℕ
announce_command = b'a' ∷ b'n' ∷ b'n' ∷ b'o' ∷ b'u' ∷ b'n' ∷ b'c' ∷ b'e' ∷ []

abbrev pub handshake_command : List ℕ
handshake_command = b'h' ∷ b'a' ∷ b'n' ∷ b'd' ∷ b's' ∷ b'h' ∷ b'a' ∷ b'k' ∷ b'e' ∷ []

abbrev pub download_command : List ℕ
download_command =
    b'd' ∷ b'o' ∷ b'w' ∷ b'n' ∷ b'l' ∷ b'o' ∷ b'a' ∷ b'd' ∷ b'-' ∷ b'p' ∷ b'i' ∷ b'e' ∷ b'c' ∷ b'e'
    ∷ []

module _ (m : Machine) where
  open m use {fault, writer, random}

  unfoldable pub inspect : List (List ℕ) → Work Report
  inspect args = do
    f ← give (parsed_flags m args)
    _ ← refuse (if length f.args == 1 then none else some argument_count)
    t ← λ h. open_input m (read_file fault (input_of f) h)
    λ h. done (inspected t) h

  -- What announce and handshake do first.
  with_torrent : List (List ℕ) → Work (Flags × TorrentFile)
  with_torrent args = do
    f ← give (parsed_flags m args)
    _ ← refuse (check_announce_flags f)
    t ← λ h. open_input m (read_file fault (input_of f) h)
    _ ← refuse (check_content t)
    λ h. done (f, t) h

  unfoldable pub announce : List (List ℕ) → Work Report
  unfolding with_torrent
  announce args = do
    (f, t) ← with_torrent args
    peer_id ← give (new_peer_id random)
    a ← give (announce_started m f t peer_id)
    λ h. done (announced a) h

  unfoldable pub handshake : List (List ℕ) → Work Report
  unfolding with_torrent
  handshake args = do
    (f, t) ← with_torrent args
    peer_id ← give (new_peer_id random)
    r ← give (find_peer m f t peer_id)
    λ h. done (shook_hands r.addr r.handshake.peer_id) h

  -- downloadPiece, its flag set and its last line included.
  unfoldable pub download : List (List ℕ) → Work Report
  download args = do
    f ← give (parsed_flags m args)
    _ ← download_piece m f
    λ h. done (downloaded (magnitude f.piece) f.output) h

  dispatch : List ℕ → List (List ℕ) → Work Report
  dispatch command args h =
      if bytes_eq command inspect_command
      then inspect args h
      else if bytes_eq command announce_command
      then announce args h
      else if bytes_eq command handshake_command
      then handshake args h
      else if bytes_eq command download_command
      then download args h
      else fail (unknown_command command) h

  unfoldable pub run : List (List ℕ) → Work Report
  unfolding dispatch
  run [] h = fail usage h
  run (command ∷ args) h = dispatch command args h
