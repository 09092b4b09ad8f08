-- ===== src/Peer/Session.antt =====
-- internal/peerconn/session.go: the state of a session and `Read`.
pub mod Frames
pub mod View
pub mod Receive
pub mod Shorter
pub mod Pieces
pub mod Heard
pub mod Setup
use bittorrent_client.Base.{
  Bool, Flow, Option, Result, after, done, err, fail, false, if◌then◌else◌, leb, length, none, not,
  ok, pos, some, spent, suc, true, zero, ℕ, ℤ, ◌&&◌, ◌==◌, ◌||◌,
}
use bittorrent_client.Wire.Io.{Stream}
use bittorrent_client.Wire.Error.{WireError}
use bittorrent_client.Wire.Bitfield.{Bitfield, new_bitfield, parse_bitfield, set_piece, has_piece}
use bittorrent_client.Wire.Message.{
  Message, Frame, message_choke, message_unchoke, message_have, message_bitfield, frame_message,
  is_keep_alive, is_unsupported,
}
use bittorrent_client.Wire.Frame.{read_frame}
use bittorrent_client.Wire.Payload.{parse_have}

-- A Session without its connection.
pub record Session : Type 0 where
  pub choked : Bool
  pub piece_count : ℕ
  pub peer_pieces : Bitfield
  pub bitfield_allowed : Bool

pub data SessionError : Type 0 where
  no_connection : SessionError
  wire : WireError → SessionError
  invalid_frame : SessionError
  bitfield_not_first : SessionError
  have_range : ℕ → ℕ → SessionError
  apply_have : WireError → SessionError

-- errors.Is(err, ErrPeerProtocol), for the errors of Read
abbrev pub is_protocol : SessionError → Bool
is_protocol bitfield_not_first = true
is_protocol (have_range _ _) = true
is_protocol _ = false

start : ℤ → Result WireError Bitfield → Result SessionError Session
start n (err e) = err (wire e)
start n (ok b) = ok (record {
  choked = true;
  piece_count = b.piece_count;
  peer_pieces = b;
  bitfield_allowed = true;
})

-- NewSession; the connection may be nil.
unfoldable pub new_session : Bool → ℤ → Result SessionError Session
unfolding start
new_session connected n = if connected then start n (new_bitfield n) else err no_connection

-- A session and what still arrives on its connection.
pub record Link : Type 0 where
  pub session : Session
  pub input : Stream

abbrev pub Action : Type 0 → Type 0
Action A = Link → Flow SessionError Link A

-- A reader of the package peerwire, on the connection of the session.
abbrev pub on_input : {A : Type 0} → Session → Flow WireError Stream A → Flow SessionError Link A
on_input s (done a t) = done a (record { session = s; input = t })
on_input s (fail e t) = fail (wire e) (record { session = s; input = t })
on_input s spent = spent

abbrev pub with_session : Link → Session → Link
with_session l s = record l { session = s }

apply_bitfield : Result WireError Bitfield → Message → Action Message
apply_bitfield (err e) m l = fail (wire e) l
apply_bitfield (ok b) m l = done m (with_session l (record (l.session) { peer_pieces = b }))

set_have : Result WireError Bitfield → Message → Action Message
set_have (err e) m l = fail (apply_have e) l
set_have (ok b) m l = done m (with_session l (record (l.session) { peer_pieces = b }))

apply_index : Result WireError ℕ → Message → Action Message
unfolding set_have
apply_index (err e) m l = fail (wire e) l
apply_index (ok i) m l =
    if leb l.session.piece_count i
    then fail (have_range i l.session.piece_count) l
    else set_have (set_piece l.session.peer_pieces (pos i)) m l

-- The switch on the message ID.
apply_message : Message → Action Message
unfolding apply_bitfield apply_index
apply_message m l =
    if m.id == message_choke
    then done m (with_session l (record (l.session) { choked = true }))
    else if m.id == message_unchoke
    then done m (with_session l (record (l.session) { choked = false }))
    else if m.id == message_bitfield
    then apply_bitfield (parse_bitfield m.payload (pos l.session.piece_count)) m l
    else if m.id == message_have
    then apply_index (parse_have m) m l
    else done m l

-- One message: a Bitfield is allowed only first, and any message closes that window.
unfoldable pub receive : Message → Action Message
unfolding apply_message
receive m l =
    if m.id == message_bitfield && not l.session.bitfield_allowed
    then fail bitfield_not_first l
    else apply_message m (with_session l (record (l.session) { bitfield_allowed = false }))

receive_frame : Option Message → Action Message
receive_frame none l = fail invalid_frame l
receive_frame (some m) l = receive m l

-- The loop of Read: keep-alives and unsupported messages are skipped.
pub read_loop : ℕ → Action Message
unfolding receive_frame
read_loop zero l = spent
read_loop (suc fuel) l =
    after (on_input l.session (read_frame (pos l.session.piece_count) l.input)) λ f k.
      let again = read_loop fuel k in
      if is_keep_alive f || is_unsupported f then again else receive_frame (frame_message f) k

-- Read. Every round takes bytes from the input, so its length bounds the rounds.
unfoldable pub read : Action Message
unfolding read_loop
read l = read_loop (suc (length l.input.bytes)) l

unfoldable pub session_has_piece : Session → ℤ → Bool
session_has_piece s i = has_piece s.peer_pieces i
