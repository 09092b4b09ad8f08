-- ===== src/Peer/Session/View.antt =====
-- What a session is meant to know of its peer, described by the messages alone.
use bittorrent_client.Base.{
  Bool, Flow, done, fail, false, if◌then◌else◌, pos, true, ℕ, ◌<◌, ◌==◌, ◌||◌, ◌≡◌, ◌≤◌,
}
use bittorrent_client.Wire.Endian.{uint32}
use bittorrent_client.Wire.Bitfield.{has_piece}
use bittorrent_client.Wire.Bitfield.Invariant.{IsBitfield, bit_at}
use bittorrent_client.Wire.Message.{
  Message, message_choke, message_unchoke, message_have, message_bitfield,
}
use bittorrent_client.Peer.Session.{Session, SessionError, Link, with_session}

-- The choke state, the pieces that the peer has, and whether a Bitfield may still come.
pub record View : Type 0 where
  pub choked : Bool
  pub has : ℕ → Bool
  pub window : Bool

abbrev pub view : Session → View
view s = record {
  choked = s.choked;
  has = λ i. has_piece s.peer_pieces (pos i);
  window = s.bitfield_allowed;
}

-- A message that the protocol allows here, in a torrent of `n` pieces.
pub record Allowed (n : ℕ) (v : View) (m : Message) : Type 0 where
  pub first : m.id ≡ message_bitfield → v.window ≡ true
  pub clear : m.id ≡ message_bitfield → (i : ℕ) → n ≤ i → bit_at m.payload i ≡ false
  pub index : m.id ≡ message_have → uint32 m.payload < n

-- What an allowed message tells: Choke and Unchoke the choke state, a Bitfield all pieces, a Have
-- one more piece; any message ends the window for a Bitfield.
abbrev pub next : Message → View → View
next m v = record {
  choked =
      if m.id == message_choke then true else if m.id == message_unchoke then false else v.choked;
  has = λ i.
      if m.id == message_bitfield
      then bit_at m.payload i
      else if m.id == message_have
      then uint32 m.payload == i || v.has i
      else v.has i;
  window = false;
}

-- The session's own consistency: its Bitfield is well formed for its piece count.
pub record IsSession (s : Session) : Type 0 where
  pub pieces : IsBitfield s.peer_pieces
  pub count : s.peer_pieces.piece_count ≡ s.piece_count

-- Session `s` after a message, seen as `v`, of the torrent of `t`.
pub record Knows (s t : Session) (v : View) : Type 0 where
  pub valid : IsSession s
  pub same_count : s.piece_count ≡ t.piece_count
  pub choked : s.choked ≡ v.choked
  pub has : (i : ℕ) → has_piece s.peer_pieces (pos i) ≡ v.has i
  pub window : s.bitfield_allowed ≡ v.window

-- The outcome of a message: applied if it is allowed, and otherwise refused, with the choke state
-- and the pieces as they were.
pub data Received (m : Message) (l : Link) (r : Flow SessionError Link Message) : Type 0 where
  applied :
      (s : Session)
      → Allowed l.session.piece_count (view l.session) m
      → r ≡ done m (with_session l s)
      → Knows s l.session (next m (view l.session))
      → Received m l r
  refused :
      (e : SessionError) (w : Bool)
      → ¬ Allowed l.session.piece_count (view l.session) m
      → r ≡ fail e (with_session l (record (l.session) { bitfield_allowed = w }))
      → Received m l r
