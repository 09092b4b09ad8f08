-- ===== src/Peer/Session/Setup.antt =====
-- `Read` of the messages with which a peer starts: its Bitfield, and messages without a payload.
use bittorrent_client.Base.{
  Bool, List, [], ap, arith, done, false, inl, inr, length, ok, pos, refl, subst, sym, true, ℕ,
  ◌++◌, ◌<◌, ◌^◌, ◌∙◌, ◌≡◌, ◌≤◌, ◌⊎◌,
}
use bittorrent_client.Wire.Io.{IoError}
use bittorrent_client.Wire.Bitfield.{Bitfield, has_piece, parse_bitfield}
use bittorrent_client.Wire.Bitfield.Count.{bitfield_byte_count_bounds}
use bittorrent_client.Wire.Bitfield.Invariant.{IsBitfield, new_bitfield-IsBitfield}
use bittorrent_client.Wire.Bitfield.Parse.{parse_bitfield-Decides}
use bittorrent_client.Wire.Bitfield.Pieces.{has_piece-bit_at}
use bittorrent_client.Wire.Frame.Layout.{Fits, IsFrameable}
use bittorrent_client.Wire.Message.{
  Message, encode, max_msg_len, message_bitfield, message_choke, message_have, message_interested,
  message_not_interested, message_unchoke,
}
use bittorrent_client.Peer.Session.{
  Session, apply_bitfield, apply_message, new_session, read, receive, session_has_piece, start,
}
use bittorrent_client.Peer.Session.Pieces.{read-encode}

abbrev pub bitfield_message : Bitfield → Message
bitfield_message b = record { id = message_bitfield; payload = b.bits }

abbrev pub bare_message : ℕ → Message
bare_message id = record { id = id; payload = [] }

-- What NewSession makes knows nothing of the peer.
pub new_session_fresh :
    (n i : ℕ) (s : Session)
    → n ≤ 2 ^ 32
    → new_session true (pos n) ≡ ok s
    → (s.choked ≡ true)
      × (s.piece_count ≡ n)
      × (s.bitfield_allowed ≡ true)
      × (session_has_piece s (pos i) ≡ false)
unfolding new_session start session_has_piece
new_session_fresh n i s h e =
    let (b, made, well, count, blank) = new_bitfield-IsBitfield n h in
    let same : record {
      choked = true;
      piece_count = b.piece_count;
      peer_pieces = b;
      bitfield_allowed = true;
    }
        ≡ s =
      ground (arith, (rw made at e)) in
    (
      ap (λ x. x.choked) (sym same),
      ap (λ x. x.piece_count) (sym same) ∙ count,
      ap (λ x. x.bitfield_allowed) (sym same),
      ap (λ x. has_piece x.peer_pieces (pos i)) (sym same) ∙ has_piece-bit_at b i well ∙ blank i,
    )

parse_bitfield-bits :
    (b : Bitfield) → IsBitfield b → parse_bitfield b.bits (pos b.piece_count) ≡ ok b
parse_bitfield-bits b well =
    elim (parse_bitfield-Decides b.bits b.piece_count well.bytes well.in_range) [
      | inl fine ↦ fine.1
      | inr bad ↦ absurd (bad.0 well)
    ]

bitfield_message-IsFrameable :
    (b : Bitfield)
    → IsBitfield b
    → length b.bits < max_msg_len
    → IsFrameable b.piece_count (bitfield_message b)
bitfield_message-IsFrameable b well short =
    let (lo, hi) = bitfield_byte_count_bounds b.piece_count in
    (Fits.bitfield refl (omega (arith, well.size)) (omega (arith, well.size)), short)

-- The first message is the peer's Bitfield.
pub read-bitfield_message :
    (s : Session) (b : Bitfield) (tail : List ℕ) (e : IoError)
    → IsBitfield b
    → length b.bits < max_msg_len
    → s.piece_count ≡ b.piece_count
    → s.bitfield_allowed ≡ true
    → read (record {
      session = s;
      input = record { bytes = encode (bitfield_message b) ++ tail; ending = e };
    })
      ≡ done (bitfield_message b) (record {
        session = record s { peer_pieces = b; bitfield_allowed = false };
        input = record { bytes = tail; ending = e };
      })
unfolding receive apply_message apply_bitfield
read-bitfield_message s b tail e well short count first =
    read-encode s (bitfield_message b) tail e (omega (arith, well.in_range, count)) (
      subst (λ n. IsFrameable n (bitfield_message b)) (sym count)
        (bitfield_message-IsFrameable b well short))
    ∙ rw (first, count, parse_bitfield-bits b well) refl

-- Messages that a choked session waits through: Choke, Interested and NotInterested.
abbrev pub Idle : ℕ → Type 0
Idle id = (id ≡ message_choke) ⊎ (id ≡ message_interested) ⊎ (id ≡ message_not_interested)

-- The message is read, and it leaves the session choked or not as `open_now` says.
abbrev pub Reads : Bool → Session → ℕ → List ℕ → IoError → Type 0
Reads choked s id tail e =
    (t : Session) × (read (record {
      session = s;
      input = record { bytes = encode (bare_message id) ++ tail; ending = e };
    })
      ≡ done (bare_message id)
          (record { session = t; input = record { bytes = tail; ending = e } }))
    × (t.choked ≡ choked)
    × (t.piece_count ≡ s.piece_count)

read-bare :
    (s : Session) (id : ℕ) (tail : List ℕ) (e : IoError)
    → s.piece_count ≤ 2 ^ 32
    → id < message_have
    → read (record {
      session = s;
      input = record { bytes = encode (bare_message id) ++ tail; ending = e };
    })
      ≡ receive
          (bare_message id)
          (record { session = s; input = record { bytes = tail; ending = e } })
read-bare s id tail e n h = read-encode s (bare_message id) tail e n (Fits.bare h refl, omega arith)

pub read-Idle :
    (s : Session) (id : ℕ) (tail : List ℕ) (e : IoError)
    → s.piece_count ≤ 2 ^ 32
    → s.choked ≡ true
    → Idle id
    → Reads true s id tail e
unfolding receive apply_message
read-Idle s id tail e n c (inl h) =
    subst (λ i. Reads true s i tail e) (sym h)
      (_, read-bare s message_choke tail e n (omega arith), refl, refl)
read-Idle s id tail e n c (inr (inl h)) =
    subst (λ i. Reads true s i tail e) (sym h)
      (_, read-bare s message_interested tail e n (omega arith), c, refl)
read-Idle s id tail e n c (inr (inr h)) =
    subst (λ i. Reads true s i tail e) (sym h)
      (_, read-bare s message_not_interested tail e n (omega arith), c, refl)

pub read_unchoke :
    (s : Session) (tail : List ℕ) (e : IoError)
    → s.piece_count ≤ 2 ^ 32
    → Reads false s message_unchoke tail e
unfolding receive apply_message
read_unchoke s tail e n = (_, read-bare s message_unchoke tail e n (omega arith), refl, refl)
