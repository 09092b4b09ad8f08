-- ===== src/Peer/Session/Receive.antt =====
-- `Read` applies each message as the protocol means it.
use bittorrent_client.Base.{
  Bool-cases, Result, arith, dec_lt, done, err, fail, false, inl, inr, length, ok, pos, refl, sym,
  true, ℕ, ℕ_discrete, ◌<◌, ◌^◌, ◌∙◌, ◌≡◌, ◌≢◌, ◌≤◌,
}
use bittorrent_client.Wire.Endian.{IsBytes, uint32}
use bittorrent_client.Wire.Error.{WireError}
use bittorrent_client.Wire.Bitfield.{Bitfield, parse_bitfield, set_piece}
use bittorrent_client.Wire.Bitfield.Count.{bitfield_byte_count_unique}
use bittorrent_client.Wire.Bitfield.Invariant.{IsBitfield, bit_at}
use bittorrent_client.Wire.Bitfield.Pieces.{has_piece-bit_at, set_piece-has_piece}
use bittorrent_client.Wire.Bitfield.Parse.{parse_bitfield-Decides, as_bitfield, Decides}
use bittorrent_client.Wire.Message.{Message, message_have, message_bitfield}
use bittorrent_client.Wire.Frame.Layout.{IsFrameable, Fits-bitfield, Fits-have}
use bittorrent_client.Wire.Payload.{parse_have}
use bittorrent_client.Peer.Session.{
  Session, Link, with_session, receive, bitfield_not_first, have_range, wire,
}
use bittorrent_client.Peer.Session.View.{view, next, IsSession, Received}

parse_have_lem :
    (m : Message)
    → m.id ≡ message_have
    → length m.payload ≡ 4
    → parse_have m ≡ ok (uint32 m.payload)
unfolding parse_have
parse_have_lem m e size = ground arith

module _ (m : Message) (l : Link) (v : IsSession l.session) (all : IsBytes m.payload)
    (fits : IsFrameable l.session.piece_count m) where
  -- The session after any message that changes nothing else.
  abbrev closed : Session
  closed = record (l.session) { bitfield_allowed = false }

  -- A Bitfield after the first message.
  late_bitfield :
      m.id ≡ message_bitfield → l.session.bitfield_allowed ≡ false → Received m l (receive m l)
  unfolding receive
  late_bitfield e late =
      Received.refused bitfield_not_first l.session.bitfield_allowed (λ a. let w = a.first e in cc)
        (ground arith)

  -- A Choke or an Unchoke, and any message that a session does not look at.
  plain : m.id ≢ message_bitfield → m.id ≢ message_have → Received m l (receive m l)
  unfolding receive
  plain nb nh =
      Received.applied (record closed { choked = (next m (view l.session)).choked })
        (record {
          first = λ e. absurd (nb e);
          clear = λ e. absurd (nb e);
          index = λ e. absurd (nh e);
        })
        (ground arith)
        (record {
          valid = record { pieces = v.pieces; count = v.count };
          same_count = refl;
          choked = refl;
          has = λ i. ground arith;
          window = refl;
        })

  -- The session after it took over the pieces `c`.
  abbrev with_pieces : Bitfield → Session
  with_pieces c = record closed { peer_pieces = c }

  receive_bitfield :
      (c : Bitfield)
      → m.id ≡ message_bitfield
      → l.session.bitfield_allowed ≡ true
      → parse_bitfield m.payload (pos l.session.piece_count) ≡ ok c
      → receive m l ≡ done m (with_session l (with_pieces c))
  unfolding receive
  receive_bitfield c e w p = ground arith

  receive_bad_bitfield :
      (x : WireError)
      → m.id ≡ message_bitfield
      → l.session.bitfield_allowed ≡ true
      → parse_bitfield m.payload (pos l.session.piece_count) ≡ err x
      → receive m l ≡ fail (wire x) (with_session l closed)
  unfolding receive
  receive_bad_bitfield x e w p = ground arith

  receive_have :
      (i : ℕ) (c : Bitfield)
      → m.id ≡ message_have
      → parse_have m ≡ ok i
      → i < l.session.piece_count
      → set_piece l.session.peer_pieces (pos i) ≡ ok c
      → receive m l ≡ done m (with_session l (with_pieces c))
  unfolding receive
  receive_have i c e p h q = ground arith

  receive_have_range :
      (i : ℕ)
      → m.id ≡ message_have
      → parse_have m ≡ ok i
      → l.session.piece_count ≤ i
      → receive m l ≡ fail (have_range i l.session.piece_count) (with_session l closed)
  unfolding receive
  receive_have_range i e p h = ground arith

  in_range : l.session.piece_count ≤ 2 ^ 32
  in_range = omega (arith, v.count, v.pieces.in_range)

  -- A Bitfield that comes first.
  bitfield_message :
      m.id ≡ message_bitfield → l.session.bitfield_allowed ≡ true → Received m l (receive m l)
  bitfield_message e w =
      go (parse_bitfield m.payload (pos l.session.piece_count)) refl
        (parse_bitfield-Decides m.payload l.session.piece_count all in_range)
    where
      go :
          (r : Result WireError Bitfield)
          → parse_bitfield m.payload (pos l.session.piece_count) ≡ r
          → Decides m.payload l.session.piece_count r
          → Received m l (receive m l)
      go r q (inl (well, same)) =
          Received.applied (with_pieces (as_bitfield m.payload l.session.piece_count))
            (record { first = λ _. w; clear = λ _. well.spare; index = λ h. absurd (omega arith) })
            (receive_bitfield _ e w (q ∙ same))
            (record {
              valid = record { pieces = well; count = refl };
              same_count = refl;
              choked = ground arith;
              has = λ i. has_piece-bit_at _ i well ∙ ground arith;
              window = refl;
            })
      go r q (inr (bad, x, same, _)) =
          Received.refused (wire x) false (λ a. bad (well_formed (a.clear e)))
            (receive_bad_bitfield x e w (q ∙ same))
        where
          well_formed :
              ((i : ℕ) → l.session.piece_count ≤ i → bit_at m.payload i ≡ false)
              → IsBitfield (as_bitfield m.payload l.session.piece_count)
          well_formed clear = record {
            in_range = in_range;
            size =
                let (lo, hi) =
                  Fits-bitfield l.session.piece_count m.id (length m.payload) fits.0 e in
                sym (bitfield_byte_count_unique l.session.piece_count (length m.payload) lo hi);
            bytes = all;
            spare = clear;
          }

  have_message : m.id ≡ message_have → Received m l (receive m l)
  have_message e = elim (dec_lt (uint32 m.payload) l.session.piece_count) [
    | yes inside ↦
        let (c, done_set, well, count, has) =
          set_piece-has_piece l.session.peer_pieces (uint32 m.payload) v.pieces
            (omega (arith, v.count)) in
        Received.applied (with_pieces c)
          (record {
            first = λ h. absurd (omega arith);
            clear = λ h. absurd (omega arith);
            index = λ _. inside;
          })
          (receive_have (uint32 m.payload) c e parsed inside done_set)
          (record {
            valid = record { pieces = well; count = count ∙ v.count };
            same_count = refl;
            choked = ground arith;
            has = λ i. has (pos i) ∙ ground arith;
            window = refl;
          })
    | no outside ↦
        Received.refused (have_range (uint32 m.payload) l.session.piece_count) false
          (λ a. outside (a.index e)) (receive_have_range (uint32 m.payload) e parsed (omega arith))
  ]
    where
      parsed : parse_have m ≡ ok (uint32 m.payload)
      parsed = parse_have_lem m e (Fits-have l.session.piece_count m.id (length m.payload) fits.0 e)

  -- A message that fits is applied to the session exactly when the protocol allows it there: a
  -- Bitfield only as the first message and with its spare bits clear, a Have only for a piece of the
  -- torrent. The session then knows what the message tells and nothing else has changed in it, and
  -- it stays consistent. A message that is not allowed is refused, and the choke state and the
  -- pieces stay as they were. The session is consistent before and the payload holds bytes.
  pub receive-Received : Received m l (receive m l)
  receive-Received = elim (ℕ_discrete m.id message_have) [
    | yes index ↦ have_message index
    | no other ↦ elim (ℕ_discrete m.id message_bitfield) [
      | no plain_id ↦ plain plain_id other
      | yes bits ↦ elim (Bool-cases l.session.bitfield_allowed) [
        | inl early ↦ bitfield_message bits early
        | inr late ↦ late_bitfield bits late
      ]
    ]
  ]
