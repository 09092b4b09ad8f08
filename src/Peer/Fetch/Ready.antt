-- ===== src/Peer/Fetch/Ready.antt =====
-- The setup of FetchPiece on a connection without faults: the peer sends its Bitfield, then messages
-- that a choked session waits through, and then Unchoke.
use bittorrent_client.Base.{
  All, Bool, List, [], ap, append_assoc, arith, done, false, if◌then◌else◌, inl, inr, length,
  length-append, ok, pos, refl, suc, true, zero, ℕ, ◌&&◌, ◌++◌, ◌+◌, ◌-◌, ◌<◌, ◌==◌, ◌^◌, ◌∙◌, ◌∷◌,
  ◌≡◌, ◌≤◌,
}
use bittorrent_client.Wire.Io.{IoError}
use bittorrent_client.Wire.Bitfield.{Bitfield, has_piece}
use bittorrent_client.Wire.Bitfield.Invariant.{IsBitfield}
use bittorrent_client.Wire.Message.{
  Message, encode, max_msg_len, message_bitfield, message_have, message_piece, message_unchoke,
  message_bitfield,
}
use bittorrent_client.Wire.Payload.Sending.{write_interested-TakesAll}
use bittorrent_client.Peer.Session.{Link, new_session, read, session_has_piece}
use bittorrent_client.Peer.Session.Frames.{length-encode}
use bittorrent_client.Peer.Session.Setup.{
  Idle, bare_message, bitfield_message, new_session_fresh, read-bitfield_message, read-Idle,
  read_unchoke,
}
use bittorrent_client.Peer.Fetch.{
  Caller, Scope, World, advertised, after_read, after_sent, check, read_with_context, rounds,
  send_interested, unchoked, wait_until_ready,
}
use bittorrent_client.Peer.Fetch.Faultless.{Faultless, check-done, watch_context-done}

-- The bytes of messages without a payload.
abbrev pub bare_messages : List ℕ → List ℕ
bare_messages [] = []
bare_messages (id ∷ ids) = encode (bare_message id) ++ bare_messages ids

length-bare_messages : (ids : List ℕ) → length ids ≤ length (bare_messages ids)
length-bare_messages [] = omega arith
length-bare_messages (id ∷ ids) = omega (
  arith,
  length-append (encode (bare_message id)) (bare_messages ids),
  length-encode (bare_message id),
  length-bare_messages ids,
)

Idle-lt : (id : ℕ) → Idle id → id < message_have
Idle-lt id (inl h) = omega arith
Idle-lt id (inr (inl h)) = omega arith
Idle-lt id (inr (inr h)) = omega arith

-- What the peer sends: its Bitfield, messages without a payload, and Unchoke.
abbrev pub greeting : Bitfield → List ℕ → List ℕ → List ℕ
greeting b ids tail =
    encode (bitfield_message b)
    ++ (bare_messages ids ++ (encode (bare_message message_unchoke) ++ tail))

module _ (c : Caller) (f : Faultless c) where
  read_with_context-done :
      (x : Scope) (v : World c) (m : Message) (l : Link)
      → read v.link ≡ done m l
      → read_with_context c x v ≡ done m (record v { link = l })
  unfolding read_with_context after_read
  read_with_context-done x v m l h = rw h refl

  -- One message that the loop waits through.
  unchoked-read :
      (fuel : ℕ) (v : World c) (m : Message) (l : Link)
      → v.link.session.choked ≡ true
      → read v.link ≡ done m l
      → (m.id == message_piece) ≡ false
      → unchoked c (suc fuel) v ≡ unchoked c fuel (record v { link = l })
  unfolding unchoked
  unchoked-read fuel v m l k h other =
      rw (read_with_context-done Scope.setup v m l h, other, k) refl

  if_same : {A : Type 0} (b : Bool) (x y : A) → b ≡ false → (if b then x else y) ≡ y
  if_same b x y h = rw h refl

  if_both : {A : Type 0} (b : Bool) (x y : A) → (if b && false then x else y) ≡ y
  if_both true x y = refl
  if_both false x y = refl

  unchoked_open :
      (fuel : ℕ) (v : World c) → v.link.session.choked ≡ false → unchoked c (suc fuel) v ≡ done tt v
  unfolding unchoked
  unchoked_open fuel v k = if_same v.link.session.choked _ _ k

  unchoked-done :
      (fuel : ℕ) (ids tail : List ℕ) (e : IoError) (v : World c)
      → length ids + 2 ≤ fuel
      → All Idle ids
      → v.link.session.piece_count ≤ 2 ^ 32
      → v.link.session.choked ≡ true
      → v.link.input ≡ record {
        bytes = bare_messages ids ++ (encode (bare_message message_unchoke) ++ tail);
        ending = e;
      }
      → (u : World c) × (unchoked c fuel v ≡ done tt u)
        × (u.link.session.piece_count ≡ v.link.session.piece_count)
        × (u.link.input ≡ record { bytes = tail; ending = e })
        × (u.sink ≡ v.sink)
  unchoked-done zero ids tail e v enough idle n k input = absurd (omega arith)
  unchoked-done (suc zero) ids tail e v enough idle n k input = absurd (omega arith)
  unchoked-done (suc (suc fuel)) [] tail e v enough idle n k input =
      let (t, h, open_now, counts) = read_unchoke v.link.session tail e n in
      let l : Link = record { session = t; input = record { bytes = tail; ending = e } } in
      let seen : read v.link ≡ done (bare_message message_unchoke) l =
        ap (λ x. read (record { session = v.link.session; input = x })) input ∙ h in
      (
        record v { link = l },
        unchoked-read (suc fuel) v (bare_message message_unchoke) l k seen (ground arith)
            ∙ unchoked_open fuel (record v { link = l }) open_now,
        counts,
        refl,
        refl,
      )
  unchoked-done (suc (suc fuel)) (id ∷ ids) tail e v enough idle n k input =
      let rest : List ℕ = bare_messages ids ++ (encode (bare_message message_unchoke) ++ tail) in
      let (t, h, shut, counts) = read-Idle v.link.session id rest e n k (idle.0) in
      let l : Link = record { session = t; input = record { bytes = rest; ending = e } } in
      let seen : read v.link ≡ done (bare_message id) l =
        ap (λ x. read (record { session = v.link.session; input = x }))
          (input
            ∙ ap (λ bs. record { bytes = bs; ending = e })
                (append_assoc (encode (bare_message id)) (bare_messages ids) _))
        ∙ h in
      let other : (id == message_piece) ≡ false = ground (arith, Idle-lt id (idle.0)) in
      let (u, waits, same, left, kept) =
        unchoked-done (suc fuel) ids tail e (record v { link = l }) (omega arith) (idle.1)
          (omega (arith, n, counts)) shut refl in
      (
        u,
        unchoked-read (suc fuel) v (bare_message id) l k seen other ∙ waits,
        same ∙ counts,
        left,
        kept,
      )

  -- The loop that waits for the piece ends with the message that tells of it.
  advertised-read :
      (fuel i : ℕ) (v : World c) (m : Message) (l : Link)
      → session_has_piece v.link.session (pos i) ≡ false
      → read v.link ≡ done m l
      → session_has_piece l.session (pos i) ≡ true
      → (m.id == message_piece) ≡ false
      → advertised c (suc (suc fuel)) i v ≡ done tt (record v { link = l })
  unfolding advertised
  advertised-read fuel i v m l lacks h has other =
      rw (read_with_context-done Scope.setup v m l h, lacks, other)
        (rw has (if_both (m.id == message_bitfield) _ _))

  advertised-done :
      (i : ℕ) (b : Bitfield) (tail : List ℕ) (e : IoError) (v : World c)
      → IsBitfield b
      → length b.bits < max_msg_len
      → has_piece b (pos i) ≡ true
      → v.link.session.piece_count ≡ b.piece_count
      → v.link.session.bitfield_allowed ≡ true
      → session_has_piece v.link.session (pos i) ≡ false
      → v.link.input ≡ record { bytes = encode (bitfield_message b) ++ tail; ending = e }
      → advertised c (rounds c v) i v
        ≡ done tt (record v {
          link = record {
            session = record (v.link.session) { peer_pieces = b; bitfield_allowed = false };
            input = record { bytes = tail; ending = e };
          };
        })
  unfolding session_has_piece
  advertised-done i b tail e v well short has count first lacks input =
      let size : length v.link.input.bytes ≡ suc (length v.link.input.bytes - 1) = omega (
        arith,
        ap (λ x. length x.bytes) input,
        length-append (encode (bitfield_message b)) tail,
        length-encode (bitfield_message b),
      ) in
      ap (λ k. advertised c (suc k) i v) size
      ∙ advertised-read (length v.link.input.bytes - 1) i v (bitfield_message b) _ lacks
          (ap (λ x. read (record { session = v.link.session; input = x })) input
            ∙ read-bitfield_message v.link.session b tail e well short count first)
          has refl

  -- A new session, after these messages, is ready for the piece.
  pub wait_until_ready-done :
      (i : ℕ) (b : Bitfield) (ids tail : List ℕ) (e : IoError) (v : World c)
      → IsBitfield b
      → length b.bits < max_msg_len
      → has_piece b (pos i) ≡ true
      → All Idle ids
      → new_session true (pos b.piece_count) ≡ ok v.link.session
      → v.link.input ≡ record { bytes = greeting b ids tail; ending = e }
      → (u : World c) × (wait_until_ready c i v ≡ done tt u)
        × (u.link.session.piece_count ≡ b.piece_count)
        × (u.link.input ≡ record { bytes = tail; ending = e })
        × (u.sink ≡ v.sink)
  unfolding wait_until_ready send_interested after_sent
  wait_until_ready-done i b ids tail e v well short has idle fresh input =
      let (shut, count, first, lacks) =
        new_session_fresh b.piece_count i v.link.session well.in_range fresh in
      let rest : List ℕ = bare_messages ids ++ (encode (bare_message message_unchoke) ++ tail) in
      let told : World c = record v {
        link = record {
          session = record (v.link.session) { peer_pieces = b; bitfield_allowed = false };
          input = record { bytes = rest; ending = e };
        };
      } in
      let (n, out, told_interest) = write_interested-TakesAll c.writer f.takes_all v.out in
      let interested : World c = record told { out = out } in
      let (u, waits, same, left, kept) =
        unchoked-done (rounds c interested) ids tail e interested
          (omega (
            arith,
            length-append (bare_messages ids) (encode (bare_message message_unchoke) ++ tail),
            length-append (encode (bare_message message_unchoke)) tail,
            length-encode (bare_message message_unchoke),
            length-bare_messages ids,
          ))
          idle (omega (arith, well.in_range, count)) shut refl in
      let waited : wait_until_ready c i v ≡ check c Scope.setup u =
        rw
          (
            watch_context-done c f Scope.setup v,
            advertised-done i b rest e v well short has count first lacks input,
            told_interest,
            waits,
          )
          refl in
      (_, waited ∙ check-done c f Scope.setup u, same ∙ count, left, kept)
