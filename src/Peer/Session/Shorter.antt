-- ===== src/Peer/Session/Shorter.antt =====
-- `Read` takes its message off the input: the loops of `FetchPiece` end with the stream.
use bittorrent_client.Base.{
  All-append_right, Flow, ap, arith, done, fail, false, length, length-append, spent, subst, sym,
  ◌++◌, ◌<◌, ◌≡◌,
}
use bittorrent_client.Wire.Io.{Stream}
use bittorrent_client.Wire.Endian.{IsBytes}
use bittorrent_client.Wire.Message.{Message, encode}
use bittorrent_client.Peer.Session.{
  SessionError, Link, receive, read, apply_bitfield, apply_index, apply_message, set_have,
  with_session,
}
use bittorrent_client.Peer.Session.Frames.{Reading, read-Reading, arrived, broken, length-encode}

-- The call returns, and a message leaves the input as it was.
abbrev SameInput : Stream → Flow SessionError Link Message → Type 0
SameInput s (done m k) = k.input ≡ s
SameInput s (fail e k) = Unit
SameInput s spent = ⊥

apply_message-SameInput : (m : Message) (l : Link) → SameInput l.input (apply_message m l)
unfolding apply_message apply_bitfield apply_index set_have
apply_message-SameInput m l = ground arith

receive-SameInput : (m : Message) (l : Link) → SameInput l.input (receive m l)
unfolding receive
receive-SameInput m l = ground (
  arith,
  apply_message-SameInput m (with_session l (record (l.session) { bitfield_allowed = false })),
)

-- The call returns, and a message leaves fewer bytes than the stream had.
abbrev pub Shorter : Stream → Flow SessionError Link Message → Type 0
Shorter s (done m k) = IsBytes k.input.bytes × length k.input.bytes < length s.bytes
Shorter s (fail e k) = Unit
Shorter s spent = ⊥

received-Shorter :
    (s t : Stream) (r : Flow SessionError Link Message)
    → IsBytes t.bytes
    → length t.bytes < length s.bytes
    → SameInput t r
    → Shorter s r
received-Shorter s t (done m k) h b e = rw e (h, b)
received-Shorter s t (fail x k) h b e = tt
received-Shorter s t spent h b e = e

Reading-Shorter :
    (l : Link) (r : Flow SessionError Link Message)
    → IsBytes l.input.bytes
    → Reading l r
    → Shorter l.input r
Reading-Shorter l r h (arrived quiet m t q f split e) =
    let bytes : IsBytes (encode m ++ t.bytes) =
      All-append_right (λ b. b < 256) quiet (encode m ++ t.bytes) (subst IsBytes split h) in
    subst (Shorter l.input) (sym e) (
      received-Shorter l.input t _ (All-append_right (λ b. b < 256) (encode m) t.bytes bytes)
        (omega (
          arith,
          ap length split,
          length-append quiet (encode m ++ t.bytes),
          length-append (encode m) t.bytes,
          length-encode m,
        ))
        (receive-SameInput m (record { session = l.session; input = t })))
Reading-Shorter l r h (broken quiet s x t q split b e) = subst (Shorter l.input) (sym e) tt

pub read-Shorter : (l : Link) → IsBytes l.input.bytes → Shorter l.input (read l)
read-Shorter l h = Reading-Shorter l (read l) h (read-Reading l h)
