-- ===== src/Peer/Session/Heard.antt =====
-- The message that `Read` returns stood on the connection.
use bittorrent_client.Base.{Flow, List, arith, done, fail, false, spent, subst, sym, ℕ, ◌++◌, ◌≡◌}
use bittorrent_client.Wire.Io.{Stream}
use bittorrent_client.Wire.Endian.{IsBytes}
use bittorrent_client.Wire.Message.{Message, encode}
use bittorrent_client.Peer.Session.{
  SessionError, Link, apply_bitfield, apply_index, apply_message, read, receive, set_have,
  with_session,
}
use bittorrent_client.Peer.Session.Frames.{Reading, arrived, broken, read-Reading}

-- A message is returned as it is, and the input is left as it was.
abbrev Same : Message → Stream → Flow SessionError Link Message → Type 0
Same m s (done x k) = (x ≡ m) × (k.input ≡ s)
Same m s (fail e k) = Unit
Same m s spent = Unit

apply_message-Same : (m : Message) (l : Link) → Same m l.input (apply_message m l)
unfolding apply_message apply_bitfield apply_index set_have
apply_message-Same m l = ground arith

receive-Same : (m : Message) (l : Link) → Same m l.input (receive m l)
unfolding receive
receive-Same m l =
    ground (
      arith,
      apply_message-Same m (with_session l (record (l.session) { bitfield_allowed = false })),
    )

-- The bytes from some place on are the message and what is left.
abbrev pub Heard : List ℕ → Flow SessionError Link Message → Type 0
Heard bs (done m k) = (skipped : List ℕ) × (bs ≡ skipped ++ (encode m ++ k.input.bytes))
Heard bs (fail e k) = Unit
Heard bs spent = Unit

received-Heard :
    (bs quiet : List ℕ) (m : Message) (t : Stream) (r : Flow SessionError Link Message)
    → bs ≡ quiet ++ (encode m ++ t.bytes)
    → Same m t r
    → Heard bs r
received-Heard bs quiet m t (done x k) split e = (quiet, rw (e.0, e.1) split)
received-Heard bs quiet m t (fail x k) split e = tt
received-Heard bs quiet m t spent split e = tt

Reading-Heard :
    (l : Link) (r : Flow SessionError Link Message) → Reading l r → Heard l.input.bytes r
Reading-Heard l r (arrived quiet m t q f split e) = subst (Heard l.input.bytes) (sym e) (
    received-Heard l.input.bytes quiet m t _ split
      (receive-Same m (record { session = l.session; input = t })))
Reading-Heard l r (broken quiet s x t q split b e) = subst (Heard l.input.bytes) (sym e) tt

pub read-Heard : (l : Link) → IsBytes l.input.bytes → Heard l.input.bytes (read l)
read-Heard l h = Reading-Heard l (read l) (read-Reading l h)
