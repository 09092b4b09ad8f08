-- ===== src/Peer/Dial.antt =====
-- internal/peerconn/conn.go: `exchangeHandshake` and `dial`.
pub mod Exchange
use bittorrent_client.Base.{
  Bool, Flow, List, Option, bytes_eq, done, fail, if◌then◌else◌, none, replicate, some, spent, true,
  ℕ,
}
use bittorrent_client.Wire.Io.{IoError, Stream}
use bittorrent_client.Wire.Error.{WireError}
use bittorrent_client.Wire.Writer.{Writer, Written, written, stalled}
use bittorrent_client.Wire.Handshake.{Handshake, read_handshake, write_handshake}

pub data ExchangeError : Type 0 where
  write_failed : IoError → ExchangeError
  read_failed : WireError → ExchangeError
  different_hash : ExchangeError

pub data DialFault : Type 0 where
  not_watched : ℕ → DialFault
  cancelled : ℕ → DialFault
  not_exchanged : ExchangeError → DialFault

-- The handshake of this client: no reserved bits.
abbrev pub local_handshake : List ℕ → List ℕ → Handshake
local_handshake info_hash peer_id = record {
  reserved = replicate 8 0;
  info_hash = info_hash;
  peer_id = peer_id;
}

module _ (w : Writer) where
  -- Both directions of a connection, and whether it was closed.
  pub record Conn : Type 0 where
    pub out : w.State
    pub input : Stream
    pub closed : Bool

  compared :
      List ℕ → w.State → Bool → Flow WireError Stream Handshake → Flow ExchangeError Conn Handshake
  compared info_hash o closed (done h t) =
      let q : Conn = record { out = o; input = t; closed = closed } in
      if bytes_eq h.info_hash info_hash then done h q else fail different_hash q
  compared info_hash o closed (fail e t) =
      fail (read_failed e) (record { out = o; input = t; closed = closed })
  compared info_hash o closed spent = spent

  answered : List ℕ → Conn → Written w.State → Flow ExchangeError Conn Handshake
  unfolding compared
  answered info_hash r (written n none o) = compared info_hash o r.closed (read_handshake r.input)
  answered info_hash r (written n (some e) o) = fail (write_failed e) (record r { out = o })
  answered info_hash r stalled = spent

  unfoldable pub exchange_handshake : List ℕ → List ℕ → Conn → Flow ExchangeError Conn Handshake
  unfolding answered
  exchange_handshake info_hash peer_id r =
      answered info_hash r (write_handshake w (local_handshake info_hash peer_id) r.out)

  -- conn.Close
  abbrev close : Conn → Conn
  close r = record r { closed = true }

  -- The end of dial: the context has the last word, and an error closes the connection.
  ended : Option ℕ → Flow ExchangeError Conn Handshake → Flow DialFault Conn Handshake
  ended none (done h q) = done h q
  ended (some e) (done h q) = fail (cancelled e) (close q)
  ended none (fail x q) = fail (not_exchanged x) (close q)
  ended (some e) (fail x q) = fail (cancelled e) (close q)
  ended o spent = spent

  watched : List ℕ → List ℕ → Option ℕ → Option ℕ → Conn → Flow DialFault Conn Handshake
  unfolding ended
  watched info_hash peer_id (some e) context r = fail (not_watched e) (close r)
  watched info_hash peer_id none context r = ended context (exchange_handshake info_hash peer_id r)

  -- dial on a connection that DialContext made; `watch` is the error of setting its deadline, and
  -- `context` the error of the context after the exchange.
  unfoldable pub dial_connected :
      List ℕ → List ℕ → Option ℕ → Option ℕ → Conn → Flow DialFault Conn Handshake
  unfolding watched
  dial_connected info_hash peer_id watch context r = watched info_hash peer_id watch context r
