-- ===== src/Examples/Dials.antt =====
-- A peer that answers with the info hash asked for.
use bittorrent_client.Base.{[], false, none, replicate, some}
use bittorrent_client.Examples.Writers.{slow}
use bittorrent_client.Examples.Handshakes.{hello}
use bittorrent_client.Wire.Io.{eof}
use bittorrent_client.Wire.Handshake.{handshake_bytes}
use bittorrent_client.Peer.Dial.{Conn, exchange_handshake, dial_connected}
use bittorrent_client.Peer.Dial.Exchange.{
  Exchanged, Dialled, exchange_handshake-Exchanged, dial_connected-Dialled,
}

abbrev answering : Conn slow
answering = record {
  out = [];
  input = record { bytes = handshake_bytes hello; ending = eof };
  closed = false;
}

exchange_handshake-Exchanged_example :
    Exchanged slow
      (replicate 20 17)
      (replicate 20 1)
      answering
      (exchange_handshake slow (replicate 20 17) (replicate 20 1) answering)
exchange_handshake-Exchanged_example =
    exchange_handshake-Exchanged slow (replicate 20 17) (replicate 20 1) answering

dial_connected-Dialled_example :
    Dialled slow
      (replicate 20 17)
      (replicate 20 1)
      none
      (some 3)
      answering
      (dial_connected slow (replicate 20 17) (replicate 20 1) none (some 3) answering)
dial_connected-Dialled_example =
    dial_connected-Dialled slow (replicate 20 17) (replicate 20 1) none (some 3) answering
