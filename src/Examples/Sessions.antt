-- ===== src/Examples/Sessions.antt =====
-- A fresh session of a torrent of ten pieces, to which a keep-alive and a Have arrive.
use bittorrent_client.Base.{[], arith, refl, true, ◌∷◌}
use bittorrent_client.Examples.Bitfields.{blank, blank-IsBitfield}
use bittorrent_client.Wire.Io.{eof}
use bittorrent_client.Wire.Message.{Message}
use bittorrent_client.Wire.Frame.Layout.{Fits}
use bittorrent_client.Peer.Session.{Session, Link, receive, read}
use bittorrent_client.Peer.Session.Frames.{Reading, read-Reading}
use bittorrent_client.Peer.Session.View.{IsSession, Received}
use bittorrent_client.Peer.Session.Receive.{receive-Received}

abbrev fresh : Session
fresh = record { choked = true; piece_count = 10; peer_pieces = blank; bitfield_allowed = true }

fresh-IsSession : IsSession fresh
fresh-IsSession = record { pieces = blank-IsBitfield; count = refl }

abbrev link : Link
link = record {
  session = fresh;
  input = record { bytes = 0 ∷ 0 ∷ 0 ∷ 0 ∷ 0 ∷ 0 ∷ 0 ∷ 5 ∷ 4 ∷ 0 ∷ 0 ∷ 0 ∷ 7 ∷ []; ending = eof };
}

read-Reading_example : Reading link (read link)
read-Reading_example = read-Reading link (omega arith)

abbrev have_seven : Message
have_seven = record { id = 4; payload = 0 ∷ 0 ∷ 0 ∷ 7 ∷ [] }

receive-Received_example : Received have_seven link (receive have_seven link)
receive-Received_example =
    receive-Received have_seven link fresh-IsSession (omega arith)
      (Fits.have refl refl, omega arith)
