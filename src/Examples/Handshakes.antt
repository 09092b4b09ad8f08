-- ===== src/Examples/Handshakes.antt =====
-- A handshake with its fields and what follows it.
use bittorrent_client.Base.{[], done, refl, replicate, ◌++◌, ◌∷◌, ◌≡◌}
use bittorrent_client.Wire.Io.{Stream, eof}
use bittorrent_client.Wire.Handshake.{Handshake, IsHandshake, handshake_bytes, read_handshake}
use bittorrent_client.Wire.Handshake.Trip.{read_handshake-handshake_bytes}

abbrev pub hello : Handshake
hello = record { reserved = replicate 8 0; info_hash = replicate 20 17; peer_id = replicate 20 66 }

pub hello-IsHandshake : IsHandshake hello
hello-IsHandshake = record { reserved_size = refl; info_hash_size = refl; peer_id_size = refl }

abbrev hello_stream : Stream
hello_stream = record { bytes = handshake_bytes hello ++ (0 ∷ []); ending = eof }

abbrev rest_stream : Stream
rest_stream = record { bytes = 0 ∷ []; ending = eof }

read_handshake-handshake_bytes_example : read_handshake hello_stream ≡ done hello rest_stream
read_handshake-handshake_bytes_example =
    read_handshake-handshake_bytes hello (0 ∷ []) eof hello-IsHandshake
