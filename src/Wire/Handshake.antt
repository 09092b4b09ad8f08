-- ===== src/Wire/Handshake.antt =====
-- internal/peerwire/handshake.go. A Handshake's fields are Go arrays of 8, 20 and 20 bytes.
pub mod Trip
use bittorrent_client.Base.{
  Flow, List, [], bytes_eq, done, drop, fail, get_or, if◌then◌else◌, length, take, wrap, ℕ, ◌++◌,
  ◌+◌, ◌-◌, ◌==◌, ◌>>=◌, ◌∷◌, ◌≡◌,
}
use bittorrent_client.Wire.Io.{Stream, IoError, read_full, rest}
use bittorrent_client.Wire.Error.{WireError, handshake_io, protocol_length, protocol_name}
use bittorrent_client.Wire.Writer.{Writer, Written, write_full}

-- protocolName, "BitTorrent protocol"
abbrev pub protocol : List ℕ
protocol =
    b'B' ∷ b'i' ∷ b't' ∷ b'T' ∷ b'o' ∷ b'r' ∷ b'r' ∷ b'e' ∷ b'n' ∷ b't' ∷ b' ' ∷ b'p' ∷ b'r' ∷ b'o'
    ∷ b't' ∷ b'o' ∷ b'c' ∷ b'o' ∷ b'l' ∷ []

abbrev pub len_protocol : ℕ
len_protocol = 19

abbrev pub handshake_size : ℕ
handshake_size = 49 + len_protocol

pub record Handshake : Type 0 where
  pub reserved : List ℕ
  pub info_hash : List ℕ
  pub peer_id : List ℕ

-- The array types of the fields.
pub record IsHandshake (h : Handshake) : Type 0 where
  pub reserved_size : length h.reserved ≡ 8
  pub info_hash_size : length h.info_hash ≡ 20
  pub peer_id_size : length h.peer_id ≡ 20

unfoldable pub handshake_bytes : Handshake → List ℕ
handshake_bytes h = len_protocol ∷ (protocol ++ (h.reserved ++ (h.info_hash ++ h.peer_id)))

-- `rest`, all but the first byte, taken apart
fields : List ℕ → Handshake
fields rest = record {
  reserved = take 8 (drop len_protocol rest);
  info_hash = take 20 (drop (len_protocol + 8) rest);
  peer_id = take 20 (drop (len_protocol + 8 + 20) rest);
}

parse_rest : List ℕ → Stream → Flow WireError Stream Handshake
parse_rest rest =
    if bytes_eq (take len_protocol rest) protocol then done (fields rest) else fail protocol_name

read_named : Stream → Flow WireError Stream Handshake
read_named = do rest ← λ s. wrap handshake_io (read_full (handshake_size - 1) s); parse_rest rest

pub read_rest : ℕ → Stream → Flow WireError Stream Handshake
read_rest len = if len == len_protocol then read_named else fail (protocol_length len)

unfoldable pub read_handshake : Stream → Flow WireError Stream Handshake
read_handshake = do len ← λ s. wrap handshake_io (read_full 1 s); read_rest (get_or len 0 0)

-- Handshake.WriteTo
unfoldable pub write_handshake : (w : Writer) → Handshake → w.State → Written w.State
unfolding handshake_bytes
write_handshake w h s = write_full w (handshake_bytes h) s
