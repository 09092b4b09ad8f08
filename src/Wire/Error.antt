-- ===== src/Wire/Error.antt =====
-- The errors of internal/peerwire, one constructor for each place that makes one.
use bittorrent_client.Base.{Bool, false, true, ℕ}
use bittorrent_client.Wire.Io.{IoError}

pub data WireError : Type 0 where
  negative_piece_count : WireError
  piece_count_range : ℕ → WireError
  read_length read_id read_body drain : IoError → WireError
  frame_too_long : ℕ → WireError
  frame_length : ℕ → ℕ → WireError
  wrong_id : ℕ → ℕ → WireError
  payload_length : ℕ → ℕ → WireError
  zero_request parsed_zero_request : WireError
  request_too_long parsed_request_too_long : ℕ → WireError
  block_too_long parsed_block_too_long : ℕ → WireError
  bitfield_length : ℕ → ℕ → WireError
  spare_bits : WireError
  negative_index : WireError
  index_range : ℕ → ℕ → WireError
  handshake_io : IoError → WireError
  protocol_length : ℕ → WireError
  protocol_name : WireError

-- errors.Is(err, ErrMalformedFrame): the error was made by `%w` from ErrMalformedFrame.
abbrev pub is_malformed : WireError → Bool
is_malformed (frame_too_long _) = true
is_malformed (frame_length _ _) = true
is_malformed (payload_length _ _) = true
is_malformed (parsed_block_too_long _) = true
is_malformed (bitfield_length _ _) = true
is_malformed spare_bits = true
is_malformed _ = false
