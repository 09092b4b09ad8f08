-- ===== src/Examples/Frames.antt =====
-- ReadFrame on a Have message, a keep-alive and refused frames.
use bittorrent_client.Base.{
  List, [], arith, done, fail, pos, refl, take, true, ℕ, ◌++◌, ◌^◌, ◌↔◌, ◌∷◌, ◌≡◌, ◌≤◌,
}
use bittorrent_client.Wire.Io.{Stream, eof}
use bittorrent_client.Wire.Endian.{put_uint32}
use bittorrent_client.Wire.Error.{WireError, frame_length, frame_too_long, is_malformed}
use bittorrent_client.Wire.Message.{Message, message, encode}
use bittorrent_client.Wire.Frame.{read_frame}
use bittorrent_client.Wire.Frame.Layout.{Fits, Encodes}
use bittorrent_client.Wire.Frame.Accept.{read_frame-Encodes}
use bittorrent_client.Wire.Frame.Sound.{Reads, read_frame-Reads}
use bittorrent_client.Wire.Frame.Long.{Oversized, read_frame_too_long_iff}
use bittorrent_client.Wire.Frame.Reject.{read_frame_misfit, read_frame_cut_off}

abbrev have_seven : Message
have_seven = record { id = 4; payload = 0 ∷ 0 ∷ 0 ∷ 7 ∷ [] }

abbrev have_seven_bytes : List ℕ
have_seven_bytes = 0 ∷ 0 ∷ 0 ∷ 5 ∷ 4 ∷ 0 ∷ 0 ∷ 0 ∷ 7 ∷ []

have_seven-Encodes : Encodes 10 (message have_seven) have_seven_bytes
unfolding encode put_uint32
have_seven-Encodes = (refl, (Fits.have refl refl, omega arith))

abbrev after_have : Stream
after_have = record { bytes = 1 ∷ 2 ∷ []; ending = eof }

abbrev before_have : Stream
before_have = record { bytes = have_seven_bytes ++ (1 ∷ 2 ∷ []); ending = eof }

read_frame-Encodes_example : read_frame (pos 10) before_have ≡ done (message have_seven) after_have
read_frame-Encodes_example =
    read_frame-Encodes 10 (message have_seven) have_seven_bytes (1 ∷ 2 ∷ []) eof (omega arith)
      have_seven-Encodes

read_frame-Reads_example :
    (n : ℕ) × (pos 10 ≡ pos n) × (n ≤ 2 ^ 32) × Reads n before_have after_have (message have_seven)
read_frame-Reads_example =
    read_frame-Reads (pos 10) before_have after_have (message have_seven) (omega arith)
      read_frame-Encodes_example

read_frame_too_long_iff_example :
    ((read_frame (pos 10) (record { bytes = put_uint32 0x10_0001 ++ (4 ∷ []); ending = eof })
        ≡ fail (frame_too_long 0x10_0001) (record { bytes = 4 ∷ []; ending = eof }))
      ↔ Oversized 0x10_0001
          (record { bytes = put_uint32 0x10_0001 ++ (4 ∷ []); ending = eof })
          (record { bytes = 4 ∷ []; ending = eof }))
    × (is_malformed (frame_too_long 0x10_0001) ≡ true)
unfolding put_uint32
read_frame_too_long_iff_example =
    read_frame_too_long_iff 10 0x10_0001
      (record { bytes = put_uint32 0x10_0001 ++ (4 ∷ []); ending = eof })
      (record { bytes = 4 ∷ []; ending = eof }) (omega arith) (omega arith)

one_too_long :
    Oversized 0x10_0001
      (record { bytes = put_uint32 0x10_0001 ++ (4 ∷ []); ending = eof })
      (record { bytes = 4 ∷ []; ending = eof })
one_too_long = record { split = refl; same_ending = refl; long = omega arith; word = omega arith }

no_short_have : ¬ Fits 10 4 3
no_short_have (Fits.bare h e) = omega arith
no_short_have (Fits.have h e) = omega arith
no_short_have (Fits.bitfield h lo hi) = omega arith
no_short_have (Fits.request h e) = omega arith
no_short_have (Fits.piece h lo hi) = omega arith
no_short_have (Fits.cancel h e) = omega arith

read_frame_misfit_example :
    (read_frame (pos 10) (record { bytes = put_uint32 4 ++ 4 ∷ 0 ∷ 0 ∷ 7 ∷ []; ending = eof })
      ≡ fail (frame_length 4 4) (record { bytes = 0 ∷ 0 ∷ 7 ∷ []; ending = eof }))
    × (is_malformed (frame_length 4 4) ≡ true)
read_frame_misfit_example =
    read_frame_misfit 10 4 3 (0 ∷ 0 ∷ 7 ∷ []) eof (omega arith) (omega arith) (omega arith)
      no_short_have

read_frame_cut_off_example :
    (x : WireError) × (t : Stream) × (read_frame
        (pos 10)
        (record { bytes = take 6 have_seven_bytes; ending = eof })
      ≡ fail x t)
read_frame_cut_off_example =
    read_frame_cut_off 10 (message have_seven) have_seven_bytes 6 eof (omega arith) (omega arith)
      have_seven-Encodes (omega arith)
