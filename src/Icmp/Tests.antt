-- ===== src/Icmp/Tests.antt =====
-- Tests of the ICMP modules: a server over the reference queue and slab, and concrete frames.
use sense_firmware.Prelude.{
  ℕ, ◌+◌, ◌<◌, ◌≡◌, refl, List, [], ◌∷◌, ◌++◌, some, arith, replicate, pos, einval, length,
}
use sense_firmware.Icmp.Frame.{Frame, zeroed, returns, frame_pack, frame_unpack, frame_size}
use sense_firmware.Icmp.Frame.Wire.{All, IsValid, wire}
use sense_firmware.Icmp.Frame.Pack.{frame_pack-wire}
use sense_firmware.Icmp.Frame.Unpack.{received, frame_unpack-wire}
use sense_firmware.Icmp.Frame.Sound.{frame_unpack_sound}
use sense_firmware.Icmp.Frame.Equivalence.{Message, Encoded, messages_encoded}
use mathlib.Core.Equiv.{◌≃◌}

-- A 16-bit checksum.
abbrev pub sum : List ℕ → ℕ
sum [] = 0
sum (b ∷ bytes) = b + sum bytes

-- A COMMAND with id 3 for target 1, with a payload of two bytes.
abbrev pub ping : Frame
ping = record {
  type = 0 + 1;
  msg_id = 3;
  target = 1;
  len = 2;
  payload = 112 ∷ 105 ∷ replicate 62 0;
}

pub ping-IsValid : IsValid ping
ping-IsValid = record { known_type = omega arith; fits = omega arith; storage = refl }

frame_pack-wire_example :
    frame_pack sum (some ping) (some (replicate 70 7)) 70
    ≡ (pos 8, some (wire sum ping ++ replicate 62 7))
frame_pack-wire_example =
    frame_pack-wire sum ping (replicate 70 7) 70 ping-IsValid (omega arith) (omega arith)

frame_unpack-wire_example :
    frame_unpack sum (some zeroed) (some (wire sum ping ++ 9 ∷ [])) 70
    ≡ returns (pos 0) (received ping)
frame_unpack-wire_example = frame_unpack-wire sum ping zeroed (9 ∷ []) 70 ping-IsValid (omega arith)

-- The wire layout of the frame with its last byte changed.
abbrev corrupted : List ℕ
corrupted = 1 ∷ 3 ∷ 1 ∷ 2 ∷ 112 ∷ 105 ∷ 0 ∷ 1 ∷ []

corrupted_refused : frame_unpack sum (some zeroed) (some corrupted) 8 ≡ returns einval zeroed
unfolding frame_unpack
corrupted_refused = refl

abbrev valid_bytes : List ℕ
valid_bytes = 1 ∷ 3 ∷ 1 ∷ 2 ∷ 112 ∷ 105 ∷ 0 ∷ 224 ∷ []

valid_accepted :
    frame_unpack sum (some zeroed) (some valid_bytes) 8 ≡ returns (pos 0) (received ping)
unfolding frame_unpack
valid_accepted = refl

valid_bytes_small : All (λ x. x < 256) valid_bytes
valid_bytes_small = (
  omega arith,
  (
    omega arith,
    (omega arith, (omega arith, (omega arith, (omega arith, (omega arith, (omega arith, tt)))))),
  ),
)

frame_unpack_sound_example : IsValid (received ping) × (valid_bytes ≡ wire sum (received ping))
frame_unpack_sound_example =
    frame_unpack_sound sum zeroed (received ping) valid_bytes 8 valid_bytes_small valid_accepted

messages_encoded_example :
    (e : Message ≃ Encoded sum) × ((m : Message)
      → let n = frame_size m.0.len in
        frame_pack sum (some m.0) (some (replicate n 0)) n ≡ (pos n, some (e.0 m).0))
    × ((m : Message)
        → frame_unpack sum (some zeroed) (some (e.0 m).0) (length (e.0 m).0) ≡ returns (pos 0) m.0)
messages_encoded_example = messages_encoded sum
