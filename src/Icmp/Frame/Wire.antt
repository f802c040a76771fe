-- ===== src/Icmp/Frame/Wire.antt =====
-- The layout that icmp_frame.h describes, stated without buffers: header, payload, checksum.
use sense_firmware.Prelude.{
  ℕ, ◌+◌, ◌/◌, ◌%◌, ◌≤◌, ◌<◌, ◌≡◌, List, [], ◌∷◌, ◌++◌, arith, length, take, length-take,
}
use sense_firmware.Icmp.Frame.{Frame, crc16_calc, max_payload_size, type_invalid}

-- A frame that `icmp_frame_pack` accepts, its payload array being of the declared size.
pub record IsValid (f : Frame) : Type 0 where
  pub known_type : f.type < type_invalid
  pub fits : f.len ≤ max_payload_size
  pub storage : length f.payload ≡ max_payload_size

abbrev pub All {ℓ κ} : {A : Type ℓ} → (A → Type κ) → List A → Type κ
All P [] = Unit
All P (x ∷ xs) = P x × All P xs

-- The bytes that the checksum covers.
unfoldable pub body : Frame → List ℕ
body f = f.type ∷ f.msg_id ∷ f.target ∷ f.len ∷ take f.len f.payload

pub length-body : (f : Frame) → IsValid f → length (body f) ≡ 4 + f.len
unfolding body
length-body f v = omega (arith, length-take f.len f.payload)

module _ (crc16 : List ℕ → ℕ) where
  abbrev pub checksum : List ℕ → List ℕ
  checksum bytes = (crc16_calc crc16 bytes / 256) ∷ (crc16_calc crc16 bytes % 256) ∷ []

  unfoldable pub wire : Frame → List ℕ
  wire f = body f ++ checksum (body f)
