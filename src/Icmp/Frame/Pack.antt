-- ===== src/Icmp/Frame/Pack.antt =====
-- `icmp_frame_pack` against the wire layout, with its errors.
use sense_firmware.Prelude.{
  ltb, if◌then◌else◌, ℤ, leb, ◌&&◌, einval, enobufs, ℕ, ◌+◌, ◌≤◌, ◌<◌, ◌≡◌, sym, ap, ◌∙◌, List, [],
  ◌∷◌, ◌++◌, some, arith, length, take, drop, append_assoc, length-take, length-drop, take-append,
  memcpy_append, memcpy, drop-drop, pos, einval, enobufs,
}
use sense_firmware.Icmp.Frame.{
  Frame, frame_size, max_payload_size, type_invalid, write_frame, frame_pack,
}
use sense_firmware.Icmp.Frame.Wire.{IsValid, body, length-body, checksum, wire}

module _ (f : Frame) (buf : List ℕ) (v : IsValid f) (room : frame_size f.len ≤ length buf) where
  unused : List ℕ
  unused = drop f.len (drop 4 buf)

  length-unused : 2 ≤ length unused
  unfolding unused
  length-unused = omega (arith, length-drop f.len (drop 4 buf), length-drop 4 buf)

  drop-unused : drop 2 unused ≡ drop (frame_size f.len) buf
  unfolding unused
  drop-unused =
      rw (drop-drop f.len 2 (drop 4 buf), drop-drop 4 (f.len + 2) buf)
        (ap (λ n. drop n buf) (omega arith))

  length-used : length (take f.len f.payload) ≡ f.len
  length-used = omega (arith, length-take f.len f.payload, v.fits, v.storage)

  header_room : f.len ≤ length (drop 4 buf)
  header_room = omega (arith, length-drop 4 buf)

  -- The two copies before the checksum leave the bytes that it covers.
  filled-body :
      memcpy (memcpy buf 0 (f.type ∷ f.msg_id ∷ f.target ∷ f.len ∷ [])) 4 (take f.len f.payload)
      ≡ body f ++ unused
  unfolding body unused
  filled-body =
      rw (memcpy_append [] buf (f.type ∷ f.msg_id ∷ f.target ∷ f.len ∷ []) (omega arith)) (
        memcpy_append (f.type ∷ f.msg_id ∷ f.target ∷ f.len ∷ []) (drop 4 buf)
          (take f.len f.payload) (omega (arith, length-used, header_room))
        ∙ ap
            (λ n.
              f.type ∷ f.msg_id ∷ f.target ∷ f.len ∷ (take f.len f.payload ++ drop n (drop 4 buf)))
            length-used)

  pub write_frame-wire :
      (crc16 : List ℕ → ℕ) → write_frame crc16 f buf ≡ wire crc16 f ++ drop (frame_size f.len) buf
  unfolding write_frame wire
  write_frame-wire crc16 =
      rw (filled-body, ← length-body f v, take-append (body f) unused)
        (memcpy_append (body f) unused (checksum crc16 (body f)) length-unused
          ∙ ap (λ r. body f ++ (checksum crc16 (body f) ++ r)) drop-unused
          ∙ sym (append_assoc (body f) (checksum crc16 (body f)) (drop (frame_size f.len) buf)))

-- On a frame and a buffer that meet the header's conditions, `icmp_frame_pack` returns the size of
-- the frame, writes its wire layout at the front of the buffer and leaves the bytes behind it.
pub frame_pack-wire :
    (crc16 : List ℕ → ℕ) (f : Frame) (buf : List ℕ) (buf_len : ℕ)
    → IsValid f
    → frame_size f.len ≤ buf_len
    → buf_len ≤ length buf
    → frame_pack crc16 (some f) (some buf) buf_len
      ≡ (pos (frame_size f.len), some (wire crc16 f ++ drop (frame_size f.len) buf))
unfolding frame_pack
frame_pack-wire crc16 f buf buf_len v fits room =
    ground (arith, write_frame-wire f buf v (omega arith) crc16, v.known_type, v.fits)

-- The error that the header documents for a frame that cannot be packed.
abbrev pub refusal : Frame → ℤ
refusal f = if ltb f.type type_invalid && leb f.len max_payload_size then enobufs else einval

-- A frame of an unknown type or with an oversized payload, and a buffer too small for the frame, are
-- refused: with -EINVAL for the frame, and with -ENOBUFS if only the buffer is at fault. The buffer
-- stays as it was.
pub frame_pack_refuses :
    (crc16 : List ℕ → ℕ) (f : Frame) (buf : List ℕ) (buf_len : ℕ)
    → ¬ ((f.type < type_invalid) × (f.len ≤ max_payload_size) × (frame_size f.len ≤ buf_len))
    → frame_pack crc16 (some f) (some buf) buf_len ≡ (refusal f, some buf)
unfolding frame_pack
frame_pack_refuses crc16 f buf buf_len h = ground arith
