-- ===== src/Icmp/Frame/Unpack.antt =====
-- `icmp_frame_unpack`: what it accepts, what it leaves alone, and what it reads.
use sense_firmware.Prelude.{
  ℕ, ◌+◌, ◌≤◌, ◌<◌, ◌≡◌, ◌≢◌, subst, List, ◌∷◌, ◌++◌, some, arith, length, take, drop, append_assoc,
  length-take, take-append, get_elem?, get_elem?-append_right, get_elem?-lt, get_elem?-ge, memcpy,
  pos, einval, ℤ,
}
use sense_firmware.Icmp.Frame.{
  Frame, zeroed, returns, out_of_bounds, min_frame_size, max_frame_size, max_payload_size,
  type_invalid, frame_unpack,
}
use sense_firmware.Icmp.Frame.Wire.{IsValid, body, length-body, checksum, wire}

-- The payload array that a received frame has: its bytes, and zeros behind them.
abbrev pub received : Frame → Frame
received f = record f { payload = memcpy zeroed.payload 0 (take f.len f.payload) }

module _ (crc16 : List ℕ → ℕ) where
  wire-get :
      (f : Frame) (rest : List ℕ) (i : ℕ)
      → IsValid f
      → get_elem? (wire crc16 f ++ rest) (4 + f.len + i)
        ≡ get_elem? (checksum crc16 (body f) ++ rest) i
  unfolding wire
  wire-get f rest i v =
      rw (append_assoc (body f) (checksum crc16 (body f)) rest, ← length-body f v)
        (get_elem?-append_right (body f) (checksum crc16 (body f) ++ rest) i)

  wire-take :
      (f : Frame) (rest : List ℕ) → IsValid f → take (4 + f.len) (wire crc16 f ++ rest) ≡ body f
  unfolding wire
  wire-take f rest v =
      rw (append_assoc (body f) (checksum crc16 (body f)) rest, ← length-body f v)
        (take-append (body f) (checksum crc16 (body f) ++ rest))

  wire-payload :
      (f : Frame) (rest : List ℕ)
      → IsValid f
      → take f.len (drop 4 (wire crc16 f ++ rest)) ≡ take f.len f.payload
  unfolding wire body
  wire-payload f rest v = rw (append_assoc (take f.len f.payload) (checksum crc16 (body f)) rest) (
      subst
        (λ n.
          take n (take f.len f.payload ++ (checksum crc16 (body f) ++ rest)) ≡ take f.len f.payload)
        (omega (arith, length-take f.len f.payload, v.fits, v.storage))
        (take-append (take f.len f.payload) (checksum crc16 (body f) ++ rest)))

  -- Whatever the buffer holds behind the frame, unpacking the wire layout of a valid frame, in a
  -- buffer that is given as no shorter than the smallest frame, succeeds and stores that frame, its
  -- payload padded by zeros.
  pub frame_unpack-wire :
      (f frame : Frame) (rest : List ℕ) (buf_len : ℕ)
      → IsValid f
      → min_frame_size ≤ buf_len
      → frame_unpack crc16 (some frame) (some (wire crc16 f ++ rest)) buf_len
        ≡ returns (pos 0) (received f)
  unfolding frame_unpack wire body
  frame_unpack-wire f frame rest buf_len v h = ground (
    arith,
    v.known_type,
    v.fits,
    wire-get f rest 0 v,
    wire-get f rest 1 v,
    wire-take f rest v,
    wire-payload f rest v,
  )

  -- A call that does not succeed leaves the frame as it was, and its only error is -EINVAL.
  pub frame_unpack_fails :
      (frame g : Frame) (buf : List ℕ) (buf_len : ℕ) (ret : ℤ)
      → frame_unpack crc16 (some frame) (some buf) buf_len ≡ returns ret g
      → ret ≢ pos 0
      → (g ≡ frame) × (ret ≡ einval)
  unfolding frame_unpack
  frame_unpack_fails frame g (type ∷ msg_id ∷ target ∷ len ∷ rest) buf_len ret e h = ground arith
  frame_unpack_fails frame g _ buf_len ret e h = ground arith

  -- A buffer of the largest frame's size is never read outside.
  pub frame_unpack_in_bounds :
      (frame : Frame) (buf : List ℕ) (buf_len : ℕ)
      → max_frame_size ≤ length buf
      → frame_unpack crc16 (some frame) (some buf) buf_len ≢ out_of_bounds
  unfolding frame_unpack
  frame_unpack_in_bounds frame (type ∷ msg_id ∷ target ∷ len ∷ rest) buf_len h = λ e. ground (
    arith,
    get_elem?-lt (type ∷ msg_id ∷ target ∷ len ∷ rest) (4 + len),
    get_elem?-lt (type ∷ msg_id ∷ target ∷ len ∷ rest) (5 + len),
  )
  frame_unpack_in_bounds frame _ buf_len h = λ e. omega arith

  -- The declared length is not held against `buf_len`: a header of a known type that declares more
  -- payload than the buffer has makes the call read past the end of the buffer.
  pub frame_unpack_overread :
      (frame : Frame) (type msg_id target len : ℕ) (rest : List ℕ)
      → type < type_invalid
      → len ≤ max_payload_size
      → 2 ≤ length rest
      → length rest < 2 + len
      → let buf = type ∷ msg_id ∷ target ∷ len ∷ rest in
        frame_unpack crc16 (some frame) (some buf) (length buf) ≡ out_of_bounds
  unfolding frame_unpack
  frame_unpack_overread frame type msg_id target len rest h k l m =
      ground (arith, get_elem?-ge (type ∷ msg_id ∷ target ∷ len ∷ rest) (5 + len))
