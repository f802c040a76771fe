-- ===== src/Icmp/Frame.antt =====
-- The wire format: lib/icmp/icmp_frame.c and icmp_frame.h. The CRC16 of Zephyr is a parameter.
-- A buffer is the list of the bytes that the caller owns, and a null pointer is `none`.
pub mod Wire
pub mod Pack
pub mod Unpack
pub mod Sound
pub mod Equivalence
use sense_firmware.Prelude.{
  ℕ, ◌+◌, ◌*◌, ◌/◌, ◌%◌, ◌^◌, List, [], ◌∷◌, Option, none, some, ltb, leb, ◌==◌, if◌then◌else◌,
  length, get_elem?, take, drop, replicate, memcpy, ℤ, pos, einval, enobufs,
}

-- `CONFIG_ICMP_MAX_PAYLOAD_SIZE`, at its default
abbrev pub max_payload_size : ℕ
max_payload_size = 64

-- `enum icmp_type`
abbrev pub type_command : ℕ
type_command = 1

abbrev pub type_response : ℕ
type_response = 2

abbrev pub type_notify : ℕ
type_notify = 3

abbrev pub type_heartbeat : ℕ
type_heartbeat = 4

abbrev pub type_invalid : ℕ
type_invalid = 5

-- `ICMP_FRAME_SIZE`, and the least and the greatest size of a frame
abbrev pub frame_size : ℕ → ℕ
frame_size payload_len = 4 + 2 + payload_len

abbrev pub min_frame_size : ℕ
min_frame_size = 4 + 2

abbrev pub max_frame_size : ℕ
max_frame_size = frame_size max_payload_size

-- `struct icmp_frame`; the payload array is longer than `len`, its used part.
pub record Frame : Type 0 where
  pub type : ℕ
  pub msg_id : ℕ
  pub target : ℕ
  pub len : ℕ
  pub payload : List ℕ

abbrev pub zeroed : Frame
zeroed = record {
  type = 0;
  msg_id = 0;
  target = 0;
  len = 0;
  payload = replicate max_payload_size 0;
}

-- What `icmp_frame_unpack` leaves behind: its result and the frame, its result alone where the
-- frame is a null pointer, or a read outside the buffer.
pub data Unpacked : Type 0 where
  returns : ℤ → Frame → Unpacked
  no_frame : ℤ → Unpacked
  out_of_bounds : Unpacked

-- `crc16` stands for Zephyr's `crc16_ansi`.
module _ (crc16 : List ℕ → ℕ) where
  -- `icmp_crc16_calc`, a `uint16_t`
  abbrev pub crc16_calc : List ℕ → ℕ
  crc16_calc bytes = crc16 bytes % 2 ^ 16

  -- `buf[0..3]`, then the payload, then the checksum of what was written, high byte first
  unfoldable pub write_frame : Frame → List ℕ → List ℕ
  write_frame f buf =
      let headed = memcpy buf 0 (f.type ∷ f.msg_id ∷ f.target ∷ f.len ∷ []) in
      let filled = memcpy headed 4 (take f.len f.payload) in
      let crc = crc16_calc (take (4 + f.len) filled) in
      memcpy filled (4 + f.len) ((crc / 256) ∷ (crc % 256) ∷ [])

  unfoldable pub pack_into : Frame → List ℕ → ℕ → ℤ × List ℕ
  unfolding write_frame
  pack_into f buf buf_len =
      if leb type_invalid f.type
      then (einval, buf)
      else if ltb max_payload_size f.len
      then (einval, buf)
      else if ltb buf_len (frame_size f.len)
      then (enobufs, buf)
      else (pos (frame_size f.len), write_frame f buf)

  -- `icmp_frame_pack`
  unfoldable pub frame_pack : Option Frame → Option (List ℕ) → ℕ → ℤ × Option (List ℕ)
  unfolding pack_into
  frame_pack none buf buf_len = (einval, buf)
  frame_pack (some f) none buf_len = (einval, none)
  frame_pack (some f) (some buf) buf_len =
      let (ret, buf') = pack_into f buf buf_len in (ret, some buf')

  -- The reads behind the header: the sent checksum at `buf[4 + length]` and `buf[5 + length]`.
  -- The bytes do not overlap, so `(hi << 8) | lo` is a sum.
  unfoldable pub check_frame : Frame → Frame → List ℕ → Unpacked
  check_frame frame f buf = elim (get_elem? buf (4 + f.len)) [
    | none ↦ out_of_bounds
    | some hi ↦ elim (get_elem? buf (5 + f.len)) [
      | none ↦ out_of_bounds
      | some lo ↦
          if crc16_calc (take (4 + f.len) buf) == (hi * 256 + lo) % 2 ^ 16
          then returns (pos 0) (record f { payload = memcpy f.payload 0 (take f.len (drop 4 buf)) })
          else returns einval frame
    ]
  ]

  unfoldable pub unpack_header : Frame → List ℕ → ℕ → ℕ → ℕ → ℕ → Unpacked
  unfolding check_frame
  unpack_header frame buf type msg_id target len =
      if leb type_invalid type
      then returns einval frame
      else if ltb max_payload_size len
      then returns einval frame
      else check_frame frame
          (record zeroed { type = type; msg_id = msg_id; target = target; len = len }) buf

  unfoldable pub read_header : Frame → List ℕ → Unpacked
  unfolding unpack_header
  read_header frame (type ∷ msg_id ∷ target ∷ len ∷ rest) =
      unpack_header frame (type ∷ msg_id ∷ target ∷ len ∷ rest) type msg_id target len
  read_header frame _ = out_of_bounds

  unfoldable pub unpack_from : Frame → List ℕ → ℕ → Unpacked
  unfolding read_header
  unpack_from frame buf buf_len =
      if ltb buf_len min_frame_size then returns einval frame else read_header frame buf

  -- `icmp_frame_unpack`
  unfoldable pub frame_unpack : Option Frame → Option (List ℕ) → ℕ → Unpacked
  unfolding unpack_from
  frame_unpack none buf buf_len = no_frame einval
  frame_unpack (some frame) none buf_len = returns einval frame
  frame_unpack (some frame) (some buf) buf_len = unpack_from frame buf buf_len
