-- ===== src/Icmp/Frame/Sound.antt =====
-- The frames that `icmp_frame_unpack` accepts, against the wire layout.

use sense_firmware.Prelude.{
  ℕ, zero, suc, ◌+◌, ◌*◌, ◌%◌, ◌^◌, ◌≤◌, ◌<◌, ◌≡◌, ◌≢◌, sym, ap, subst, ◌∙◌, inl, inr, List, [],
  ◌∷◌, ◌++◌, some, arith, length, take, drop, Option-cases, length-take, take-append, get_elem?,
  get_elem?-ge, drop-get_elem?, take-add, memcpy_append, length-memcpy, memcpy, pos,
}
use sense_firmware.Icmp.Frame.{
  Frame, zeroed, returns, crc16_calc, frame_size, max_payload_size, type_invalid, frame_unpack,
}
use sense_firmware.Icmp.Frame.Wire.{IsValid, All, body, wire}

module _ (crc16 : List ℕ → ℕ) (frame g : Frame) (type msg_id target len : ℕ) (rest : List ℕ) where
  -- The frame that a successful call stores.
  abbrev stored : Frame
  stored = record {
    type = type;
    msg_id = msg_id;
    target = target;
    len = len;
    payload = memcpy zeroed.payload 0 (take len rest);
  }

  abbrev bytes : List ℕ
  bytes = type ∷ msg_id ∷ target ∷ len ∷ rest

  record Accepted : Type 0 where
    hi : ℕ
    lo : ℕ
    first : get_elem? bytes (4 + len) ≡ some hi
    second : get_elem? bytes (5 + len) ≡ some lo
    checked : crc16_calc crc16 (take (4 + len) bytes) ≡ (hi * 256 + lo) % 2 ^ 16
    result : g ≡ stored
    known_type : type < type_invalid
    fits : len ≤ max_payload_size

  accepted :
      (buf_len : ℕ)
      → frame_unpack crc16 (some frame) (some bytes) buf_len ≡ returns (pos 0) g
      → Accepted
  unfolding frame_unpack
  accepted buf_len e = elim (Option-cases (get_elem? bytes (4 + len))) [
    | inl p ↦ absurd (ground arith)
    | inr (hi, p) ↦ elim (Option-cases (get_elem? bytes (5 + len))) [
      | inl q ↦ absurd (ground arith)
      | inr (lo, q) ↦ record {
        hi = hi;
        lo = lo;
        first = p;
        second = q;
        checked = ground arith;
        result = ground arith;
        known_type = ground arith;
        fits = ground arith;
      }
    ]
  ]

  module _ (a : Accepted) where
    room : 2 + len ≤ length rest
    room = ground (arith, get_elem?-ge bytes (5 + len), a.second)

    stored-IsValid : IsValid stored
    stored-IsValid = record {
      known_type = a.known_type;
      fits = a.fits;
      storage = length-memcpy zeroed.payload 0 (take len rest);
    }

    length-used : length (take len rest) ≡ len
    length-used = omega (arith, length-take len rest, room)

    payload-stored : take len (memcpy zeroed.payload 0 (take len rest)) ≡ take len rest
    payload-stored =
        rw (memcpy_append [] zeroed.payload (take len rest) (omega (arith, length-used, a.fits))) (
          subst
            (λ n.
              take n (take len rest ++ drop (length (take len rest)) zeroed.payload)
              ≡ take len rest)
            length-used
            (take-append (take len rest) (drop (length (take len rest)) zeroed.payload)))

    body-stored : body stored ≡ take (4 + len) bytes
    unfolding body
    body-stored =
        ap (λ l. type ∷ msg_id ∷ target ∷ len ∷ l) payload-stored ∙ sym (take-add 4 len bytes)

    tail-bytes : take 2 (drop (4 + len) bytes) ≡ a.hi ∷ a.lo ∷ []
    tail-bytes = rw (drop-get_elem? bytes (4 + len) a.hi a.first) (
        ap (λ l. a.hi ∷ take 1 l)
          (ap (λ n. drop n bytes) {x = suc (4 + len)} {y = 5 + len} (omega arith)
            ∙ drop-get_elem? bytes (5 + len) a.lo a.second))

    module _ (hi_byte : a.hi < 256) (lo_byte : a.lo < 256) where
      wire-stored : take (frame_size len) bytes ≡ wire crc16 stored
      unfolding wire
      wire-stored =
          ap (λ n. take n bytes) (omega arith)
          ∙ take-add (4 + len) 2 bytes
          ∙ rw (tail-bytes, body-stored)
              (ap (λ l. take (4 + len) bytes ++ l) (ground (arith, a.checked)))

-- Every element of a list of bytes is a byte.
All-get_elem? :
    (buf : List ℕ) (i b : ℕ) → All (λ x. x < 256) buf → get_elem? buf i ≡ some b → b < 256
All-get_elem? [] i b h e = cc
All-get_elem? (x ∷ buf) zero b h e = ground arith
All-get_elem? (x ∷ buf) (suc i) b h e = All-get_elem? buf i b h.1 e

short_buffer :
    (crc16 : List ℕ → ℕ) (frame g : Frame) (buf : List ℕ) (buf_len : ℕ)
    → length buf < 4
    → frame_unpack crc16 (some frame) (some buf) buf_len ≢ returns (pos 0) g
unfolding frame_unpack
short_buffer crc16 frame g (_ ∷ _ ∷ _ ∷ _ ∷ rest) buf_len h e = omega arith
short_buffer crc16 frame g _ buf_len h e = ground arith

-- If `icmp_frame_unpack` succeeds on a buffer of bytes, the frame that it stores is valid, and the
-- buffer begins with the wire layout of that frame.
pub frame_unpack_sound :
    (crc16 : List ℕ → ℕ) (frame g : Frame) (buf : List ℕ) (buf_len : ℕ)
    → All (λ x. x < 256) buf
    → frame_unpack crc16 (some frame) (some buf) buf_len ≡ returns (pos 0) g
    → IsValid g × (take (frame_size g.len) buf ≡ wire crc16 g)
frame_unpack_sound crc16 frame g (type ∷ msg_id ∷ target ∷ len ∷ rest) buf_len h e = rw (a.result) (
  stored-IsValid crc16 frame g type msg_id target len rest a,
  wire-stored crc16 frame g type msg_id target len rest a
      (All-get_elem? (type ∷ msg_id ∷ target ∷ len ∷ rest) (4 + len) a.hi h a.first)
      (All-get_elem? (type ∷ msg_id ∷ target ∷ len ∷ rest) (5 + len) a.lo h a.second),
)
  where
    a : Accepted crc16 frame g type msg_id target len rest
    a = accepted crc16 frame g type msg_id target len rest buf_len e
frame_unpack_sound crc16 frame g buf buf_len h e =
    absurd (short_buffer crc16 frame g buf buf_len (omega arith) e)
