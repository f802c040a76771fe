-- ===== src/Icmp/Frame/Equivalence.antt =====
-- Messages and the buffers that `icmp_frame_unpack` accepts whole, as two types. A message is a
-- valid frame of bytes with zeros behind its payload, as `icmp_frame_unpack` stores one.
use mathlib.Core.Equiv.{◌≃◌, Iso, iso_to_equiv}
use mathlib.Core.HLevel.{Σ_prop_path}
use native.Mathlib.Bridge.{le_prop}
use sense_firmware.Prelude.{
  ℕ, ◌<◌, ◌≤◌, ◌≡◌, ◌∙◌, refl, sym, ap, subst, List, [], ◌∷◌, ◌++◌, some, arith, length, take, drop,
  replicate, pos, append-nil, length-append, length-replicate, drop-nil, zero, suc,
}
use sense_firmware.Icmp.Frame.{
  Frame, zeroed, Unpacked, returns, frame_size, frame_pack, frame_unpack,
}
use sense_firmware.Icmp.Frame.Wire.{IsValid, All, body, wire, length-body, checksum}
use sense_firmware.Icmp.Frame.Pack.{frame_pack-wire}
use sense_firmware.Icmp.Frame.Unpack.{received, frame_unpack-wire}
use sense_firmware.Icmp.Frame.Sound.{frame_unpack_sound}

abbrev pub IsByte : ℕ → Type 0
IsByte b = b < 256

All-prop : (buf : List ℕ) → IsProp (All IsByte buf)
All-prop [] = hlevel
All-prop (b ∷ buf) = hlevel (le_prop, All-prop buf)

IsValid-prop : (f : Frame) → IsProp (IsValid f)
IsValid-prop f = hlevel le_prop

Frame-set : IsSet Frame
Frame-set = hlevel

Unpacked-set : IsSet Unpacked
Unpacked-set = hlevel

All-append : (xs ys : List ℕ) → All IsByte xs → All IsByte ys → All IsByte (xs ++ ys)
All-append [] ys h k = k
All-append (x ∷ xs) ys h k = (h.0, All-append xs ys h.1 k)

All-front : (xs ys : List ℕ) → All IsByte (xs ++ ys) → All IsByte xs
All-front [] ys h = tt
All-front (x ∷ xs) ys h = (h.0, All-front xs ys h.1)

take_all : (n : ℕ) (xs : List ℕ) → length xs ≤ n → take n xs ≡ xs
take_all zero [] h = refl
take_all (suc n) [] h = refl
take_all zero (x ∷ xs) h = absurd (omega arith)
take_all (suc n) (x ∷ xs) h = ap (λ l. x ∷ l) (take_all n xs (omega arith))

drop_all : (n : ℕ) (xs : List ℕ) → length xs ≤ n → drop n xs ≡ []
drop_all n [] h = drop-nil n
drop_all zero (x ∷ xs) h = absurd (omega arith)
drop_all (suc n) (x ∷ xs) h = drop_all n xs (omega arith)

abbrev pub IsMessage : Frame → Type 0
IsMessage f = IsValid f × All IsByte (body f) × (received f ≡ f)

IsMessage-prop : (f : Frame) → IsProp (IsMessage f)
IsMessage-prop f = hlevel (IsValid-prop f, All-prop (body f), Frame-set)

abbrev pub Message : Type 0
Message = (f : Frame) × IsMessage f

module _ (crc16 : List ℕ → ℕ) where
  -- A frame that `icmp_frame_unpack` stores from a buffer of just its size.
  abbrev pub Holds : List ℕ → Frame → Type 0
  Holds buf f =
      (frame_unpack crc16 (some zeroed) (some buf) (length buf) ≡ returns (pos 0) f)
      × (length buf ≡ frame_size f.len)

  abbrev pub IsEncoded : List ℕ → Type 0
  IsEncoded buf = All IsByte buf × ((f : Frame) × Holds buf f)

  abbrev pub Encoded : Type 0
  Encoded = (buf : List ℕ) × IsEncoded buf

  Holds-prop : (buf : List ℕ) (f : Frame) → IsProp (Holds buf f)
  Holds-prop buf f = hlevel Unpacked-set

  held_once : (buf : List ℕ) → IsProp ((f : Frame) × Holds buf f)
  held_once buf = λ x y. Σ_prop_path (Holds-prop buf) (grind (arith, x.1.0, y.1.0))

  IsEncoded-prop : (buf : List ℕ) → IsProp (IsEncoded buf)
  IsEncoded-prop buf = hlevel (All-prop buf, held_once buf)

  length-wire : (f : Frame) → IsValid f → length (wire crc16 f) ≡ frame_size f.len
  unfolding wire
  length-wire f v = omega (arith, length-append (body f) (checksum crc16 (body f)), length-body f v)

  wire-bytes : (f : Frame) → All IsByte (body f) → All IsByte (wire crc16 f)
  unfolding wire
  wire-bytes f h = All-append (body f) (checksum crc16 (body f)) h (omega arith, (omega arith, tt))

  accepts :
      (m : Message)
      → frame_unpack crc16 (some zeroed) (some (wire crc16 m.0)) (length (wire crc16 m.0))
        ≡ returns (pos 0) m.0
  accepts (f, m) =
      subst
        (λ b.
          frame_unpack crc16 (some zeroed) (some b) (length (wire crc16 f))
          ≡ returns (pos 0) (received f))
        (append-nil (wire crc16 f))
        (frame_unpack-wire crc16 f zeroed [] (length (wire crc16 f)) m.0
          (omega (arith, length-wire f m.0)))
      ∙ ap (returns (pos 0)) m.2

  abbrev encode : Message → Encoded
  encode (f, m) = (wire crc16 f, (wire-bytes f m.1, (f, (accepts (f, m), length-wire f m.0))))

  -- An accepted buffer is the wire layout of the frame it holds.
  Holds-wire :
      (buf : List ℕ) (f : Frame) → All IsByte buf → Holds buf f → IsValid f × (buf ≡ wire crc16 f)
  Holds-wire buf f h (e, l) = (s.0, sym (take_all (frame_size f.len) buf (omega arith)) ∙ s.1)
    where
      s : IsValid f × (take (frame_size f.len) buf ≡ wire crc16 f)
      s = frame_unpack_sound crc16 zeroed f buf (length buf) h e

  decode-IsMessage : (buf : List ℕ) (f : Frame) → All IsByte buf → Holds buf f → IsMessage f
  unfolding wire
  decode-IsMessage buf f h e = (w.0, All-front (body f) (checksum crc16 (body f)) bytes, again)
    where
      w : IsValid f × (buf ≡ wire crc16 f)
      w = Holds-wire buf f h e

      bytes : All IsByte (body f ++ checksum crc16 (body f))
      bytes = subst (All IsByte) w.1 h

      again : received f ≡ f
      again = grind (
        arith,
        e.0,
        frame_unpack-wire crc16 f zeroed [] (length buf) w.0 (omega (arith, e.1)),
        append-nil (wire crc16 f),
        w.1,
      )

  abbrev decode : Encoded → Message
  decode (buf, x) = (x.1.0, decode-IsMessage buf x.1.0 x.0 x.1.1)

  encode-decode : (x : Encoded) → encode (decode x) ≡ x
  encode-decode (buf, x) = Σ_prop_path IsEncoded-prop (sym (Holds-wire buf x.1.0 x.0 x.1.1).1)

  decode-encode : (m : Message) → decode (encode m) ≡ m
  decode-encode m = Σ_prop_path IsMessage-prop refl

  packs :
      (m : Message)
      → let n = frame_size m.0.len in
        frame_pack crc16 (some m.0) (some (replicate n 0)) n ≡ (pos n, some (wire crc16 m.0))
  packs (f, m) =
      let buf : List ℕ = replicate (frame_size f.len) 0 in
      let l = length-replicate {A = ℕ} (frame_size f.len) 0 in
      frame_pack-wire crc16 f buf (frame_size f.len) m.0 (omega arith) (omega (arith, l))
      ∙ ap (λ r. (pos (frame_size f.len), some r))
          (ap (λ r. wire crc16 f ++ r) (drop_all (frame_size f.len) buf (omega (arith, l)))
            ∙ append-nil (wire crc16 f))

-- The type of messages is equivalent to the type of the lists of bytes that `icmp_frame_unpack`, given
-- their length, accepts with just the size of the frame that they hold. For every message,
-- `icmp_frame_pack` writes its encoding into a zeroed buffer of its size, and `icmp_frame_unpack`
-- stores the message from that encoding.
pub messages_encoded :
    (crc16 : List ℕ → ℕ)
    → (e : Message ≃ Encoded crc16) × ((m : Message)
        → let n = frame_size m.0.len in
          frame_pack crc16 (some m.0) (some (replicate n 0)) n ≡ (pos n, some (e.0 m).0))
      × ((m : Message)
          → frame_unpack crc16 (some zeroed) (some (e.0 m).0) (length (e.0 m).0)
            ≡ returns (pos 0) m.0)
messages_encoded crc16 = (iso_to_equiv i, packs crc16, accepts crc16)
  where
    i : Iso Message (Encoded crc16)
    i = record {
      fun = encode crc16;
      inv = decode crc16;
      rinv = encode-decode crc16;
      linv = decode-encode crc16;
    }
