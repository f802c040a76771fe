-- ===== src/Icmp/Fixtures.antt =====
-- Test data of the server: the reference slab and queue, and a server with no frame anywhere.
use sense_firmware.Prelude.{
  ℕ, zero, suc, ◌≡◌, inl, inr, refl, true, false, [], none, some, arith, length, replicate,
  get_elem?, ltb, Bool-cases,
}
use sense_firmware.Kernel.{MsgQueue, MemSlab}
use sense_firmware.Kernel.Reference.{list_queue, counting_slab}
use sense_firmware.Icmp.Frame.{Frame, zeroed}
use sense_firmware.Icmp.Inflight.{Entry, Inflight, no_inflight, cleared}
use sense_firmware.Icmp.Inflight.View.{IsValid}
use sense_firmware.Icmp.Server.{State}
use sense_firmware.Icmp.Server.Send.{Inv}

abbrev pub slab : MemSlab Frame 8
slab = counting_slab Frame zeroed 8

abbrev pub queue : MsgQueue Frame 8
queue = list_queue Frame 8

pub storage : (x : ℕ) → length (slab.alloc x).1.payload ≡ 64
storage x = elim (Bool-cases (ltb x 8)) [ inl e ↦ rw e refl | inr e ↦ rw e refl ]

-- The inflight state of a new server, and one with a command in flight under id 0, sent at 500.
pub cleared_callback :
    (n id : ℕ) (e : Entry) → get_elem? (replicate n cleared) id ≡ some e → e.callback ≡ none
cleared_callback zero id e p = cc
cleared_callback (suc n) zero e p = ground arith
cleared_callback (suc n) (suc id) e p = cleared_callback n id e p

pub no_inflight-IsValid : IsValid no_inflight
no_inflight-IsValid = record {
  width = omega arith;
  size = refl;
  idle = λ id e h b p. cleared_callback 8 id e p;
}

-- A server with no frame anywhere.
abbrev pub idle : Inflight → State slab queue
idle st = record {
  inflight = st;
  targets = replicate 5 none;
  frames = 0;
  tx = [];
  rx = [];
  work_sem = true;
  work_ctx = record { frame = none; icmp_cb = none };
  submitted = false;
}

pub idle-Inv : (st : Inflight) → IsValid st → Inv slab queue (idle st)
idle-Inv st v = record {
  inflight = v;
  blocks = refl;
  limit = omega arith;
  sem = refl;
  work = λ h. cc;
  targets = refl;
}
