-- ===== src/Cellular/Tests.antt =====
-- Tests of the cellular module: an uplink over the reference queue and slab.
use sense_firmware.Prelude.{
  ℕ, ◌≡◌, inl, inr, refl, true, false, List, [], ◌∷◌, ◌++◌, ◌+◌, Bool, none, some, arith, length,
  replicate, ltb, Bool-cases, pos, negsuc, memcpy,
}
use sense_firmware.Kernel.{MsgQueue, MemSlab}
use sense_firmware.Kernel.Reference.{list_queue, counting_slab}
use sense_firmware.Cellular.{
  uninitialised, remote_server_error, loaded, is_active, cellular_init, thread_start, Packet, State,
  send_packet,
}
use sense_firmware.Cellular.Traffic.{
  Action, calls, resumes, takes, frees, Traffic, send_begin, send_end, uplink_take, uplink_free,
  act, run,
}
use sense_firmware.Cellular.Traffic.Delivered.{Consistent, sends, queues, gather, AllKept}
use sense_firmware.Cellular.Traffic.Accepted.{starts, tally, AllAnswer, in_hand}
use sense_firmware.Cellular.Traffic.Exact.{sent_once}
use sense_firmware.Cellular.Life.{start_reports}
use sense_firmware.Cellular.Uplink.{Inv, waiting, Outcome, send_packet-Outcome}

abbrev blank : Packet
blank = record { buffer = replicate 256 0; len = 0 }

abbrev pub slab : MemSlab Packet 8
slab = counting_slab Packet blank 8

abbrev pub queue : MsgQueue Packet 8
queue = list_queue Packet 8

pub storage : (x : ℕ) → length (slab.alloc x).1.buffer ≡ 256
storage x = elim (Bool-cases (ltb x 8)) [ inl e ↦ rw e refl | inr e ↦ rw e refl ]

abbrev pub empty : State slab queue
empty = record { packets = 0; uplink = [] }

pub empty-Inv : Inv slab queue empty
empty-Inv = record { blocks = refl; limit = omega arith }

abbrev hello : List ℕ
hello = 104 ∷ 105 ∷ []

send_packet-Outcome_example :
    Outcome slab queue (some hello) 2 empty (send_packet slab queue (some hello) 2 empty)
send_packet-Outcome_example = send_packet-Outcome slab queue storage (some hello) 2 empty empty-Inv

abbrev idle : Traffic slab queue
idle = record { state = empty; callers = []; thread = none }

idle-Consistent : Consistent slab queue idle
idle-Consistent = record { blocks = refl; limit = omega arith }

-- Two calls, of which the later one queues its packet first, while the thread sends.
abbrev actions : List Action
actions =
    calls (some (1 ∷ 2 ∷ [])) 2
    ∷ calls (some hello) 2
    ∷ resumes 0
    ∷ takes
    ∷ resumes 0
    ∷ frees
    ∷ takes
    ∷ calls none 4
    ∷ []

-- What `send` is given, in this order.
actions_send : gather sends (run slab queue actions idle).0 ≡ hello ∷ (1 ∷ 2 ∷ []) ∷ []
unfolding run act send_begin send_end uplink_take uplink_free memcpy
actions_send = refl

abbrev is_short : List ℕ → Bool
is_short bytes = ltb (length bytes) 3

sent_once_example :
    let (events, t') = run slab queue actions idle in
    Consistent slab queue t'
    × AllAnswer actions events
    × AllKept events
    × (tally is_short (gather starts events) + tally is_short (in_hand idle.callers)
        ≡ tally is_short (gather queues events) + tally is_short (in_hand t'.callers))
    × (gather sends events ++ waiting slab queue t'.state
        ≡ waiting slab queue empty ++ gather queues events)
sent_once_example = sent_once slab queue storage is_short actions idle idle-Consistent

loaded_idle : is_active uninitialised ≡ false
unfolding is_active
loaded_idle = refl

start_reports_example :
    let m' = thread_start (pos 0) (negsuc 1) (pos 0) (cellular_init (some 5) true loaded).1 in
    (m'.state ≡ remote_server_error)
    × (m'.recv_callback ≡ some 5)
    × (is_active m'.state ≡ m'.thread)
start_reports_example = start_reports 5 loaded (pos 0) (negsuc 1) (pos 0) loaded_idle
