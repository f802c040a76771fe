-- ===== src/Cellular/Traffic.antt =====
-- `cellular_send_packet` and the uplink half of a round of the cellular thread in
-- lib/cellular/cellular.c, cut where other threads may run: any number of callers hold a packet
-- that they have yet to queue while the thread takes packets, sends them and frees them.
pub mod Delivered
pub mod Accepted
pub mod Exact
use sense_firmware.Prelude.{
  ℕ, zero, suc, Bool, ◌||◌, List, [], ◌∷◌, ◌++◌, Option, none, some, ltb, ◌==◌, if◌then◌else◌, take,
  ℤ, einval, is_ok,
}
use sense_firmware.Kernel.{MsgQueue, MemSlab}
use sense_firmware.Cellular.{Packet, State, queue_max_items, uplink_buffer_size, fill_packet}
use sense_firmware.Cellular.Uplink.{bytes_of}

pub data Action : Type 0 where
  -- A thread calls `cellular_send_packet` and gets to the end of `memcpy`.
  calls : Option (List ℕ) → ℕ → Action
  -- The caller at this position of those that hold a packet goes on.
  resumes : ℕ → Action
  -- The cellular thread takes a packet and hands it to `send`.
  takes : Action
  -- The cellular thread frees the packet that it sent.
  frees : Action

pub data UplinkEvent : Type 0 where
  nothing : UplinkEvent
  -- `cellular_send_packet` returned without a packet.
  refused : ℤ → UplinkEvent
  started : List ℕ → UplinkEvent
  -- `cellular_send_packet` queued a packet, or could not, and lost its block.
  queued : List ℕ → UplinkEvent
  lost : ℤ → UplinkEvent
  -- The bytes given to `send`
  sent : List ℕ → UplinkEvent

-- The caller at a position, and the others.
abbrev pub pick : ℕ → List Packet → Option (Packet × List Packet)
pick i [] = none
pick zero (p ∷ ps) = some (p, ps)
pick (suc i) (p ∷ ps) = elim (pick i ps) [ none ↦ none | some (q, rest) ↦ some (q, p ∷ rest) ]

module _ (slab : MemSlab Packet queue_max_items) (queue : MsgQueue Packet queue_max_items) where
  -- The packets that callers hold, and the one that the cellular thread holds.
  pub record Traffic : Type 0 where
    pub state : State slab queue
    pub callers : List Packet
    pub thread : Option Packet

  -- `cellular_send_packet` up to `memcpy`
  unfoldable pub send_begin :
      Option (List ℕ) → ℕ → State slab queue → ℤ × Option Packet × State slab queue
  send_begin none data_len s = (einval, none, s)
  send_begin (some bytes) data_len s =
      if (data_len == 0) || ltb uplink_buffer_size data_len
      then (einval, none, s)
      else (let (ret, block, packets) = slab.alloc s.packets in
          if is_ok ret
          then (
            ret,
            some (fill_packet slab queue block (take data_len bytes)),
            record s { packets = packets },
          )
          else (ret, none, record s { packets = packets }))

  -- `cellular_send_packet` from `cellular_uplink_enqueue`
  unfoldable pub send_end : Packet → State slab queue → ℤ × State slab queue
  send_end p s = let (ret, uplink) = queue.put s.uplink p in (ret, record s { uplink = uplink })

  -- `cellular_uplink_dequeue`, whose packet goes to `send`
  unfoldable pub uplink_take : State slab queue → Option Packet × State slab queue
  uplink_take s = elim (queue.get s.uplink) [
    | none ↦ (none, s)
    | some (p, uplink) ↦ (some p, record s { uplink = uplink })
  ]

  -- `cellular_packet_free`
  unfoldable pub uplink_free : State slab queue → State slab queue
  uplink_free s = record s { packets = slab.free s.packets }

  unfoldable pub act : Action → Traffic → UplinkEvent × Traffic
  act (calls bytes data_len) t =
      let (ret, held, s) = send_begin bytes data_len t.state in
      elim held [
        | none ↦ (refused ret, record t { state = s })
        | some p ↦ (started (bytes_of p), record t { state = s; callers = p ∷ t.callers })
      ]
  act (resumes i) t = elim (pick i t.callers) [
    | none ↦ (nothing, t)
    | some (p, rest) ↦
        let (ret, s) = send_end p t.state in
        (
          if is_ok ret then queued (bytes_of p) else lost ret,
          record t { state = s; callers = rest },
        )
  ]
  act takes t = elim t.thread [
    | some p ↦ (nothing, t)
    | none ↦
        let (taken, s) = uplink_take t.state in
        elim taken [
          | none ↦ (nothing, record t { state = s })
          | some p ↦ (sent (bytes_of p), record t { state = s; thread = some p })
        ]
  ]
  act frees t = elim t.thread [
    | none ↦ (nothing, t)
    | some p ↦ (nothing, record t { state = uplink_free t.state; thread = none })
  ]

  unfoldable pub run : List Action → Traffic → List UplinkEvent × Traffic
  run [] t = ([], t)
  run (a ∷ actions) t =
      let (event, t1) = act a t in let (events, t2) = run actions t1 in (event ∷ events, t2)
