-- ===== src/Datapoint/Thread.antt =====
-- The datapoint thread: `datapoint_thread` in cores/control/src/datapoint/datapoint.c, with what it
-- drives. The clock is a parameter; a number of milliseconds is signed, and division drops the
-- fraction.
use sense_firmware.Prelude.{
  ℕ, zero, suc, ◌/◌, List, [], ◌∷◌, Option, none, some, if◌then◌else◌, ℤ, pos, negsuc,
}
use sense_firmware.Kernel.{MsgQueue, MemSlab}
use sense_firmware.Coap.{CoapLib}
use sense_firmware.Cellular.{CellularState, Packet, State, queue_max_items}
use sense_firmware.SdCard.{Writer, Card, buffer_size, strnlen, work_handler}
use sense_firmware.Datapoint.{Datapoint, dp_sink_sd_card, dp_sink_cellular}
use sense_firmware.Datapoint.Queue.{datapoint_queue_max_items, datapoint_dequeue}
use sense_firmware.Datapoint.Row.{row}

-- What a round of the loop finds: the clock's time, the state of the cellular module and what the
-- encoder makes of a datapoint.
pub record Round : Type 0 where
  pub now : Option ℤ
  pub cellular : CellularState
  pub encode : Datapoint → Option (List ℕ)

negative : ℕ → ℤ
negative zero = pos 0
negative (suc n) = negsuc n

-- The division of a signed number by 1000
unfoldable pub to_seconds : ℤ → ℤ
unfolding negative
to_seconds (pos n) = pos (n / 1000)
to_seconds (negsuc n) = negative (suc n / 1000)

-- The IMEI tail that the thread sets
abbrev pub imei_tail : ℕ
imei_tail = 267864

-- The datapoint with its time: a clock that fails leaves `t` as it is.
unfoldable pub stamped : Option ℤ → Datapoint → Datapoint
stamped now dp = record dp {
  i = imei_tail;
  t = to_seconds (elim now [ none ↦ dp.t | some ms ↦ ms ]);
}

-- The work item of the writer, if it waits: no file operation fails.
abbrev pub write_back : Writer × Card → Writer × Card
write_back (w, c) =
    if w.submitted
    then work_handler (pos 0) (pos 0) (pos (strnlen w.flush buffer_size)) w c
    else (w, c)

module _ (print_int : ℤ → List ℕ) (print_double : ℕ → List ℕ) (lib : CoapLib)
    (slab : MemSlab Packet queue_max_items) (uplink : MsgQueue Packet queue_max_items)
    (queue : MsgQueue Datapoint datapoint_queue_max_items) where
  -- What the thread works on: its queue, the uplink and the writer of the SD card
  abbrev pub Sinks : Type 0
  Sinks = queue.Queue × State slab uplink × Writer

  -- One round of the loop of `datapoint_thread`, with the writer's mutex free; no result stands for a
  -- fault of the writer.
  unfoldable pub thread_round : Round → Sinks → Option Sinks
  thread_round r (q, u, w) = elim (datapoint_dequeue queue q) [
    | none ↦ some (q, u, w)
    | some (dp, q') ↦
        let dp' = stamped r.now dp in
        let u' = dp_sink_cellular lib slab uplink r.cellular r.encode dp' u in
        elim (dp_sink_sd_card print_int print_double (pos 0) dp' w) [
          | none ↦ none
          | some (ret, w') ↦ some (q', u', w')
        ]
  ]

  -- Rounds, with the work item run after each
  unfoldable pub thread_rounds : List Round → Sinks → Card → Option (Sinks × Card)
  thread_rounds [] s c = some (s, c)
  thread_rounds (r ∷ later) s c = elim (thread_round r s) [
    | none ↦ none
    | some (q, u, w) ↦ let (w', c') = write_back (w, c) in thread_rounds later (q, u, w') c'
  ]

-- The rows of the datapoints that the rounds find, stamped.
abbrev pub rows : (ℤ → List ℕ) → (ℕ → List ℕ) → List Round → List Datapoint → List (List ℕ)
rows print_int print_double rounds [] = []
rows print_int print_double [] (dp ∷ dps) = []
rows print_int print_double (r ∷ later) (dp ∷ dps) =
    row print_int print_double (stamped r.now dp) ∷ rows print_int print_double later dps
