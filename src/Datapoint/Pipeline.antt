-- ===== src/Datapoint/Pipeline.antt =====
-- The control core's path from a reading to log.csv: what submits datapoints, the datapoint thread and
-- the work item of the SD card, in any order.
pub mod Logged
mod Tests
use sense_firmware.Prelude.{ℕ, List, [], ◌∷◌, ◌++◌, Option, none, some, ℤ}
use sense_firmware.Kernel.{MsgQueue, MemSlab}
use sense_firmware.Coap.{CoapLib}
use sense_firmware.Cellular.{Packet, State, queue_max_items}
use sense_firmware.SdCard.Worker.{Run, work_step}
use sense_firmware.Datapoint.{Datapoint}
use sense_firmware.Datapoint.Queue.{datapoint_queue_max_items, datapoint_enqueue, offer}
use sense_firmware.Datapoint.Row.{row}
use sense_firmware.Datapoint.Thread.{Round, stamped, thread_round}

-- Some sensor or the GNSS receiver submits a datapoint, the datapoint thread runs a round, or the work
-- item of the writer goes on.
pub data Event : Type 0 where
  submits : Datapoint → Event
  rounds : Round → Event
  works : ℤ → ℤ → ℤ → Event

module _ (print_int : ℤ → List ℕ) (print_double : ℕ → List ℕ) (lib : CoapLib)
    (slab : MemSlab Packet queue_max_items) (uplink : MsgQueue Packet queue_max_items)
    (queue : MsgQueue Datapoint datapoint_queue_max_items) where
  pub record Core : Type 0 where
    pub datapoints : queue.Queue
    pub uplink_state : State slab uplink
    pub sd_card : Run

  unfoldable pub step : Event → Core → Option Core
  step (submits dp) c = some (record c { datapoints = (datapoint_enqueue queue dp c.datapoints).1 })
  step (rounds r) c =
      elim (thread_round print_int print_double lib slab uplink queue r
        (c.datapoints, c.uplink_state, c.sd_card.writer)) [
          | none ↦ none
          | some (q, u, w) ↦ some (record {
            datapoints = q;
            uplink_state = u;
            sd_card = record c.sd_card { writer = w };
          })
        ]
  step (works mount open_file write) c =
      some (record c { sd_card = work_step mount open_file write c.sd_card })

  unfoldable pub run : List Event → Core → Option Core
  run [] c = some c
  run (e ∷ events) c = elim (step e c) [ none ↦ none | some d ↦ run events d ]

-- What the path promises: a queue of at most ten datapoints, and a log that the rows of those that are
-- taken from it are added to.
module _ (print_int : ℤ → List ℕ) (print_double : ℕ → List ℕ) where
  abbrev pub replay_event : Event → List Datapoint × List ℕ → List Datapoint × List ℕ
  replay_event (submits dp) (waiting, log) = (offer waiting (dp ∷ []), log)
  replay_event (rounds r) ([], log) = ([], log)
  replay_event (rounds r) (dp ∷ waiting, log) =
      (waiting, log ++ row print_int print_double (stamped r.now dp))
  replay_event (works mount open_file write) s = s

  abbrev pub replay : List Event → List Datapoint × List ℕ → List Datapoint × List ℕ
  replay [] s = s
  replay (e ∷ events) s = replay events (replay_event e s)
