-- ===== src/Datapoint/Tests.antt =====
-- Tests of the datapoints, with a unary conversion of numbers.
use sense_firmware.Prelude.{
  false, ℕ, some, none, ◌<◌, ◌≤◌, ◌≡◌, refl, List, [], ◌∷◌, arith, length, replicate, ℤ, pos,
  negsuc,
}
use sense_firmware.Coap.Tests.{unlimited, offset_small}
use sense_firmware.Cellular.{State, running, backend_error}
use sense_firmware.Cellular.Tests.{slab, queue, storage, empty, empty-Inv}
use sense_firmware.SdCard.{Writer, fresh, strnlen}
use sense_firmware.Datapoint.{Datapoint, int_datapoint}
use sense_firmware.Kernel.{MsgQueue}
use sense_firmware.Kernel.Reference.{list_queue}
use sense_firmware.SdCard.{Card}
use sense_firmware.SdCard.Log.{Ready}
use sense_firmware.SdCard.Lines.{IsText, replicate-IsText}
use sense_firmware.Datapoint.Queue.{datapoint_queue_max_items}
use sense_firmware.Datapoint.Thread.{Round, stamped, to_seconds, rows, thread_rounds}
use sense_firmware.Datapoint.Drain.{Short}
use sense_firmware.Datapoint.Row.{row}
use sense_firmware.Datapoint.Posts.{Posts, thread_rounds-Posts}

abbrev pub tally : ℤ → List ℕ
tally (pos n) = replicate n 49
tally (negsuc n) = 45 ∷ replicate n 49

abbrev pub bits : ℕ → List ℕ
bits value = replicate 8 48

-- A reading of 3 in a unit of one letter, and one of 300.
abbrev pub reading : Datapoint
reading = int_datapoint (pos 3) (116 ∷ []) (67 ∷ [])

abbrev long_reading : Datapoint
long_reading = int_datapoint (pos 300) (116 ∷ []) (67 ∷ [])

row_short : length (row tally bits reading) < 256
unfolding strnlen
row_short = omega arith

row_long : 256 ≤ length (row tally bits long_reading)
unfolding strnlen
row_long = omega arith

abbrev pub waiting : MsgQueue Datapoint datapoint_queue_max_items
waiting = list_queue Datapoint datapoint_queue_max_items

abbrev pub round : Round
round = record { now = some (pos 5000); cellular = running; encode = λ dp. none }

pub tally-IsText : (n : ℤ) → IsText (tally n)
tally-IsText (pos n) = replicate-IsText n 49 (λ e. omega arith)
tally-IsText (negsuc n) = ((λ e. omega arith), replicate-IsText n 49 (λ e. omega arith))

pub bits-IsText : (value : ℕ) → IsText (bits value)
bits-IsText value = replicate-IsText 8 48 (λ e. omega arith)

abbrev pub card : Card
card = record { powered = false; file = [] }

fresh-Ready : Ready fresh
fresh-Ready = record {
  valid = record { active_size = refl; flush_size = refl; room = omega arith };
  text = tt;
  idle = refl;
}

-- The first round encodes its datapoint, in the second the module does not run.
abbrev encoding : Round
encoding = record round { encode = λ dp. some dp.s }

abbrev stopped : Round
stopped = record encoding { cellular = backend_error }

posts_Short : Short (rows tally bits (encoding ∷ stopped ∷ []) (reading ∷ reading ∷ []))
unfolding strnlen stamped to_seconds
posts_Short = (omega arith, (omega arith, tt))

thread_rounds-Posts_example :
    (q' : List Datapoint) × (u' : State slab queue) × (w' : Writer) × (c' : Card) × (thread_rounds
        tally bits unlimited slab queue waiting
        (encoding ∷ stopped ∷ [])
        (reading ∷ reading ∷ [], empty, fresh)
        card
      ≡ some ((q', u', w'), c'))
    × (q' ≡ [])
    × Posts unlimited slab queue storage offset_small
        (encoding ∷ stopped ∷ [])
        (reading ∷ reading ∷ [])
        empty
        u'
thread_rounds-Posts_example =
    thread_rounds-Posts unlimited slab queue storage offset_small tally bits tally-IsText
      bits-IsText waiting (encoding ∷ stopped ∷ []) (reading ∷ reading ∷ []) empty fresh card
      fresh-Ready posts_Short empty-Inv
