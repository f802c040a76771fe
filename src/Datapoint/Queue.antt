-- ===== src/Datapoint/Queue.antt =====
-- The queue of datapoints and the functions that submit to it: cores/control/src/datapoint/
-- datapoint_queue.c and the first part of datapoint_helpers.c. All submit with K_NO_WAIT.
use native.Mathlib.Decide.{dec_lt}
use sense_firmware.Prelude.{
  ℕ, ◌-◌, ◌<◌, ◌≡◌, ◌∙◌, ap, sym, List, [], ◌∷◌, ◌++◌, append-nil, append_assoc, arith, zero, suc,
  if◌then◌else◌, length, length-append, length-take, take, take-nil, ℤ, pos, is_ok, Option,
}
use sense_firmware.Kernel.{MsgQueue}
use sense_firmware.Datapoint.{Datapoint, float_datapoint, int_datapoint}

-- `DATAPOINT_QUEUE_MAX_ITEMS`
abbrev pub datapoint_queue_max_items : ℕ
datapoint_queue_max_items = 10

-- A queue to which some datapoints are offered one after the other: it takes as many of them as have
-- room, and the others are lost.
abbrev pub offer : List Datapoint → List Datapoint → List Datapoint
offer waiting new = waiting ++ take (datapoint_queue_max_items - length waiting) new

take-append_more :
    (k : ℕ) (xs ys : List Datapoint) → take k (xs ++ ys) ≡ take k xs ++ take (k - length xs) ys
take-append_more k [] ys =
    ap (λ j. take j ys) {x = k} {y = k - 0} (omega arith)
    ∙ ap (λ l. l ++ take (k - 0) ys) (sym (take-nil k))
take-append_more zero (x ∷ xs) ys =
    ap (λ j. take j ys) {x = 0} {y = 0 - length (x ∷ xs)} (omega arith)
take-append_more (suc k) (x ∷ xs) ys =
    ap (λ l. x ∷ l) (take-append_more k xs ys)
    ∙ ap (λ j. x ∷ (take k xs ++ take j ys)) {x = k - length xs} {y = suc k - suc (length xs)}
        (omega arith)

take_one : (k : ℕ) (dp : Datapoint) → 0 < k → take k (dp ∷ []) ≡ dp ∷ []
take_one zero dp h = absurd (omega arith)
take_one (suc k) dp h = ap (λ l. dp ∷ l) (take-nil k)

-- Offering twice is offering both lists at once.
pub offer-offer :
    (waiting first second : List Datapoint)
    → offer (offer waiting first) second ≡ offer waiting (first ++ second)
offer-offer waiting first second =
    ap (λ k. offer waiting first ++ take k second) left
    ∙ append_assoc waiting (take room first) (take (room - length first) second)
    ∙ ap (λ l. waiting ++ l) (sym (take-append_more room first second))
  where
    room : ℕ
    room = datapoint_queue_max_items - length waiting

    left : datapoint_queue_max_items - length (offer waiting first) ≡ room - length first
    left = omega (arith, length-append waiting (take room first), length-take room first)

pub offer_none : (waiting : List Datapoint) → offer waiting [] ≡ waiting
offer_none waiting =
    ap (λ l. waiting ++ l) (take-nil (datapoint_queue_max_items - length waiting))
    ∙ append-nil waiting

-- What a sensor channel contributes: its value if the driver has one.
abbrev pub reading : ℤ × ℕ → List ℕ → List ℕ → List Datapoint
reading (err, val) label unit = if is_ok err then float_datapoint val label unit ∷ [] else []

module _ (queue : MsgQueue Datapoint datapoint_queue_max_items) where
  -- `datapoint_enqueue`
  unfoldable pub datapoint_enqueue : Datapoint → queue.Queue → ℤ × queue.Queue
  datapoint_enqueue dp q = queue.put q dp

  -- `datapoint_dequeue`, when its time is over
  abbrev pub datapoint_dequeue : queue.Queue → Option (Datapoint × queue.Queue)
  datapoint_dequeue q = queue.get q

  -- `submit_float_datapoint`
  unfoldable pub submit_float_datapoint : ℕ → List ℕ → List ℕ → queue.Queue → ℤ × queue.Queue
  submit_float_datapoint value label unit q = datapoint_enqueue (float_datapoint value label unit) q

  -- `submit_int_datapoint`
  unfoldable pub submit_int_datapoint : ℤ → List ℕ → List ℕ → queue.Queue → ℤ × queue.Queue
  submit_int_datapoint value label unit q = datapoint_enqueue (int_datapoint value label unit) q

  -- `get_and_submit_sensor_datapoint` by what `sensor_channel_get` returns and, as a double, stores.
  unfoldable pub get_and_submit_sensor_datapoint :
      ℤ × ℕ → List ℕ → List ℕ → queue.Queue → ℤ × queue.Queue
  get_and_submit_sensor_datapoint (err, val) label unit q =
      if is_ok err then datapoint_enqueue (float_datapoint val label unit) q else (pos 1, q)

  pub items-enqueue :
      (dp : Datapoint) (q : queue.Queue)
      → queue.items (datapoint_enqueue dp q).1 ≡ offer (queue.items q) (dp ∷ [])
  unfolding datapoint_enqueue
  items-enqueue dp q = elim (dec_lt (length (queue.items q)) datapoint_queue_max_items) [
    | yes p ↦
        (queue.put_room q dp p).1
        ∙ ap (λ l. queue.items q ++ l)
            (sym (take_one (datapoint_queue_max_items - length (queue.items q)) dp (omega arith)))
    | no p ↦
        ap (λ r. queue.items r.1) (queue.put_full q dp (omega arith))
        ∙ sym (append-nil (queue.items q))
        ∙ ap (λ k. queue.items q ++ take k (dp ∷ [])) {x = 0}
            {y = datapoint_queue_max_items - length (queue.items q)} (omega arith)
  ]

  pub items-get_and_submit :
      (got : ℤ × ℕ) (label unit : List ℕ) (q : queue.Queue)
      → queue.items (get_and_submit_sensor_datapoint got label unit q).1
        ≡ offer (queue.items q) (reading got label unit)
  unfolding get_and_submit_sensor_datapoint
  items-get_and_submit (pos zero, val) label unit q =
      items-enqueue (float_datapoint val label unit) q
  items-get_and_submit (_, val) label unit q = sym (offer_none (queue.items q))

  pub items-submit_int :
      (value : ℤ) (label unit : List ℕ) (q : queue.Queue)
      → queue.items (submit_int_datapoint value label unit q).1
        ≡ offer (queue.items q) (int_datapoint value label unit ∷ [])
  unfolding submit_int_datapoint
  items-submit_int value label unit q = items-enqueue (int_datapoint value label unit) q

  pub items-submit_float :
      (value : ℕ) (label unit : List ℕ) (q : queue.Queue)
      → queue.items (submit_float_datapoint value label unit q).1
        ≡ offer (queue.items q) (float_datapoint value label unit ∷ [])
  unfolding submit_float_datapoint
  items-submit_float value label unit q = items-enqueue (float_datapoint value label unit) q
