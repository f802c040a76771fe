-- ===== src/Sensors/Adc.antt =====
-- The analogue inputs: cores/control/src/sensors/adc/adcs.c. `samples` is
-- CONFIG_SENSE_CORE_SENSOR_ADCS_SEQ_SAMPLES.
use sense_firmware.Prelude.{
  ℕ, zero, suc, ◌+◌, ◌^◌, ◌==◌, List, [], ◌∷◌, Bool, true, false, Option, none, some, if◌then◌else◌,
  bit_and, get_elem?, ℤ, is_negative, codes,
}
use sense_firmware.Kernel.{MsgQueue}
use sense_firmware.Datapoint.{Datapoint}
use sense_firmware.Datapoint.Queue.{datapoint_queue_max_items, submit_int_datapoint}
use sense_firmware.Sensors.{Polled, again}

-- What the calls of the ADC driver return for the channel that the multiplexer selects: the set-up,
-- the reference voltage, the read, and the samples that it leaves in the buffer; last what a sample is
-- in millivolts, by the reference voltage.
pub record Adc : Type 0 where
  pub channel_setup : ℕ → ℤ
  pub ref_internal : ℕ → ℕ
  pub read : ℕ → ℤ
  pub channel_reading : ℕ → ℕ → ℕ
  pub raw_to_millivolts : ℕ → ℕ → ℤ

-- `ADC_SE_CHANS`
abbrev pub adc_se_chans : ℕ
adc_se_chans = 4

-- `adc_channel_bitmask`
abbrev pub adc_channel_bitmask : ℕ
adc_channel_bitmask = 1

-- `adc_label_table`
abbrev pub adc_label_table : List (List (List ℕ))
adc_label_table =
    (codes "adc0_0" ∷ codes "adc0_1" ∷ codes "adc0_2" ∷ codes "adc0_3" ∷ [])
    ∷ (codes "adc1_0" ∷ codes "adc1_1" ∷ codes "adc1_2" ∷ codes "adc1_3" ∷ [])
    ∷ []

abbrev row : Option (List (List ℕ)) → ℕ → Option (List ℕ)
row none chan = none
row (some labels) chan = get_elem? labels chan

abbrev text : Option (List ℕ) → List ℕ
text none = []
text (some label) = label

-- `adc_label_table[adc_num][chan]`; no index out of range is used.
abbrev pub adc_label : ℕ → ℕ → List ℕ
adc_label adc_num chan = text (row (get_elem? adc_label_table adc_num) chan)

module _ (queue : MsgQueue Datapoint datapoint_queue_max_items) where
  -- The inner loop of `poll_ads1015` with `left` samples to come
  unfoldable pub submit_samples : (ℕ → ℤ) → List ℕ → ℕ → ℕ → queue.Queue → queue.Queue
  submit_samples val_mv label zero idx q = q
  submit_samples val_mv label (suc left) idx q =
      submit_samples val_mv label left (idx + 1)
        (submit_int_datapoint queue (val_mv idx) label (codes "mV") q).1

module _ (queue : MsgQueue Datapoint datapoint_queue_max_items) (samples : ℕ) where
  -- The body of the outer loop for a channel in the mask: whether the loop goes on, and the queue
  unfoldable pub poll_channel : Adc → ℕ → ℕ → queue.Queue → Bool × queue.Queue
  unfolding submit_samples
  poll_channel adc adc_num chan q =
      if is_negative (adc.channel_setup chan)
      then (false, q)
      else (if adc.ref_internal chan == 0
          then (false, q)
          else (if is_negative (adc.read chan) then (false, q) else (
            true,
            submit_samples queue
                (λ idx.
                  adc.raw_to_millivolts (adc.ref_internal chan) (adc.channel_reading chan idx))
                (adc_label adc_num chan) samples 0 q,
          )))

  -- The outer loop with `left` channels to come
  unfoldable pub poll_from : Adc → ℕ → ℕ → ℕ → queue.Queue → queue.Queue
  unfolding poll_channel
  poll_from adc adc_num zero chan q = q
  poll_from adc adc_num (suc left) chan q =
      let (more, q') = poll_channel adc adc_num chan q in
      let skipped = poll_from adc adc_num left (chan + 1) q in
      let rest = poll_from adc adc_num left (chan + 1) q' in
      if bit_and adc_channel_bitmask (2 ^ chan) == 0 then skipped else (if more then rest else q')

  -- `poll_ads1015`
  unfoldable pub poll_ads1015 : Adc → ℕ → queue.Queue → queue.Queue
  poll_ads1015 adc adc_num q = poll_from adc adc_num adc_se_chans 0 q

  -- `adcs_poll_work_handler`
  unfoldable pub adcs_poll_work_handler : Adc → Adc → Polled queue → Polled queue
  adcs_poll_work_handler adc0 adc1 (w, q) =
      (again queue w, poll_ads1015 adc1 1 (poll_ads1015 adc0 0 q))
