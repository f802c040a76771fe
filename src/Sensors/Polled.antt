-- ===== src/Sensors/Polled.antt =====
-- What one poll of each sensor puts into the queue of datapoints.
use sense_firmware.Prelude.{
  ℕ, zero, suc, ◌+◌, ◌==◌, ◌≡◌, ◌∙◌, ap, sym, List, [], ◌∷◌, ◌++◌, ◌||◌, Bool-cases, inl, inr,
  if◌then◌else◌, ℤ, is_ok, is_negative, codes, arith,
}
use sense_firmware.Kernel.{MsgQueue}
use sense_firmware.Datapoint.{Datapoint, int_datapoint}
use sense_firmware.Datapoint.Queue.{
  datapoint_queue_max_items, submit_int_datapoint, get_and_submit_sensor_datapoint, offer,
  offer_none, offer-offer, reading, items-get_and_submit, items-submit_int,
}
use sense_firmware.Sensors.{
  Channel, magn_x, magn_y, magn_z, accel_x, accel_y, accel_z, gyro_x, gyro_y, gyro_z, ambient_temp,
  humidity, Polled, lis3mdl_poll_work_handler, sht4x_poll_work_handler, poll_accel, poll_gyro,
  lsm6dso_poll_work_handler,
}
use sense_firmware.Sensors.Adc.{
  Adc, adc_label, submit_samples, poll_channel, poll_from, poll_ads1015, adcs_poll_work_handler,
}

-- The datapoints of a group of channels: one for each that the driver has a value of, in order.
abbrev pub readings : (Channel → ℤ × ℕ) → List (Channel × List ℕ × List ℕ) → List Datapoint
readings channel_get [] = []
readings channel_get ((chan, label, unit) ∷ rest) =
    reading (channel_get chan) label unit ++ readings channel_get rest

-- The same, if fetching the group succeeds.
abbrev pub fetched : ℤ → List Datapoint → List Datapoint
fetched fetch dps = if is_ok fetch then dps else []

abbrev pub magnetometer : List (Channel × List ℕ × List ℕ)
magnetometer =
    (magn_x, codes "lis3mdl_mag_x", codes "G")
    ∷ (magn_y, codes "lis3mdl_mag_y", codes "G")
    ∷ (magn_z, codes "lis3mdl_mag_z", codes "G")
    ∷ []

abbrev pub accelerometer : List (Channel × List ℕ × List ℕ)
accelerometer =
    (accel_x, codes "lsm6dso_accel_x", codes "m/s^2")
    ∷ (accel_y, codes "lsm6dso_accel_y", codes "m/s^2")
    ∷ (accel_z, codes "lsm6dso_accel_z", codes "m/s^2")
    ∷ []

abbrev pub gyroscope : List (Channel × List ℕ × List ℕ)
gyroscope =
    (gyro_x, codes "lsm6dso_gyro_x", codes "rad/s")
    ∷ (gyro_y, codes "lsm6dso_gyro_y", codes "rad/s")
    ∷ (gyro_z, codes "lsm6dso_gyro_z", codes "rad/s")
    ∷ []

abbrev pub climate : List (Channel × List ℕ × List ℕ)
climate =
    (ambient_temp, codes "sht4x_temp", codes "deg C")
    ∷ (humidity, codes "sht4x_hum", codes "%")
    ∷ []

-- The samples of one ADC: those of channel 0, if nothing fails.
abbrev pub samples_from : (ℕ → ℤ) → List ℕ → ℕ → ℕ → List Datapoint
samples_from val_mv label zero idx = []
samples_from val_mv label (suc left) idx =
    int_datapoint (val_mv idx) label (codes "mV") ∷ samples_from val_mv label left (idx + 1)

abbrev pub sampled : Adc → ℕ → ℕ → List Datapoint
sampled adc adc_num samples =
    if is_negative (adc.channel_setup 0) || (adc.ref_internal 0 == 0) || is_negative (adc.read 0)
    then []
    else samples_from
        (λ idx. adc.raw_to_millivolts (adc.ref_internal 0) (adc.channel_reading 0 idx))
        (adc_label adc_num 0) samples 0

module _ (queue : MsgQueue Datapoint datapoint_queue_max_items) where
  -- The calls of `get_and_submit_sensor_datapoint` for a group of channels
  abbrev submit_all :
      (Channel → ℤ × ℕ) → List (Channel × List ℕ × List ℕ) → queue.Queue → queue.Queue
  submit_all channel_get [] q = q
  submit_all channel_get ((chan, label, unit) ∷ rest) q =
      submit_all channel_get rest
        (get_and_submit_sensor_datapoint queue (channel_get chan) label unit q).1

  items-submit_all :
      (channel_get : Channel → ℤ × ℕ) (chans : List (Channel × List ℕ × List ℕ)) (q : queue.Queue)
      → queue.items (submit_all channel_get chans q)
        ≡ offer (queue.items q) (readings channel_get chans)
  items-submit_all channel_get [] q = sym (offer_none (queue.items q))
  items-submit_all channel_get ((chan, label, unit) ∷ rest) q =
      items-submit_all channel_get rest
        (get_and_submit_sensor_datapoint queue (channel_get chan) label unit q).1
      ∙ ap (λ l. offer l (readings channel_get rest))
          (items-get_and_submit queue (channel_get chan) label unit q)
      ∙ offer-offer (queue.items q) (reading (channel_get chan) label unit)
          (readings channel_get rest)

  -- A group whose fetch may have failed
  items-fetched :
      (fetch : ℤ) (channel_get : Channel → ℤ × ℕ) (chans : List (Channel × List ℕ × List ℕ))
      (q : queue.Queue)
      → queue.items (if is_ok fetch then submit_all channel_get chans q else q)
        ≡ offer (queue.items q) (fetched fetch (readings channel_get chans))
  items-fetched fetch channel_get chans q = elim (Bool-cases (is_ok fetch)) [
    | inl e ↦ rw e (items-submit_all channel_get chans q)
    | inr e ↦ rw e (sym (offer_none (queue.items q)))
  ]

  -- One poll of each sensor offers to the queue exactly the datapoints of the channels that could be
  -- read, in order: the magnetometer's and the climate sensor's if the fetch succeeds, and the
  -- accelerometer's and the gyroscope's each if the fetch of that group does. What has no room in the
  -- queue of ten is lost.
  pub poll_work_handler-offer :
      (fetch other : ℤ) (channel_get : Channel → ℤ × ℕ) (p : Polled queue)
      → (queue.items (lis3mdl_poll_work_handler queue fetch channel_get p).1
          ≡ offer (queue.items p.1) (fetched fetch (readings channel_get magnetometer)))
        × (queue.items (sht4x_poll_work_handler queue fetch channel_get p).1
            ≡ offer (queue.items p.1) (fetched fetch (readings channel_get climate)))
        × (queue.items (lsm6dso_poll_work_handler queue fetch other channel_get p).1
            ≡ offer (queue.items p.1) (
                fetched fetch (readings channel_get accelerometer)
                ++ fetched other (readings channel_get gyroscope)))
  unfolding lis3mdl_poll_work_handler sht4x_poll_work_handler lsm6dso_poll_work_handler poll_accel
      poll_gyro
  poll_work_handler-offer fetch other channel_get (w, q) = (
    items-fetched fetch channel_get magnetometer q,
    items-fetched fetch channel_get climate q,
    items-fetched other channel_get gyroscope _
        ∙ ap (λ l. offer l (fetched other (readings channel_get gyroscope)))
            (items-fetched fetch channel_get accelerometer q)
        ∙ offer-offer (queue.items q) (fetched fetch (readings channel_get accelerometer))
            (fetched other (readings channel_get gyroscope)),
  )

  pub items-submit_samples :
      (val_mv : ℕ → ℤ) (label : List ℕ) (left idx : ℕ) (q : queue.Queue)
      → queue.items (submit_samples queue val_mv label left idx q)
        ≡ offer (queue.items q) (samples_from val_mv label left idx)
  unfolding submit_samples
  items-submit_samples val_mv label zero idx q = sym (offer_none (queue.items q))
  items-submit_samples val_mv label (suc left) idx q =
      items-submit_samples val_mv label left (idx + 1)
        (submit_int_datapoint queue (val_mv idx) label (codes "mV") q).1
      ∙ ap (λ l. offer l (samples_from val_mv label left (idx + 1)))
          (items-submit_int queue (val_mv idx) label (codes "mV") q)
      ∙ offer-offer (queue.items q) (int_datapoint (val_mv idx) label (codes "mV") ∷ [])
          (samples_from val_mv label left (idx + 1))

module _ (queue : MsgQueue Datapoint datapoint_queue_max_items) (samples : ℕ) where
  -- Only channel 0 is in the mask: the other three rounds of the outer loop do nothing.
  poll_ads1015-channel :
      (adc : Adc) (adc_num : ℕ) (q : queue.Queue)
      → poll_ads1015 queue samples adc adc_num q ≡ (poll_channel queue samples adc adc_num 0 q).1
  unfolding poll_ads1015 poll_from
  poll_ads1015-channel adc adc_num q = ground arith

  items-poll_ads1015 :
      (adc : Adc) (adc_num : ℕ) (q : queue.Queue)
      → queue.items (poll_ads1015 queue samples adc adc_num q)
        ≡ offer (queue.items q) (sampled adc adc_num samples)
  unfolding poll_channel
  items-poll_ads1015 adc adc_num q =
      ap (λ r. queue.items r) (poll_ads1015-channel adc adc_num q)
      ∙ (elim (Bool-cases (is_negative (adc.channel_setup 0))) [
        | inl e ↦ rw e (sym (offer_none (queue.items q)))
        | inr e ↦ elim (Bool-cases (adc.ref_internal 0 == 0)) [
          | inl f ↦ rw (e, f) (sym (offer_none (queue.items q)))
          | inr f ↦ elim (Bool-cases (is_negative (adc.read 0))) [
            | inl g ↦ rw (e, f, g) (sym (offer_none (queue.items q)))
            | inr g ↦ rw (e, f, g) (items-submit_samples queue _ (adc_label adc_num 0) samples 0 q)
          ]
        ]
      ])

  -- One poll of the analogue inputs offers the samples of channel 0 of the first converter and then
  -- those of the second, each converted to millivolts and in the order that they were taken; a
  -- converter of which the set-up, the reference or the read fails adds none. No other channel is
  -- reported, though all have labels.
  pub adcs_poll_work_handler-offer :
      (adc0 adc1 : Adc) (p : Polled queue)
      → queue.items (adcs_poll_work_handler queue samples adc0 adc1 p).1
        ≡ offer (queue.items p.1) (sampled adc0 0 samples ++ sampled adc1 1 samples)
  unfolding adcs_poll_work_handler
  adcs_poll_work_handler-offer adc0 adc1 (w, q) =
      items-poll_ads1015 adc1 1 (poll_ads1015 queue samples adc0 0 q)
      ∙ ap (λ l. offer l (sampled adc1 1 samples)) (items-poll_ads1015 adc0 0 q)
      ∙ offer-offer (queue.items q) (sampled adc0 0 samples) (sampled adc1 1 samples)
