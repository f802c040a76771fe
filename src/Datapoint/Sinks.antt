-- ===== src/Datapoint/Sinks.antt =====
-- The sinks of a datapoint: the SD card and the uplink.
use sense_firmware.Prelude.{
  refl, ◌^◌, leb, ◌%◌, ◌^◌, if◌then◌else◌, subst, append-nil, ℕ, ◌+◌, ◌≤◌, ◌<◌, ◌≡◌, ◌⊎◌, inl, inr,
  ap, ◌∙◌, List, [], ◌++◌, Option, none, some, arith, length, length-append, take, take-append,
  replicate, ge→ltb, ℤ, pos, enomem, to_size,
}
use sense_firmware.Kernel.{MsgQueue, MemSlab}
use sense_firmware.Coap.{CoapLib, method_post, type_non_con}
use sense_firmware.Coap.Request.{sent_payload}
use sense_firmware.Cellular.{
  CellularState, running, Packet, State, queue_max_items, uplink_buffer_size,
}
use sense_firmware.Cellular.Uplink.{Inv}
use sense_firmware.Requests.{Requested, send_built-Requested}
use sense_firmware.Datapoint.{data_path, send_datapoint, dp_sink_cellular}
use sense_firmware.SdCard.{swap_buffers, Writer, submit_line, buffer_size, copy_line, store_line}
use sense_firmware.SdCard.Faults.{submit_line_negative}
use sense_firmware.Datapoint.{submit_row, Datapoint, datapoint_to_csv, dp_sink_sd_card}
use sense_firmware.Datapoint.Row.{row, datapoint_to_csv-row}

-- What lies behind the line is not read.
copy_line_front :
    (line tail : List ℕ) (w : Writer)
    → copy_line (line ++ tail) (length line) w ≡ copy_line line (length line) w
unfolding copy_line
copy_line_front line tail w = rw (
  ge→ltb (length (line ++ tail)) (length line) (omega (arith, length-append line tail)),
  ge→ltb (length line) (length line) (omega arith),
  take-append line tail,
  take_all line,
)
  where
    take_all : (xs : List ℕ) → take (length xs) xs ≡ xs
    take_all xs = subst (λ l. take (length xs) l ≡ xs) (append-nil xs) (take-append xs [])

store_line_front :
    (line tail : List ℕ) (w : Writer)
    → store_line (line ++ tail) (length line) w ≡ store_line line (length line) w
unfolding store_line
store_line_front line tail w =
    copy_line_front line tail
      (if leb buffer_size ((w.active_pos + length line) % 2 ^ 32) then swap_buffers w else w)

submit_line_front :
    (line tail : List ℕ) (w : Writer)
    → submit_line (pos 0) (line ++ tail) (length line) w ≡ submit_line (pos 0) line (length line) w
unfolding submit_line
submit_line_front line tail w =
    ap
      (λ (o : Option Writer). elim o as (λ x. Option (ℤ × Writer)) [
        | none ↦ none
        | some w' ↦ some (pos 0, w')
      ])
      (store_line_front line tail w)

module _ (print_int : ℤ → List ℕ) (print_double : ℕ → List ℕ) where
  submit_row_eq :
      (w : Writer) (out : ℤ × Option (List ℕ)) (ret : ℤ) (line : List ℕ)
      → out.0 ≡ ret
      → out.1 ≡ some line
      → submit_row print_int print_double (pos 0) w out ≡ submit_line (pos 0) line (to_size ret) w
  submit_row_eq w (r, none) ret line e f = cc
  submit_row_eq w (r, some l) ret line e f =
      ap (λ x. submit_line (pos 0) l (to_size x) w) e
      ∙ ap (λ x. submit_line (pos 0) x (to_size ret) w) (cc f)

  -- A datapoint whose row is shorter than the line buffer is that row for the writer.
  pub dp_sink_sd_card-submit_line :
      (dp : Datapoint) (w : Writer)
      → length (row print_int print_double dp) < 256
      → dp_sink_sd_card print_int print_double (pos 0) dp w
        ≡ submit_line
            (pos 0)
            (row print_int print_double dp)
            (length (row print_int print_double dp))
            w
  unfolding dp_sink_sd_card
  dp_sink_sd_card-submit_line dp w h =
      elim (datapoint_to_csv-row print_int print_double dp (replicate 256 0) (omega arith)) [
        | inr (q, _, _, _) ↦ absurd (omega arith)
        | inl (q, e, tail, b) ↦
            submit_row_eq w
              (datapoint_to_csv print_int print_double (some dp) (some (replicate 256 0)) 256) _ _ e
              b
            ∙ ap (λ n. submit_line (pos 0) (row print_int print_double dp ++ tail) n w)
                {x = length (row print_int print_double dp) % 2 ^ 32}
                {y = length (row print_int print_double dp)} (omega arith)
            ∙ submit_line_front (row print_int print_double dp) tail w
      ]

  -- With the mutex taken, a datapoint whose row does not fit the line buffer makes the SD card
  -- writer write outside its buffer: the sink passes the -ENOMEM of `datapoint_to_csv` on as the
  -- length of the line.
  pub dp_sink_sd_card_overruns :
      (dp : Datapoint) (w : Writer)
      → 256 ≤ length (row print_int print_double dp)
      → dp_sink_sd_card print_int print_double (pos 0) dp w ≡ none
  unfolding dp_sink_sd_card
  dp_sink_sd_card_overruns dp w h =
      elim (datapoint_to_csv-row print_int print_double dp (replicate 256 0) (omega arith)) [
        | inl (q, _, _, _) ↦ absurd (omega arith)
        | inr (q, e, rest, b) ↦
            submit_row_eq w
              (datapoint_to_csv print_int print_double (some dp) (some (replicate 256 0)) 256)
              enomem rest e b
            ∙ submit_line_negative rest 11 w (omega arith)
      ]

module _ (lib : CoapLib) (slab : MemSlab Packet queue_max_items)
    (queue : MsgQueue Packet queue_max_items)
    (storage : (x : slab.Slab) → length (slab.alloc x).1.buffer ≡ uplink_buffer_size)
    (fits : (p : lib.Packet) → lib.offset p < 2 ^ 31) where
  -- What the uplink sink may do: nothing, or with a running module and an encoded datapoint, one POST.
  abbrev pub Posted : CellularState → Option (List ℕ) → State slab queue → State slab queue → Type 0
  Posted state encoded s s' =
      (s' ≡ s)
      ⊎ ((payload : List ℕ) × (state ≡ running)
          × (encoded ≡ some payload)
          × Requested lib slab queue data_path (sent_payload method_post (some payload)) method_post
              s s')

  posted :
      (encoded : Option (List ℕ)) (s : State slab queue)
      → Inv slab queue s
      → let s' = send_datapoint lib slab queue encoded s in
        Inv slab queue s' × Posted running encoded s s'
  unfolding send_datapoint
  posted none s v = (v, inl refl)
  posted (some payload) s v =
      let (v', r) =
        send_built-Requested lib slab queue storage fits 512 type_non_con method_post data_path
          (some payload) s v in
      (v', inr (payload, refl, refl, r))

  -- Whatever the state of the cellular module and the encoder do, a datapoint changes nothing in the
  -- uplink, or the module runs, the datapoint was encoded, and at most one complete POST request with
  -- those bytes for the data resource of the device is queued behind what waits. The queue stays
  -- consistent.
  pub dp_sink_cellular-Posted :
      (state : CellularState) (encode : Datapoint → Option (List ℕ)) (dp : Datapoint)
      (s : State slab queue)
      → Inv slab queue s
      → let s' = dp_sink_cellular lib slab queue state encode dp s in
        Inv slab queue s' × Posted state (encode dp) s s'
  unfolding dp_sink_cellular
  dp_sink_cellular-Posted running encode dp s v = posted (encode dp) s v
  dp_sink_cellular-Posted _ encode dp s v = (v, inl refl)
