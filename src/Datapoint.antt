-- ===== src/Datapoint.antt =====
-- Datapoints of the control core: cores/control/src/datapoint. The conversions of `snprintf` for
-- numbers are parameters, as are the CBOR encoder and the clock. A row is shorter than 2 ^ 31
-- bytes, so that no `int` overflows.
pub mod Row
pub mod Queue
pub mod Thread
pub mod Drain
pub mod Posts
pub mod Pipeline
pub mod Sinks
pub mod Tests
use sense_firmware.Prelude.{
  ℕ, ◌+◌, ◌-◌, ◌≤◌, List, [], ◌∷◌, ◌++◌, Option, none, some, leb, ◌==◌, if◌then◌else◌, length, take,
  replicate, memcpy, ℤ, pos, enomem, einval, to_size, codes,
}
use sense_firmware.Kernel.{MsgQueue, MemSlab}
use sense_firmware.Coap.{CoapLib, build_request, result, method_post, type_non_con}
use sense_firmware.Cellular.{CellularState, running, Packet, State, queue_max_items, send_packet}
use sense_firmware.Requests.{send_built}
use sense_firmware.SdCard.{Writer, strnlen, submit_line}

-- `struct datapoint`; a double is its bit pattern, a string the `len` bytes behind `value`.
pub record Datapoint : Type 0 where
  pub i : ℕ
  pub t : ℤ
  pub s : List ℕ
  pub n : Option ℤ
  pub f : Option ℕ
  pub r : Option (List ℕ)
  pub u : Option (List ℕ)

-- `submit_float_datapoint` up to `datapoint_enqueue`; the fields that it does not name are zero.
abbrev pub float_datapoint : ℕ → List ℕ → List ℕ → Datapoint
float_datapoint value label unit = record {
  i = 0;
  t = pos 0;
  s = label;
  n = none;
  f = some value;
  r = none;
  u = some unit;
}

-- `submit_int_datapoint` up to `datapoint_enqueue`
abbrev pub int_datapoint : ℤ → List ℕ → List ℕ → Datapoint
int_datapoint value label unit = record {
  i = 0;
  t = pos 0;
  s = label;
  n = some value;
  f = none;
  r = none;
  u = some unit;
}

-- The conversion "%.*s", which stops at a null byte
abbrev pub shown : List ℕ → List ℕ
shown text = take (strnlen text (length text)) text

-- One call `snprintf(buf + offset, buf_size - offset, …)` that prints `text`.
unfoldable pub snprintf_at : ℕ → ℕ → List ℕ → List ℕ → List ℕ
snprintf_at offset room text buf =
    if room == 0 then buf else memcpy buf offset (take (room - 1) text ++ 0 ∷ [])

-- The calls left, each followed by the test for an output that does not fit.
unfoldable pub put_fields : ℕ → List (List ℕ) → ℕ → List ℕ → ℤ × List ℕ
put_fields buf_size [] offset buf = (pos offset, buf)
put_fields buf_size (text ∷ rest) offset buf =
    let printed = snprintf_at offset (buf_size - offset) text buf in
    let later = put_fields buf_size rest (offset + length text) printed in
    if leb (buf_size - offset) (length text) then (enomem, printed) else later

abbrev pub comma : ℕ
comma = 44

abbrev pub newline : ℕ
newline = 10

-- The text of a field that may be absent.
abbrev pub optional {ℓ} : {A : Type ℓ} → (A → List ℕ) → Option A → List ℕ
optional print none = []
optional print (some a) = print a

module _ (print_int : ℤ → List ℕ) (print_double : ℕ → List ℕ) where
  -- The six fields of a row, each with its separator.
  abbrev pub fields : Datapoint → List (List ℕ)
  fields dp =
      (print_int dp.t ++ comma ∷ [])
      ∷ (shown dp.s ++ comma ∷ [])
      ∷ (optional print_int dp.n ++ comma ∷ [])
      ∷ (optional print_double dp.f ++ comma ∷ [])
      ∷ (optional shown dp.r ++ comma ∷ [])
      ∷ (optional shown dp.u ++ newline ∷ [])
      ∷ []

  -- `datapoint_to_csv`: its result and the buffer
  unfoldable pub datapoint_to_csv : Option Datapoint → Option (List ℕ) → ℕ → ℤ × Option (List ℕ)
  datapoint_to_csv (some dp) (some buf) buf_size =
      let (ret, buf') = put_fields buf_size (fields dp) 0 buf in (ret, some buf')
  datapoint_to_csv _ buf buf_size = (einval, buf)

  abbrev submit_row : ℤ → Writer → ℤ × Option (List ℕ) → Option (ℤ × Writer)
  submit_row lock w (ret, some line) = submit_line lock line (to_size ret) w
  submit_row lock w (ret, none) = none

  -- `dp_sink_sd_card`; `lock` is what taking the writer's mutex returns.
  unfoldable pub dp_sink_sd_card : ℤ → Datapoint → Writer → Option (ℤ × Writer)
  dp_sink_sd_card lock dp w =
      submit_row lock w (datapoint_to_csv (some dp) (some (replicate 256 0)) 256)

-- `data_path`
abbrev pub data_path : List (List ℕ)
data_path = codes "ccd99122-3904-454a-95c7-9fb71f2c3fde" ∷ codes "data" ∷ []

module _ (lib : CoapLib) (slab : MemSlab Packet queue_max_items)
    (queue : MsgQueue Packet queue_max_items) where
  -- `dp_sink_cellular` by the encoder, once the interface is ready
  unfoldable pub send_datapoint : Option (List ℕ) → State slab queue → State slab queue
  send_datapoint none s = s
  send_datapoint (some payload) s =
      (send_built lib slab queue
        (build_request lib 512 type_non_con method_post (some data_path) (some payload)) s).1

  -- `dp_sink_cellular`
  unfoldable pub dp_sink_cellular :
      CellularState
      → (Datapoint → Option (List ℕ))
      → Datapoint
      → State slab queue
      → State slab queue
  unfolding send_datapoint
  dp_sink_cellular running encode dp s = send_datapoint (encode dp) s
  dp_sink_cellular _ encode dp s = s
