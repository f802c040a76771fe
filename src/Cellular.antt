-- ===== src/Cellular.antt =====
-- The cellular module: lib/cellular/cellular.c, cellular_packet.c and cellular_queue.c. What the modem
-- backend, the resolver, the sockets and the kernel return is an argument.
pub mod Tests
pub mod Life
pub mod Uplink
pub mod Traffic
use sense_firmware.Prelude.{
  ℕ, ◌≡◌, Bool, true, false, ◌||◌, List, [], ◌∷◌, ◌++◌, Option, none, some, ltb, ◌==◌,
  if◌then◌else◌, length, take, memcpy, ℤ, pos, negsuc, einval, ebusy, eio, enoent, is_ok,
  is_negative,
}
use sense_firmware.Kernel.{MsgQueue, MemSlab}

-- `cellular_state_t`
pub data CellularState : Type 0 where
  uninitialised starting running backend_error socket_error remote_server_error undefined :
      CellularState

-- The module's variables: the atomic state, the receive callback, and whether a thread was created.
pub record Module : Type 0 where
  pub state : CellularState
  pub recv_callback : Option ℕ
  pub thread : Bool

abbrev pub loaded : Module
loaded = record { state = uninitialised; recv_callback = none; thread = false }

-- The test for a thread that runs already.
unfoldable pub is_active : CellularState → Bool
is_active starting = true
is_active running = true
is_active _ = false

-- `cellular_init` up to `k_thread_create`: the result if it ends there, and the module.
unfoldable pub init_begin : Option ℕ → Bool → Module → Option ℤ × Module
unfolding is_active
init_begin cb backend m = if is_active m.state then (some ebusy, m) else elim cb [
  | none ↦ (some einval, record m { state = uninitialised })
  | some f ↦
      if backend
      then (none, record m { recv_callback = some f; thread = true })
      else (some einval, record m { state = uninitialised; recv_callback = some f })
]

-- `cellular_init` after `k_thread_create`
unfoldable pub init_end : Module → ℤ × Module
init_end m = (pos 0, record m { state = starting })

-- `cellular_init`, where the new thread does not run before it returns
unfoldable pub cellular_init : Option ℕ → Bool → Module → ℤ × Module
unfolding init_begin init_end
cellular_init cb backend m =
    let (done, m') = init_begin cb backend m in
    elim done [ some ret ↦ (ret, m') | none ↦ init_end m' ]

-- `resolve_remote_server`, by the result of `getaddrinfo` and whether it found an address
unfoldable pub resolve_remote_server : ℤ → Bool → ℤ
resolve_remote_server err found = if is_ok err then (if found then pos 0 else enoent) else eio

-- `initialise_socket`, by the results of `socket`, `fcntl` and `connect`, and `-errno` where it is read
unfoldable pub initialise_socket : ℤ → ℤ → ℤ → ℤ → ℤ
initialise_socket fd fcntl connect minus_errno =
    if is_negative fd
    then minus_errno
    else if is_ok fcntl
    then (if is_ok connect then pos 0 else minus_errno)
    else fcntl

-- `init_cellular_stack`, by the results of its three stages
unfoldable pub init_cellular_stack : ℤ → ℤ → ℤ → Module → ℤ × Module
init_cellular_stack backend resolve socket m =
    if is_ok backend
    then if is_ok resolve
      then if is_ok socket then (pos 0, m) else (socket, record m { state = socket_error })
      else (resolve, record m { state = remote_server_error })
    else (backend, record m { state = backend_error })

-- `cellular_thread_function` up to its loop
unfoldable pub thread_start : ℤ → ℤ → ℤ → Module → Module
unfolding init_cellular_stack
thread_start backend resolve socket m =
    let (ret, m') = init_cellular_stack backend resolve socket m in
    if is_ok ret then record m' { state = running } else record m' { thread = false }

-- `CONFIG_CELLULAR_UPLINK_BUFFER_SIZE` and `CONFIG_CELLULAR_UPLINK_QUEUE_MAX_ITEMS`, at their defaults
abbrev pub uplink_buffer_size : ℕ
uplink_buffer_size = 256

abbrev pub queue_max_items : ℕ
queue_max_items = 8

-- `struct cellular_packet`
pub record Packet : Type 0 where
  pub buffer : List ℕ
  pub len : ℕ

pub record Queued (Slab Queue : Type 0) : Type 0 where
  pub packets : Slab
  pub uplink : Queue

module _ (slab : MemSlab Packet queue_max_items) (queue : MsgQueue Packet queue_max_items) where
  abbrev pub State : Type 0
  State = Queued slab.Slab queue.Queue

  abbrev pub fill_packet : Packet → List ℕ → Packet
  fill_packet block bytes = record { buffer = memcpy block.buffer 0 bytes; len = length bytes }

  -- `cellular_send_packet` after its checks
  unfoldable pub queue_packet : List ℕ → State → ℤ × State
  queue_packet bytes s =
      let (ret, block, packets) = slab.alloc s.packets in
      if is_ok ret
      then (let (ret', uplink) = queue.put s.uplink (fill_packet block bytes) in
          (ret', record s { packets = packets; uplink = uplink }))
      else (ret, record s { packets = packets })

  -- `cellular_send_packet`, of the first `data_len` bytes behind `data`
  unfoldable pub send_packet : Option (List ℕ) → ℕ → State → ℤ × State
  unfolding queue_packet
  send_packet none data_len s = (einval, s)
  send_packet (some bytes) data_len s =
      if (data_len == 0) || ltb uplink_buffer_size data_len
      then (einval, s)
      else queue_packet (take data_len bytes) s

  -- The uplink half of a round of the thread: the bytes given to `send`, whose result is only logged.
  unfoldable pub uplink_round : State → Option (List ℕ) × State
  uplink_round s = elim (queue.get s.uplink) [
    | none ↦ (none, s)
    | some (p, uplink) ↦
        (some (take p.len p.buffer), record s { packets = slab.free s.packets; uplink = uplink })
  ]

-- The downlink half of a round: what `recv` returned, and the bytes that the callback gets.
unfoldable pub downlink_round : ℤ → List ℕ → Option (List ℕ)
downlink_round (pos n) rx_buffer = some (take n rx_buffer)
downlink_round (negsuc n) rx_buffer = none
