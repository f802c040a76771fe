-- ===== src/Cellular/Uplink.antt =====
-- The uplink as a bounded queue of byte strings.
use native.Mathlib.Decide.{dec_lt}
use sense_firmware.Prelude.{
  ℕ, suc, ◌≤◌, ◌<◌, ◌≡◌, ◌⊎◌, inl, inr, refl, ap, ◌∙◌, false, ◌||◌, List, [], ◌∷◌, ◌++◌, map,
  Option, none, some, arith, length, length-append, length-take, take, drop, memcpy, memcpy_append,
  take-append, ltb, ◌==◌, ℤ, pos, einval, enomem,
}
use mathlib.Core.List.{map-append}
use sense_firmware.Kernel.{MsgQueue, MemSlab}
use sense_firmware.Cellular.{
  Packet, State, queue_max_items, uplink_buffer_size, fill_packet, queue_packet, send_packet,
  uplink_round,
}

-- The bytes of a packet.
abbrev pub bytes_of : Packet → List ℕ
bytes_of p = take p.len p.buffer

-- What a round does with the byte strings that wait.
abbrev pub dequeue : List (List ℕ) → Option (List ℕ) × List (List ℕ)
dequeue [] = (none, [])
dequeue (bytes ∷ rest) = (some bytes, rest)

module _ (slab : MemSlab Packet queue_max_items) (queue : MsgQueue Packet queue_max_items) where
  open slab use {num_used, alloc, alloc_room, alloc_full, free_used}
  open queue use {items, put, get, put_room, get_empty, get_first}

  -- The blocks in use are those of the packets in the queue.
  pub record Inv (s : State slab queue) : Type 0 where
    pub blocks : num_used s.packets ≡ length (items s.uplink)
    pub limit : num_used s.packets ≤ queue_max_items

  -- What a client knows of the uplink: the byte strings that wait, the oldest first.
  abbrev pub waiting : State slab queue → List (List ℕ)
  waiting s = map bytes_of (items s.uplink)

  -- A queued packet, or -ENOMEM and nothing changed.
  abbrev pub Sends : List ℕ → State slab queue → ℤ × State slab queue → Type 0
  Sends bytes s (ret, s') =
      Inv s'
      × (((length (waiting s) < queue_max_items)
            × (ret ≡ pos 0)
            × (waiting s' ≡ waiting s ++ bytes ∷ []))
          ⊎ ((queue_max_items ≤ length (waiting s)) × (ret ≡ enomem) × (waiting s' ≡ waiting s)))

  module _ (storage : (x : slab.Slab) → length (alloc x).1.buffer ≡ uplink_buffer_size) where
    used :
        (stale bytes : List ℕ)
        → length bytes ≤ length stale
        → take (length bytes) (memcpy stale 0 bytes) ≡ bytes
    used stale bytes h =
        rw (memcpy_append [] stale bytes h) (take-append bytes (drop (length bytes) stale))

    length-waiting : (ps : List Packet) → length (map bytes_of ps) ≡ length ps
    length-waiting [] = refl
    length-waiting (p ∷ ps) = ap suc (length-waiting ps)

    module _ (bytes : List ℕ) (s : State slab queue) (v : Inv s)
        (h : length bytes ≤ uplink_buffer_size) where
      abbrev new_packet : Packet
      new_packet = fill_packet slab queue (alloc s.packets).1 bytes

      abbrev queued : State slab queue
      queued = record s { packets = (alloc s.packets).2; uplink = (put s.uplink new_packet).1 }

      queue_packet_room :
          num_used s.packets < queue_max_items → queue_packet slab queue bytes s ≡ (pos 0, queued)
      unfolding queue_packet
      queue_packet_room p =
          ground (arith, alloc_room s.packets p, v.blocks, put_room s.uplink new_packet)

      queue_packet_full :
          num_used s.packets ≡ queue_max_items → queue_packet slab queue bytes s ≡ (enomem, s)
      unfolding queue_packet
      queue_packet_full p = ground (arith, alloc_full s.packets)

      items-queued :
          num_used s.packets < queue_max_items
          → items queued.uplink ≡ items s.uplink ++ new_packet ∷ []
      items-queued p = ground (arith, v.blocks, put_room s.uplink new_packet)

      queued-Inv : num_used s.packets < queue_max_items → Inv queued
      queued-Inv p = record {
        blocks = omega (
          arith,
          v.blocks,
          alloc_room s.packets p,
          ap length (items-queued p),
          length-append (items s.uplink) (new_packet ∷ []),
        );
        limit = omega (arith, alloc_room s.packets p);
      }

      waiting-queued :
          num_used s.packets < queue_max_items → waiting queued ≡ waiting s ++ bytes ∷ []
      waiting-queued p =
          ap (map bytes_of) (items-queued p)
          ∙ map-append bytes_of (items s.uplink) (new_packet ∷ [])
          ∙ ap (λ b. waiting s ++ b ∷ [])
              (used (alloc s.packets).1.buffer bytes (omega (arith, storage s.packets)))

      queue_packet-Sends : Sends bytes s (queue_packet slab queue bytes s)
      queue_packet-Sends = elim (dec_lt (num_used s.packets) queue_max_items) [
        | yes p ↦ rw (queue_packet_room p) (
          queued-Inv p,
          inl (omega (arith, v.blocks, length-waiting (items s.uplink)), refl, waiting-queued p),
        )
        | no p ↦
            rw (queue_packet_full (omega (arith, v.limit))) (
              v,
              inr (omega (arith, v.blocks, v.limit, length-waiting (items s.uplink)), refl, refl),
            )
      ]

    -- `cellular_send_packet` queues the first `data_len` bytes behind those that wait, if fewer than
    -- CONFIG_CELLULAR_UPLINK_QUEUE_MAX_ITEMS packets wait; if not, it returns -ENOMEM and the packets
    -- that wait are the same. No block is lost on either branch.
    send_packet-accepted :
        (bytes : List ℕ) (data_len : ℕ) (s : State slab queue)
        → Inv s
        → 0 < data_len
        → data_len ≤ uplink_buffer_size
        → Sends (take data_len bytes) s (send_packet slab queue (some bytes) data_len s)
    unfolding send_packet
    send_packet-accepted bytes data_len s v h k =
        rw (checks)
          (queue_packet-Sends (take data_len bytes) s v (omega (arith, length-take data_len bytes)))
      where
        checks : ((data_len == 0) || ltb uplink_buffer_size data_len) ≡ false
        checks = ground arith

  -- A null pointer, no bytes, or more than the buffer holds: -EINVAL, and nothing changes.
  pub send_packet_refuses :
      (bytes : Option (List ℕ)) (data_len : ℕ) (s : State slab queue)
      → (bytes ≡ none) ⊎ ((data_len ≡ 0) ⊎ (uplink_buffer_size < data_len))
      → send_packet slab queue bytes data_len s ≡ (einval, s)
  unfolding send_packet
  send_packet_refuses none data_len s h = refl
  send_packet_refuses (some bytes) data_len s h = ground arith

  -- What `cellular_send_packet` of the first `data_len` bytes behind a pointer may do: queue them,
  -- find the queue full, or refuse its arguments.
  abbrev pub Outcome : Option (List ℕ) → ℕ → State slab queue → ℤ × State slab queue → Type 0
  Outcome bytes data_len s (ret, s') =
      Inv s'
      × (((l : List ℕ) × (bytes ≡ some l)
            × (0 < data_len)
            × (data_len ≤ uplink_buffer_size)
            × (((length (waiting s) < queue_max_items)
                  × (ret ≡ pos 0)
                  × (waiting s' ≡ waiting s ++ take data_len l ∷ []))
                ⊎ ((queue_max_items ≤ length (waiting s))
                    × (ret ≡ enomem)
                    × (waiting s' ≡ waiting s))))
          ⊎ (((bytes ≡ none) ⊎ ((data_len ≡ 0) ⊎ (uplink_buffer_size < data_len)))
              × (ret ≡ einval)
              × (s' ≡ s)))

  -- With a consistent uplink `cellular_send_packet` returns -EINVAL and changes nothing where the
  -- pointer is null, there is no byte, or there are more than a packet holds. Otherwise it queues the
  -- bytes behind those that wait and returns 0, if fewer than CONFIG_CELLULAR_UPLINK_QUEUE_MAX_ITEMS
  -- packets wait; if not, it returns -ENOMEM and the packets that wait are the same. The uplink stays
  -- consistent, so that no block is lost.
  pub send_packet-Outcome :
      ((x : slab.Slab) → length (alloc x).1.buffer ≡ uplink_buffer_size)
      → (bytes : Option (List ℕ)) (data_len : ℕ) (s : State slab queue) → Inv s
      → Outcome bytes data_len s (send_packet slab queue bytes data_len s)
  send_packet-Outcome storage none n s v =
      rw (send_packet_refuses none n s (inl refl)) (v, inr (inl refl, refl, refl))
  send_packet-Outcome storage (some l) n s v = elim (dec_lt 0 n) [
    | no z ↦
        let r = inr (inl (omega arith)) in
        rw (send_packet_refuses (some l) n s r) (v, inr (r, refl, refl))
    | yes z ↦ elim (dec_lt uplink_buffer_size n) [
      | yes w ↦
          let r = inr (inr w) in rw (send_packet_refuses (some l) n s r) (v, inr (r, refl, refl))
      | no w ↦
          let (v', r) = send_packet-accepted storage l n s v z (omega arith) in
          (v', inl (l, refl, z, omega arith, r))
    ]
  ]

  -- A round of the thread gives the bytes that wait longest to `send`, removes that packet whatever
  -- `send` returns, and frees its block; with nothing waiting it does nothing.
  pub uplink_round-dequeue :
      (s : State slab queue)
      → Inv s
      → let (sent, s') = uplink_round slab queue s in
        Inv s' × ((sent, waiting s') ≡ dequeue (waiting s))
  unfolding uplink_round
  uplink_round-dequeue s v = split (items s.uplink) refl
    where
      split :
          (l : List Packet)
          → items s.uplink ≡ l
          → let (sent, s') = uplink_round slab queue s in
            Inv s' × ((sent, waiting s') ≡ dequeue (waiting s))
      split [] e = rw (get_empty s.uplink e, uplink_round) (v, rw e refl)
      split (p ∷ ps) e =
          let (q', g, r) = get_first s.uplink p ps e in
          rw (g, uplink_round)
            (
              record {
                blocks = omega (arith, v.blocks, free_used s.packets, ap length e, ap length r);
                limit = omega (arith, v.limit, free_used s.packets);
              },
              rw (e, r) refl,
            )
