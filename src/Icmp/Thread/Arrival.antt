-- ===== src/Icmp/Thread/Arrival.antt =====
-- The server invariant and the UART: icmp_handle_frame (lib/icmp/icmp.c) for a released buffer.
use native.Mathlib.Decide.{dec_lt}
use sense_firmware.Prelude.{
  ℕ, ◌+◌, ◌≤◌, ◌≡◌, ap, List, [], ◌∷◌, some, arith, length, length-append, is_ok, Bool-cases, inl,
  inr,
}
use sense_firmware.Kernel.{MsgQueue, MemSlab}
use sense_firmware.Icmp.Frame.{
  Frame, Unpacked, returns, no_frame, out_of_bounds, max_frame_size, frame_unpack,
}
use sense_firmware.Icmp.Server.{State, max_frames, queue_max_items}
use sense_firmware.Icmp.Server.Send.{Inv}
use sense_firmware.Icmp.Thread.{receive_unpacked, uart_rx_released}
use sense_firmware.Icmp.Thread.Invariant.{Holds}

module _ (slab : MemSlab Frame max_frames) (queue : MsgQueue Frame queue_max_items) where
  open slab use {num_used, alloc, free, alloc_room, alloc_full, free_used}
  open queue use {items, put, get, put_room, get_empty, get_first}

  module _ (crc16 : List ℕ → ℕ) (buf : List ℕ) (s : State slab queue) (v : Inv slab queue s) where
    module _ (frames : slab.Slab) (taken : num_used frames ≡ num_used s.frames + 1)
        (room : num_used frames ≤ max_frames) where
      given_back : Inv slab queue (record s { frames = free frames })
      given_back = record {
        inflight = v.inflight;
        blocks = omega (arith, v.blocks, taken, free_used frames);
        limit = omega (arith, v.limit, taken, free_used frames);
        sem = v.sem;
        work = v.work;
        targets = v.targets;
      }

      queued : (f : Frame) → Inv slab queue (record s { frames = frames; rx = (put s.rx f).1 })
      queued f = record {
        inflight = v.inflight;
        blocks = omega (
          arith,
          v.blocks,
          taken,
          length-append (items s.rx) (f ∷ []),
          ap length (put_room s.rx f (omega (arith, v.blocks, room, taken))).1,
        );
        limit = room;
        sem = v.sem;
        work = v.work;
        targets = v.targets;
      }

      receive_unpacked-Inv :
          (u : Unpacked)
          → Holds
              (λ (o : List ℕ × State slab queue). Inv slab queue o.1)
              (receive_unpacked slab queue crc16 buf (record s { frames = frames }) u)
      unfolding receive_unpacked
      receive_unpacked-Inv (returns ret f) = elim (Bool-cases (is_ok ret)) [
        | inl e ↦ rw e (queued f)
        | inr e ↦ rw e given_back
      ]
      receive_unpacked-Inv (no_frame ret) = given_back
      receive_unpacked-Inv out_of_bounds = tt

    pub uart_rx_released-Inv :
        Holds
          (λ (o : List ℕ × State slab queue). Inv slab queue o.1)
          (uart_rx_released slab queue crc16 buf s)
    unfolding uart_rx_released
    uart_rx_released-Inv = elim (dec_lt (num_used s.frames) max_frames) [
      | yes h ↦ rw ((alloc_room s.frames h).0) (
          receive_unpacked-Inv (alloc s.frames).2 (alloc_room s.frames h).1
            (omega (arith, alloc_room s.frames h))
            (frame_unpack crc16 (some (alloc s.frames).1) (some buf) max_frame_size))
      | no h ↦ rw ((alloc_full s.frames (omega arith)).0, (alloc_full s.frames (omega arith)).1) v
    ]
