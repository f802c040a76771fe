-- ===== src/Remote/Requests.antt =====
-- The requests of the remote command client: what reaches the uplink queue, and when.
use sense_firmware.Remote.Apply.{
  Accepts, Valid, apply_command-Accepts, apply_command_ignores, Accepts→Valid,
}
use sense_firmware.Prelude.{
  Option-cases, ℕ, ◌^◌, ◌<◌, ◌≡◌, ◌⊎◌, inl, inr, refl, subst, arith, List, Option, none, some,
  length, ℤ, pos, negsuc, zero, suc,
}
use sense_firmware.Kernel.{MsgQueue, MemSlab}
use sense_firmware.Coap.{CoapLib, build_request, method_delete, type_non_con}
use sense_firmware.Cellular.{Packet, State, queue_max_items, uplink_buffer_size}
use sense_firmware.Cellular.Uplink.{Inv}
use sense_firmware.Requests.{Requested, Delivered, send_built-Requested, send_built-Delivered}
use sense_firmware.Remote.{
  Command, Settings, apply_command, data_path, send_request, issue_delete_request,
  process_remote_command, handle_packet,
}

module _ (lib : CoapLib) (slab : MemSlab Packet queue_max_items)
    (queue : MsgQueue Packet queue_max_items) where
  -- The packet was parsed, and its payload decodes to this command.
  abbrev pub Carries : ℤ → Option (List ℕ) → (List ℕ → Option Command) → Command → Type 0
  Carries parse payload decode cmd =
      (parse ≡ pos 0) × (bytes : List ℕ) × (payload ≡ some bytes) × (decode bytes ≡ some cmd)

  -- What handling a packet does: the command that it carries takes effect, if it is a valid one,
  -- and a DELETE is queued if it can be; otherwise nothing changes.
  abbrev pub Handled :
      ℤ
      → Option (List ℕ)
      → (List ℕ → Option Command)
      → Settings × State slab queue
      → Settings × State slab queue
      → Type 0
  Handled parse payload decode (c, s) (c', s') =
      ((cmd : Command) × Carries parse payload decode cmd
        × Valid cmd
        × Accepts cmd c c'
        × Delivered lib slab queue
            (build_request lib 256 type_non_con method_delete (some data_path) none) data_path none
            method_delete s s')
      ⊎ ((¬ ((cmd : Command) × Carries parse payload decode cmd × Valid cmd)) × (c' ≡ c) × (s' ≡ s))

  module _ (storage : (x : slab.Slab) → length (slab.alloc x).1.buffer ≡ uplink_buffer_size) where
    -- A request fits in the address space.
    module _ (fits : (p : lib.Packet) → lib.offset p < 2 ^ 31) where
      -- Polling and the answer to a command queue one complete request of their method for the
      -- command resource of the device, or nothing. No packet that waits is lost, and the queue
      -- stays consistent.
      pub send_request-Requested :
          (buf_len method : ℕ) (s : State slab queue)
          → Inv slab queue s
          → let s' = (send_request lib slab queue buf_len method s).1 in
            Inv slab queue s' × Requested lib slab queue data_path none method s s'
      unfolding send_request
      send_request-Requested buf_len method s v =
          send_built-Requested lib slab queue storage fits buf_len type_non_con method data_path
            none s v

      deleted :
          (s : State slab queue)
          → Inv slab queue s
          → let s' = issue_delete_request lib slab queue s in
            Inv slab queue s'
            × Delivered lib slab queue
                (build_request lib 256 type_non_con method_delete (some data_path) none)
                data_path
                none
                method_delete
                s
                s'
      unfolding issue_delete_request send_request
      deleted s v =
          send_built-Delivered lib slab queue storage fits 256 type_non_con method_delete data_path
            none s v

      module _ (parse : ℤ) (payload : Option (List ℕ)) (decode : List ℕ → Option Command)
          (c : Settings) (s : State slab queue) (v : Inv slab queue s) where
        ignored :
            ¬ ((cmd : Command) × Carries parse payload decode cmd × Valid cmd)
            → Inv slab queue s × Handled parse payload decode (c, s) (c, s)
        ignored bad = (v, inr (bad, refl, refl))

        processed :
            (cmd : Command)
            → Carries parse payload decode cmd
            → ((other : Command) → Carries parse payload decode other → other ≡ cmd)
            → let n = process_remote_command lib slab queue cmd (c, s) in
              Inv slab queue n.1 × Handled parse payload decode (c, s) n
        unfolding process_remote_command
        processed cmd h only = elim (Option-cases (apply_command cmd c)) [
          | inl e ↦
              rw (e, process_remote_command)
                (ignored (λ (other, k, w).
                  (apply_command_ignores cmd c).0 e (subst Valid (only other k) w)))
          | inr (c', e) ↦
              let (v', d) = deleted s v in
              let a = apply_command-Accepts cmd c c' e in
              rw (e, process_remote_command) (v', inl (cmd, h, Accepts→Valid cmd c c' a, a, d))
        ]

      -- A packet that the parser accepts and whose payload decodes to a command that names an
      -- existing sensor with an integer, or the rail with a Boolean, as its type demands, has the
      -- effect of just that command: the settings then differ in exactly the interval of that
      -- sensor, whose poll is rescheduled with it, or in the rail, and one complete DELETE request is
      -- queued behind what waits, unless building it fails, it has no byte or too many, or the queue
      -- is full. Any other packet changes nothing. The queue stays consistent.
      pub handle_packet-Handled :
          (parse : ℤ) (payload : Option (List ℕ)) (decode : List ℕ → Option Command) (c : Settings)
          (s : State slab queue)
          → Inv slab queue s
          → let n = handle_packet lib slab queue parse payload decode (c, s) in
            Inv slab queue n.1 × Handled parse payload decode (c, s) n
      unfolding handle_packet
      handle_packet-Handled (pos zero) none decode c s v =
          ignored (pos 0) none decode c s v (λ (_, (_, _, p, _), _). cc)
      handle_packet-Handled (pos zero) (some bytes) decode c s v =
          elim (Option-cases (decode bytes)) [
            | inl d ↦ rw d (
                ignored (pos 0) (some bytes) decode c s v
                  (λ (_, (_, b, p, q), _). absurd (grind (arith, d))))
            | inr (cmd, d) ↦ rw d (
                processed (pos 0) (some bytes) decode c s v cmd (refl, bytes, refl, d)
                  (λ other (_, b, p, q). grind (arith, d)))
          ]
      handle_packet-Handled (pos (suc n)) payload decode c s v =
          ignored (pos (suc n)) payload decode c s v (λ (_, (z, _, _, _), _). cc)
      handle_packet-Handled (negsuc n) payload decode c s v =
          ignored (negsuc n) payload decode c s v (λ (_, (z, _, _, _), _). cc)
