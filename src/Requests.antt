-- ===== src/Requests.antt =====
-- Requests given to the uplink: `coap_build_request` and then `cellular_send_packet`, as the clients of
-- both call them.
use sense_firmware.Prelude.{
  ℕ, ◌^◌, ◌<◌, ◌≤◌, ◌≡◌, ◌⊎◌, inl, inr, refl, ap, ◌∙◌, none, true, List, [], ◌∷◌, ◌++◌, Option,
  some, arith, take, ℤ, pos, negsuc, to_size, length,
}
use sense_firmware.Kernel.{MsgQueue, MemSlab}
use sense_firmware.Coap.{CoapLib, Built, ok, err, is_errno, build_request, result}
use sense_firmware.Coap.Request.{Encodes, sent_payload, build_request-Encodes}
use sense_firmware.Coap.Errors.{Errs, build_request-Errs}
use sense_firmware.Cellular.{Packet, State, queue_max_items, uplink_buffer_size, send_packet}
use sense_firmware.Cellular.Uplink.{Inv, waiting, send_packet-Outcome, send_packet_refuses}

-- The buffer that a request was built in; no byte of it is read after an error.
abbrev pub request_bytes : (lib : CoapLib) → Built lib.Packet → List ℕ
request_bytes lib (ok p) = lib.buffer p
request_bytes lib (err e) = []

errno_size : (e : ℤ) → is_errno e ≡ true → uplink_buffer_size < to_size e
errno_size (pos n) h = absurd (ground arith)
errno_size (negsuc n) h = ground arith

module _ (lib : CoapLib) (slab : MemSlab Packet queue_max_items)
    (queue : MsgQueue Packet queue_max_items) where
  -- `cellular_send_packet` of a request, its length converted from `int` to `size_t`
  unfoldable pub send_built : Built lib.Packet → State slab queue → ℤ × State slab queue
  send_built built s =
      send_packet slab queue (some (request_bytes lib built)) (to_size (result lib built)) s

  -- What sending a request leaves in the queue: what waited before, and at most one request behind it,
  -- which is complete and encodes this path, payload and method.
  abbrev pub Requested :
      List (List ℕ) → Option (List ℕ) → ℕ → State slab queue → State slab queue → Type 0
  Requested path payload method s s' =
      (waiting slab queue s' ≡ waiting slab queue s)
      ⊎ ((p : lib.Packet) × Encodes lib p path payload method
          × (waiting slab queue s'
              ≡ waiting slab queue s ++ take (lib.offset p) (lib.buffer p) ∷ []))

  -- Why a request is not queued: it was not built, has no byte or too many, or the queue is full.
  abbrev pub Unsent : Built lib.Packet → State slab queue → Type 0
  Unsent b s =
      ((e : ℤ) × (b ≡ err e))
      ⊎ (((p : lib.Packet) × (b ≡ ok p)
            × ((lib.offset p ≡ 0) ⊎ (uplink_buffer_size < lib.offset p)))
          ⊎ (queue_max_items ≤ length (waiting slab queue s)))

  -- What sending leaves, with the reason where nothing is queued.
  abbrev pub Delivered :
      Built lib.Packet
      → List (List ℕ)
      → Option (List ℕ)
      → ℕ
      → State slab queue
      → State slab queue
      → Type 0
  Delivered b path payload method s s' =
      ((p : lib.Packet) × (b ≡ ok p)
        × Encodes lib p path payload method
        × (waiting slab queue s' ≡ waiting slab queue s ++ take (lib.offset p) (lib.buffer p) ∷ []))
      ⊎ (Unsent b s × (waiting slab queue s' ≡ waiting slab queue s))

  Delivered→Requested :
      (b : Built lib.Packet) (path : List (List ℕ)) (payload : Option (List ℕ)) (method : ℕ)
      (s s' : State slab queue)
      → Delivered b path payload method s s'
      → Requested path payload method s s'
  Delivered→Requested b path payload method s s' (inl (p, _, c, q)) = inr (p, c, q)
  Delivered→Requested b path payload method s s' (inr (_, q)) = inl q

  module _ (storage : (x : slab.Slab) → length (slab.alloc x).1.buffer ≡ uplink_buffer_size) where
    sent :
        (p : lib.Packet) (path : List (List ℕ)) (payload : Option (List ℕ)) (method n : ℕ)
        (s : State slab queue)
        → Inv slab queue s
        → Encodes lib p path payload method
        → n ≡ lib.offset p
        → let s' = (send_packet slab queue (some (lib.buffer p)) n s).1 in
          Inv slab queue s' × Delivered (ok p) path payload method s s'
    sent p path payload method n s v c e =
        let (v', r) = send_packet-Outcome slab queue storage (some (lib.buffer p)) n s v in
        (
          v',
          elim r [
            | inl (l, i, _, _, inl (_, _, q)) ↦ inl (p, refl, c, q ∙ ground (arith, i, e))
            | inl (_, _, _, _, inr (full, _, q)) ↦ inr (inr (inr full), q)
            | inr (bad, _, q) ↦ inr (refused bad, ap (waiting slab queue) q)
          ],
        )
      where
        refused :
            (some (lib.buffer p) ≡ none) ⊎ ((n ≡ 0) ⊎ (uplink_buffer_size < n)) → Unsent (ok p) s
        refused (inl x) = cc
        refused (inr (inl z)) = inr (inl (p, refl, inl (omega (arith, e))))
        refused (inr (inr z)) = inr (inl (p, refl, inr (omega (arith, e))))

    failed :
        (e : ℤ) (bytes : List ℕ) (path : List (List ℕ)) (payload : Option (List ℕ)) (method : ℕ)
        (s : State slab queue)
        → Inv slab queue s
        → is_errno e ≡ true
        → let s' = (send_packet slab queue (some bytes) (to_size e) s).1 in
          Inv slab queue s' × Delivered (err e) path payload method s s'
    failed e bytes path payload method s v h =
        rw (send_packet_refuses slab queue (some bytes) (to_size e) s (inr (inr (errno_size e h))))
          (v, inr (inl (e, refl), refl))

    -- A request fits in the address space.
    module _ (fits : (p : lib.Packet) → lib.offset p < 2 ^ 31) where
      built :
          (b : Built lib.Packet) (path : List (List ℕ)) (payload : Option (List ℕ)) (method : ℕ)
          (s : State slab queue)
          → Inv slab queue s
          → Errs b
          → ((p : lib.Packet) → b ≡ ok p → Encodes lib p path payload method)
          → let s' = (send_built b s).1 in Inv slab queue s' × Delivered b path payload method s s'
      unfolding send_built
      built (ok p) path payload method s v h k =
          sent p path payload method (to_size (pos (lib.offset p))) s v (k p refl)
            (omega (arith, fits p))
      built (err e) path payload method s v h k = failed e [] path payload method s v h

      -- A request that `coap_build_request` was asked for is queued whole behind what waits; or
      -- nothing is, because building it failed, it has no byte or more than a packet holds, or the
      -- queue is full.
      pub send_built-Delivered :
          (buf_len type method : ℕ) (path : List (List ℕ)) (bytes : Option (List ℕ))
          (s : State slab queue)
          → Inv slab queue s
          → let b = build_request lib buf_len type method (some path) bytes in
            let s' = (send_built b s).1 in
            Inv slab queue s' × Delivered b path (sent_payload method bytes) method s s'
      send_built-Delivered buf_len type method path bytes s v =
          built (build_request lib buf_len type method (some path) bytes) path
            (sent_payload method bytes) method s v
            (build_request-Errs lib buf_len type method (some path) bytes)
            λ p e. (build_request-Encodes lib buf_len type method (some path) bytes p e).3

      -- A request that `coap_build_request` was asked for is queued whole behind what waits, or nothing
      -- is: where building it fails, the negative result that is passed on as a length is refused. No
      -- packet that waits is lost, and the queue stays consistent.
      pub send_built-Requested :
          (buf_len type method : ℕ) (path : List (List ℕ)) (bytes : Option (List ℕ))
          (s : State slab queue)
          → Inv slab queue s
          → let s' = (send_built (build_request lib buf_len type method (some path) bytes) s).1 in
            Inv slab queue s' × Requested path (sent_payload method bytes) method s s'
      send_built-Requested buf_len type method path bytes s v =
          let b = build_request lib buf_len type method (some path) bytes in
          let (v', d) = send_built-Delivered buf_len type method path bytes s v in
          (v', Delivered→Requested b path (sent_payload method bytes) method s (send_built b s).1 d)
