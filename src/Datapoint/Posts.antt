-- ===== src/Datapoint/Posts.antt =====
-- The rounds of the datapoint thread and the uplink.
use sense_firmware.Prelude.{
  ℕ, ◌^◌, ◌<◌, ◌≡◌, ◌⊎◌, ◌∙◌, inl, inr, refl, ap, sym, List, [], ◌∷◌, ◌++◌, append_assoc,
  append-nil, some, length, drop, take, ℤ,
}
use sense_firmware.Kernel.{MsgQueue, MemSlab}
use sense_firmware.Coap.{CoapLib, method_post}
use sense_firmware.Coap.Request.{Encodes, sent_payload}
use sense_firmware.Cellular.{running, Packet, State, queue_max_items, uplink_buffer_size}
use sense_firmware.Cellular.Uplink.{Inv, waiting}
use sense_firmware.SdCard.{Writer, Card}
use sense_firmware.SdCard.Lines.{IsText}
use sense_firmware.SdCard.Log.{Ready}
use sense_firmware.Datapoint.{Datapoint, data_path, dp_sink_cellular}
use sense_firmware.Datapoint.Queue.{datapoint_queue_max_items}
use sense_firmware.Datapoint.Sinks.{dp_sink_cellular-Posted}
use sense_firmware.Datapoint.Thread.{Round, stamped, thread_rounds, rows}
use sense_firmware.Datapoint.Drain.{Short, uplink_after, rounds_drain}

module _ (lib : CoapLib) (slab : MemSlab Packet queue_max_items)
    (uplink : MsgQueue Packet queue_max_items) where
  -- A POST of a datapoint: of what the encoder of the round made of it, while the module runs
  abbrev pub PostOf : Round → Datapoint → List ℕ → Type 0
  PostOf r dp bytes =
      (payload : List ℕ) × (p : lib.Packet) × (r.cellular ≡ running)
      × (r.encode (stamped r.now dp) ≡ some payload)
      × Encodes lib p data_path (sent_payload method_post (some payload)) method_post
      × (bytes ≡ take (lib.offset p) (lib.buffer p))

  -- Requests that come in the order of the datapoints that the rounds find, at most one for each
  abbrev pub PostsOf : List Round → List Datapoint → List (List ℕ) → Type 0
  PostsOf rounds [] posts = posts ≡ []
  PostsOf [] (dp ∷ dps) posts = posts ≡ []
  PostsOf (r ∷ later) (dp ∷ dps) posts =
      PostsOf later dps posts
      ⊎ ((bytes : List ℕ) × (rest : List (List ℕ)) × (posts ≡ bytes ∷ rest)
          × PostOf r dp bytes
          × PostsOf later dps rest)

  module _ (storage : (x : slab.Slab) → length (slab.alloc x).1.buffer ≡ uplink_buffer_size)
      (fits : (p : lib.Packet) → lib.offset p < 2 ^ 31) where
    post_cases :
        (r : Round) (dp : Datapoint) (u : State slab uplink)
        → Inv slab uplink u
        → let u' = dp_sink_cellular lib slab uplink r.cellular r.encode (stamped r.now dp) u in
          Inv slab uplink u'
          × ((waiting slab uplink u' ≡ waiting slab uplink u)
              ⊎ ((bytes : List ℕ) × PostOf r dp bytes
                  × (waiting slab uplink u' ≡ waiting slab uplink u ++ bytes ∷ [])))
    post_cases r dp u v =
        let (v', d) =
          dp_sink_cellular-Posted lib slab uplink storage fits r.cellular r.encode
            (stamped r.now dp) u v in
        (
          v',
          elim d [
            | inl e ↦ inl (ap (waiting slab uplink) e)
            | inr (payload, run, enc, inl e) ↦ inl e
            | inr (payload, run, enc, inr (p, k, e)) ↦
                inr (take (lib.offset p) (lib.buffer p), (payload, p, run, enc, k, refl), e)
          ],
        )

    -- What some rounds leave in the uplink
    abbrev pub Posts : List Round → List Datapoint → State slab uplink → State slab uplink → Type 0
    Posts rounds dps u u' =
        Inv slab uplink u'
        × ((posts : List (List ℕ)) × PostsOf rounds dps posts
            × (waiting slab uplink u' ≡ waiting slab uplink u ++ posts))

    uplink_after-Posts :
        (rounds : List Round) (dps : List Datapoint) (u : State slab uplink)
        → Inv slab uplink u
        → Posts rounds dps u (uplink_after lib slab uplink rounds dps u)
    uplink_after-Posts rounds [] u v = (v, ([], refl, sym (append-nil _)))
    uplink_after-Posts [] (dp ∷ dps) u v = (v, ([], refl, sym (append-nil _)))
    uplink_after-Posts (r ∷ later) (dp ∷ dps) u v =
        let (v1, d) = post_cases r dp u v in
        let (v', (posts, k, e)) =
          uplink_after-Posts later dps
            (dp_sink_cellular lib slab uplink r.cellular r.encode (stamped r.now dp) u) v1 in
        (
          v',
          elim d [
            | inl e1 ↦ (posts, inl k, e ∙ ap (λ l. l ++ posts) e1)
            | inr (bytes, o, e1) ↦ (
              bytes ∷ posts,
              inr (bytes, posts, refl, o, k),
              e ∙ ap (λ l. l ++ posts) e1 ∙ append_assoc (waiting slab uplink u) (bytes ∷ []) posts,
            )
          ],
        )

    module _ (print_int : ℤ → List ℕ) (print_double : ℕ → List ℕ)
        (int_text : (n : ℤ) → IsText (print_int n))
        (double_text : (x : ℕ) → IsText (print_double x))
        (queue : MsgQueue Datapoint datapoint_queue_max_items) where
      -- If the writer is ready, the rows of the datapoints that the rounds find are shorter than
      -- the line buffer, and the uplink is consistent, no round fails: each round takes the oldest
      -- datapoint, and the uplink stays consistent. What waits in it is what did, followed by
      -- complete requests in the order of the datapoints, at most one for each: a POST for the data
      -- resource of the device of the bytes that the encoder made of the stamped datapoint, in a
      -- round in which the cellular module ran. The conversions of numbers print no null byte, a
      -- packet block has the size of its buffer, a request is shorter than 2 ^ 31 bytes, and the
      -- work item of the writer runs after each round, without failing.
      pub thread_rounds-Posts :
          (rounds : List Round) (q : queue.Queue) (u : State slab uplink) (w : Writer) (c : Card)
          → Ready w
          → Short (rows print_int print_double rounds (queue.items q))
          → Inv slab uplink u
          → (q' : queue.Queue) × (u' : State slab uplink) × (w' : Writer) × (c' : Card)
            × (thread_rounds print_int print_double lib slab uplink queue rounds (q, u, w) c
                ≡ some ((q', u', w'), c'))
            × (queue.items q' ≡ drop (length rounds) (queue.items q))
            × Posts rounds (queue.items q) u u'
      thread_rounds-Posts rounds q u w c v h k =
          let (q', w', c', i, d, l) =
            rounds_drain print_int print_double int_text double_text lib slab uplink queue rounds
              (queue.items q) q u w c refl v h in
          (
            q',
            uplink_after lib slab uplink rounds (queue.items q) u,
            w',
            c',
            i,
            d,
            uplink_after-Posts rounds (queue.items q) u k,
          )
