-- ===== src/Cellular/Traffic/Delivered.antt =====
-- What each step of the uplink delivers.
use native.Mathlib.Decide.{dec_lt}
use sense_firmware.Prelude.{
  ℕ, zero, suc, ◌+◌, ◌≤◌, ◌<◌, ◌≡◌, ◌⊎◌, inl, inr, refl, ap, sym, ◌∙◌, Bool-cases, ◌||◌, List, [],
  ◌∷◌, ◌++◌, map, Option, none, some, Option-cases, arith, length, length-append, append-nil, take,
  ltb, ◌==◌, ℤ, pos, einval, enomem,
}
use mathlib.Core.List.{map-append}
use sense_firmware.Kernel.{MsgQueue, MemSlab}
use sense_firmware.Cellular.{Packet, queue_max_items, uplink_buffer_size, fill_packet}
use sense_firmware.Cellular.Uplink.{bytes_of, waiting}
use sense_firmware.Cellular.Traffic.{
  Action, calls, resumes, takes, frees, UplinkEvent, queued, lost, sent, pick, Traffic, send_begin,
  send_end, uplink_take, uplink_free, act,
}

-- The byte strings that an event gives to `send`, and that it queues.
abbrev pub sends : UplinkEvent → List (List ℕ)
sends (sent bytes) = bytes ∷ []
sends _ = []

abbrev pub queues : UplinkEvent → List (List ℕ)
queues (queued bytes) = bytes ∷ []
queues _ = []

abbrev pub gather : (UplinkEvent → List (List ℕ)) → List UplinkEvent → List (List ℕ)
gather f [] = []
gather f (event ∷ events) = f event ++ gather f events

abbrev pub Kept : UplinkEvent → Type 0
Kept (lost ret) = ⊥
Kept _ = Unit

abbrev pub AllKept : List UplinkEvent → Type 0
AllKept [] = Unit
AllKept (event ∷ events) = Kept event × AllKept events

-- The number of packets that the cellular thread holds.
abbrev pub held : Option Packet → ℕ
held none = 0
held (some p) = 1

pub length-pick :
    (i : ℕ) (ps rest : List Packet) (p : Packet)
    → pick i ps ≡ some (p, rest)
    → length ps ≡ length rest + 1
length-pick i [] rest p e = ground arith
length-pick zero (q ∷ ps) rest p e = ground arith
length-pick (suc i) (q ∷ ps) rest p e = elim (Option-cases (pick i ps)) [
  | inl h ↦ ground arith
  | inr ((r, others), h) ↦ ground (arith, length-pick i ps others r h)
]

module _ (slab : MemSlab Packet queue_max_items) (queue : MsgQueue Packet queue_max_items) where
  open slab use {num_used, alloc, alloc_room, alloc_full, free_used}
  open queue use {items, put, get, put_room, get_empty, get_first}

  -- The blocks in use are those that wait, that callers hold and that the thread holds.
  pub record Consistent (t : Traffic slab queue) : Type 0 where
    pub blocks :
        num_used t.state.packets ≡ length (items t.state.uplink) + length t.callers + held t.thread
    pub limit : num_used t.state.packets ≤ queue_max_items

  -- What an event does: what was sent comes first of what waited and was queued.
  abbrev pub Delivers : Traffic slab queue → UplinkEvent × Traffic slab queue → Type 0
  Delivers t (event, t') =
      Consistent t'
      × Kept event
      × (sends event ++ waiting slab queue t'.state ≡ waiting slab queue t.state ++ queues event)

  module _ (t : Traffic slab queue) (c : Consistent t) where
    abbrev W : List (List ℕ)
    W = waiting slab queue t.state

    -- What `cellular_send_packet` does up to `memcpy`: a block, or an error and nothing changed.
    pub send_begin-cases :
        (bytes : Option (List ℕ)) (n : ℕ)
        → ((ret : ℤ) × (send_begin slab queue bytes n t.state ≡ (ret, none, t.state)))
          ⊎ ((p : Packet) × (packets : slab.Slab) × (send_begin slab queue bytes n t.state
                ≡ (pos 0, some p, record t.state { packets = packets }))
              × (num_used packets ≡ num_used t.state.packets + 1)
              × (num_used t.state.packets < queue_max_items))
    unfolding send_begin
    send_begin-cases none n = inl (einval, refl)
    send_begin-cases (some bytes) n = elim (Bool-cases ((n == 0) || ltb uplink_buffer_size n)) [
      | inl e ↦ inl (einval, rw e refl)
      | inr e ↦ elim (dec_lt (num_used t.state.packets) queue_max_items) [
        | yes h ↦ inr (
          fill_packet slab queue (alloc t.state.packets).1 (take n bytes),
          (alloc t.state.packets).2,
          rw (e, (alloc_room t.state.packets h).0) refl,
          (alloc_room t.state.packets h).1,
          h,
        )
        | no h ↦ inl (
          enomem,
          rw
              (
                e,
                (alloc_full t.state.packets (omega arith)).0,
                (alloc_full t.state.packets (omega arith)).1,
              )
              refl,
        )
      ]
    ]

    calls-Delivers :
        (bytes : Option (List ℕ)) (n : ℕ) → Delivers t (act slab queue (calls bytes n) t)
    unfolding act
    calls-Delivers bytes n = elim (send_begin-cases bytes n) [
      | inl (ret, e) ↦ rw (e, act, e) (c, tt, sym (append-nil W))
      | inr (p, packets, e, u, h) ↦
          rw (e, act, e)
            (
              record { blocks = omega (arith, u, c.blocks); limit = omega (arith, u, h) },
              tt,
              sym (append-nil W),
            )
    ]

    resumes-Delivers : (i : ℕ) → Delivers t (act slab queue (resumes i) t)
    unfolding act send_end
    resumes-Delivers i = elim (Option-cases (pick i t.callers)) [
      | inl e ↦ rw (e, act) (c, tt, sym (append-nil W))
      | inr ((p, rest), e) ↦
          let l = length-pick i t.callers rest p e in
          let (ok, r) = put_room t.state.uplink p (omega (arith, c.blocks, c.limit, l)) in
          rw (e, ok, act)
            (
              record {
                blocks = omega (
                  arith,
                  c.blocks,
                  l,
                  ap length r,
                  length-append (items t.state.uplink) (p ∷ []),
                );
                limit = c.limit;
              },
              tt,
              ap (map bytes_of) r ∙ map-append bytes_of (items t.state.uplink) (p ∷ []),
            )
    ]

    takes-Delivers : Delivers t (act slab queue takes t)
    unfolding act uplink_take
    takes-Delivers = elim (Option-cases t.thread) [
      | inr (p, e) ↦ rw (e, act) (c, tt, sym (append-nil W))
      | inl e ↦ next e (items t.state.uplink) refl
    ]
      where
        next :
            t.thread ≡ none
            → (l : List Packet) → items t.state.uplink ≡ l
            → Delivers t (act slab queue takes t)
        next e [] i =
            rw (e, get_empty t.state.uplink i, act, uplink_take, get_empty t.state.uplink i)
              (c, tt, sym (append-nil W))
        next e (p ∷ ps) i =
            let (q', g, r) = get_first t.state.uplink p ps i in
            rw (e, g, act, uplink_take, g)
              (
                record {
                  blocks = omega (arith, c.blocks, ap length i, ap length r, ap held e);
                  limit = c.limit;
                },
                tt,
                rw (i, r) (sym (append-nil (map bytes_of (p ∷ ps)))),
              )

    frees-Delivers : Delivers t (act slab queue frees t)
    unfolding act uplink_free
    frees-Delivers = elim (Option-cases t.thread) [
      | inl e ↦ rw (e, act) (c, tt, sym (append-nil W))
      | inr (p, e) ↦
          rw (e, act)
            (
              record {
                blocks = omega (arith, c.blocks, ap held e, free_used t.state.packets);
                limit = omega (arith, c.limit, free_used t.state.packets);
              },
              tt,
              sym (append-nil W),
            )
    ]

  pub act-Delivers :
      (a : Action) (t : Traffic slab queue) → Consistent t → Delivers t (act slab queue a t)
  act-Delivers (calls bytes n) t c = calls-Delivers t c bytes n
  act-Delivers (resumes i) t c = resumes-Delivers t c i
  act-Delivers takes t c = takes-Delivers t c
  act-Delivers frees t c = frees-Delivers t c
