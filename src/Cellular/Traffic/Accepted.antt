-- ===== src/Cellular/Traffic/Accepted.antt =====
-- What becomes of each call of `cellular_send_packet`, in the runs of the uplink.
use native.Mathlib.Decide.{dec_lt}
use sense_firmware.Prelude.{
  ℕ, zero, suc, ◌+◌, ◌≤◌, ◌<◌, ◌≡◌, ◌⊎◌, inl, inr, refl, ap, Bool, Bool-cases, ◌||◌, List, [], ◌∷◌,
  ◌++◌, map, Option, none, some, Option-cases, arith, length, length-take, take, drop, take-append,
  memcpy_append, ltb, ◌==◌, if◌then◌else◌, pos, einval, enomem,
}
use sense_firmware.Kernel.{MsgQueue, MemSlab}
use sense_firmware.Cellular.{Packet, State, queue_max_items, uplink_buffer_size, fill_packet}
use sense_firmware.Cellular.Uplink.{bytes_of}
use sense_firmware.Cellular.Traffic.{
  Action, calls, resumes, takes, frees, UplinkEvent, refused, started, pick, Traffic, send_begin,
  send_end, uplink_take, act,
}
use sense_firmware.Cellular.Traffic.Delivered.{Consistent, queues, send_begin-cases, length-pick}

abbrev pub starts : UplinkEvent → List (List ℕ)
starts (started bytes) = bytes ∷ []
starts _ = []

-- How many byte strings pass a test.
abbrev pub tally : (List ℕ → Bool) → List (List ℕ) → ℕ
tally test [] = 0
tally test (bytes ∷ rest) = (if test bytes then 1 else 0) + tally test rest

pub tally-append :
    (test : List ℕ → Bool) (xs ys : List (List ℕ))
    → tally test (xs ++ ys) ≡ tally test xs + tally test ys
tally-append test [] ys = omega arith
tally-append test (x ∷ xs) ys = omega (arith, tally-append test xs ys)

-- What `cellular_send_packet` may do up to `memcpy`: only arguments that it accepts get a block, which
-- then holds the bytes that it was given.
abbrev pub Answers : Action → UplinkEvent → Type 0
Answers (calls none n) event = event ≡ refused einval
Answers (calls (some bytes) n) event =
    ((0 < n)
      × (n ≤ uplink_buffer_size)
      × ((event ≡ started (take n bytes)) ⊎ (event ≡ refused enomem)))
    ⊎ (((n ≡ 0) ⊎ (uplink_buffer_size < n)) × (event ≡ refused einval))
Answers _ event = Unit

abbrev pub AllAnswer : List Action → List UplinkEvent → Type 0
AllAnswer [] [] = Unit
AllAnswer (a ∷ actions) (event ∷ events) = Answers a event × AllAnswer actions events
AllAnswer _ _ = ⊥

-- The bytes that callers hold.
abbrev pub in_hand : List Packet → List (List ℕ)
in_hand = map bytes_of

abbrev picked : (List ℕ → Bool) → Option (Packet × List Packet) → ℕ
picked test none = 0
picked test (some (p, rest)) = tally test (bytes_of p ∷ in_hand rest)

tally-pick :
    (test : List ℕ → Bool) (i : ℕ) (ps rest : List Packet) (p : Packet)
    → pick i ps ≡ some (p, rest)
    → tally test (in_hand ps) ≡ tally test (bytes_of p ∷ in_hand rest)
tally-pick test i [] rest p e = ground arith
tally-pick test zero (q ∷ ps) rest p e = ap (picked test) e
tally-pick test (suc i) (q ∷ ps) rest p e = elim (Option-cases (pick i ps)) [
  | inl h ↦ ground arith
  | inr ((r, others), h) ↦
      omega (arith, tally-pick test i ps others r h, ap (picked test) (rw h at e))
]

module _ (slab : MemSlab Packet queue_max_items) (queue : MsgQueue Packet queue_max_items) where
  open slab use {num_used, alloc, alloc_room, alloc_full}
  open queue use {get, put_room}

  module _ (storage : (x : slab.Slab) → length (alloc x).1.buffer ≡ uplink_buffer_size) where
    filled-bytes :
        (x : slab.Slab) (bytes : List ℕ) (n : ℕ)
        → n ≤ uplink_buffer_size
        → bytes_of (fill_packet slab queue (alloc x).1 (take n bytes)) ≡ take n bytes
    filled-bytes x bytes n h =
        rw
          (memcpy_append [] (alloc x).1.buffer (take n bytes)
            (omega (arith, length-take n bytes, storage x)))
          (take-append (take n bytes) (drop (length (take n bytes)) (alloc x).1.buffer))

    send_begin-Answers :
        (bytes : List ℕ) (n : ℕ) (s : State slab queue)
        → num_used s.packets ≤ queue_max_items
        → (((n ≡ 0) ⊎ (uplink_buffer_size < n))
            × (send_begin slab queue (some bytes) n s ≡ (einval, none, s)))
          ⊎ ((0 < n)
              × (n ≤ uplink_buffer_size)
              × (((p : Packet) × (packets : slab.Slab) × (send_begin slab queue (some bytes) n s
                      ≡ (pos 0, some p, record s { packets = packets }))
                    × (bytes_of p ≡ take n bytes))
                  ⊎ (send_begin slab queue (some bytes) n s ≡ (enomem, none, s))))
    unfolding send_begin
    send_begin-Answers bytes n s l = elim (Bool-cases ((n == 0) || ltb uplink_buffer_size n)) [
      | inl e ↦ inl (ground arith, rw e refl)
      | inr e ↦ elim (dec_lt (num_used s.packets) queue_max_items) [
        | yes h ↦ inr (
          ground arith,
          ground arith,
          inl (
            fill_packet slab queue (alloc s.packets).1 (take n bytes),
            (alloc s.packets).2,
            rw (e, (alloc_room s.packets h).0) refl,
            filled-bytes s.packets bytes n (ground arith),
          ),
        )
        | no h ↦ inr (
          ground arith,
          ground arith,
          inr (let (r, f) = alloc_full s.packets (omega arith) in rw (e, r, f) refl),
        )
      ]
    ]

    pub act-Answers :
        (a : Action) (t : Traffic slab queue)
        → Consistent slab queue t
        → Answers a (act slab queue a t).0
    unfolding act send_begin
    act-Answers (calls none n) t c = refl
    act-Answers (calls (some bytes) n) t c = elim (send_begin-Answers bytes n t.state c.limit) [
      | inl (r, e) ↦ inr (r, rw (e, act, e) refl)
      | inr (h, k, inl (p, packets, e, b)) ↦ inl (h, k, inl (rw (e, act) (ap started b)))
      | inr (h, k, inr e) ↦ inl (h, k, inr (rw (e, act, e) refl))
    ]
    act-Answers (resumes i) t c = tt
    act-Answers takes t c = tt
    act-Answers frees t c = tt

  -- Packets that were started or in hand were queued or are still in hand.
  abbrev pub Tallies :
      (List ℕ → Bool) → Traffic slab queue → UplinkEvent × Traffic slab queue → Type 0
  Tallies test t (event, t') =
      tally test (starts event) + tally test (in_hand t.callers)
      ≡ tally test (queues event) + tally test (in_hand t'.callers)

  module _ (test : List ℕ → Bool) (t : Traffic slab queue) (c : Consistent slab queue t) where
    calls-Tallies :
        (bytes : Option (List ℕ)) (n : ℕ) → Tallies test t (act slab queue (calls bytes n) t)
    unfolding act
    calls-Tallies bytes n = elim (send_begin-cases slab queue t c bytes n) [
      | inl (ret, e) ↦ rw (e, act) refl
      | inr (p, packets, e, _, _) ↦ rw (e, act) (omega arith)
    ]

    resumes-Tallies : (i : ℕ) → Tallies test t (act slab queue (resumes i) t)
    unfolding act send_end
    resumes-Tallies i = elim (Option-cases (pick i t.callers)) [
      | inl e ↦ rw (e, act) refl
      | inr ((p, rest), e) ↦
          let l = length-pick i t.callers rest p e in
          let (ok, r) = put_room t.state.uplink p (omega (arith, c.blocks, c.limit, l)) in
          rw (e, ok, act) (omega (arith, tally-pick test i t.callers rest p e))
    ]

    takes-Tallies : Tallies test t (act slab queue takes t)
    unfolding act uplink_take
    takes-Tallies = elim (Option-cases t.thread) [
      | inr (p, e) ↦ rw (e, act) refl
      | inl e ↦ elim (Option-cases (get t.state.uplink)) [
        | inl g ↦ rw (e, g, act) refl
        | inr ((p, q), g) ↦ rw (e, g, act) refl
      ]
    ]

    frees-Tallies : Tallies test t (act slab queue frees t)
    unfolding act
    frees-Tallies = elim (Option-cases t.thread) [
      | inl e ↦ rw (e, act) refl
      | inr (p, e) ↦ rw (e, act) refl
    ]

  pub act-Tallies :
      (test : List ℕ → Bool) (a : Action) (t : Traffic slab queue)
      → Consistent slab queue t
      → Tallies test t (act slab queue a t)
  act-Tallies test (calls bytes n) t c = calls-Tallies test t c bytes n
  act-Tallies test (resumes i) t c = resumes-Tallies test t c i
  act-Tallies test takes t c = takes-Tallies test t c
  act-Tallies test frees t c = frees-Tallies test t c
