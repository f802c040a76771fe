-- ===== src/Icmp/Server/Leak.antt =====
-- `icmp_command` with a used-up slab, and the sweeps after it.
use sense_firmware.Prelude.{
  ℕ, ◌^◌, ◌≤◌, ◌<◌, ◌≡◌, refl, ap, sym, ◌∙◌, List, [], ◌∷◌, Option, none, some, arith, length,
  ge→ltb, ℤ, pos, negsuc, enomem,
}
use sense_firmware.Kernel.{MsgQueue, MemSlab}
use sense_firmware.Icmp.Frame.{Frame, max_payload_size, type_command}
use sense_firmware.Icmp.Frame.Wire.{All}
use sense_firmware.Icmp.Bitmap.{max_inflight}
use sense_firmware.Icmp.Inflight.{Entry, Inflight, claim_id, timeout_handler}
use sense_firmware.Icmp.Inflight.View.{IsValid, view}
use sense_firmware.Icmp.Inflight.Claim.{pending, Claimed, claim_id-Claimed}
use sense_firmware.Icmp.Inflight.Timeout.{SentBefore, keep_fresh, timeout_handler-view}
use sense_firmware.Icmp.Server.{State, max_frames, queue_max_items, send_claimed, command}
use sense_firmware.Icmp.Server.Send.{Inv, send_frame_full}

-- Sweeps at these uptimes, in order.
unfoldable pub sweep_all : List ℕ → Inflight → Inflight
sweep_all [] st = st
sweep_all (uptime ∷ rest) st = sweep_all rest (timeout_handler (pos 0) uptime st)

keep_fresh_pending :
    (uptime : ℕ) (e : Entry) → e.timestamp ≡ 0 → keep_fresh uptime (some e) ≡ some e
keep_fresh_pending uptime e h = ground arith

keep_fresh-some :
    (uptime : ℕ) (o : Option Entry) (e : Entry) → keep_fresh uptime o ≡ some e → o ≡ some e
keep_fresh-some uptime none e h = cc
keep_fresh-some uptime (some x) e h = ground arith

-- The times from `base` on at which a sweep may run.
abbrev pub After : ℕ → List ℕ → Type 0
After base = All (λ u. (base ≤ u) × (u < 2 ^ 64))

pub sweep_all_pending :
    (uptimes : List ℕ) (base id : ℕ) (e : Entry) (st : Inflight)
    → After base uptimes
    → IsValid st
    → SentBefore base st
    → id < max_inflight
    → view st id ≡ some e
    → e.timestamp ≡ 0
    → view (sweep_all uptimes st) id ≡ some e
unfolding sweep_all
sweep_all_pending [] base id e st a v sent hid at ts = at
sweep_all_pending (u ∷ rest) base id e st a v sent hid at ts =
    sweep_all_pending rest base id e (timeout_handler (pos 0) u st) a.1 swept.0
      (λ j x hj p. sent j x hj (keep_fresh-some u (view st j) x (sym (swept.1 j hj) ∙ p))) hid
      (swept.1 id hid ∙ ap (keep_fresh u) at ∙ keep_fresh_pending u e ts) ts
  where
    swept :
        IsValid (timeout_handler (pos 0) u st)
        × ((j : ℕ)
            → j < max_inflight
            → view (timeout_handler (pos 0) u st) j ≡ keep_fresh u (view st j))
    swept = timeout_handler-view u st a.0.1 v (λ j x hj p. omega (arith, sent j x hj p, a.0.0))

module _ (slab : MemSlab Frame max_frames) (queue : MsgQueue Frame queue_max_items) where
  open slab use {num_used}
  open queue use {items}

  -- A refused call after which, whatever sweeps run, a message id that was free stays in flight.
  abbrev pub Leaked : ℕ → Option ℕ → ℕ → State slab queue → ℤ × State slab queue → Type 0
  Leaked base cb user_data s (ret, s') =
      (ret ≡ enomem)
      × (s'.tx ≡ s.tx)
      × (id : ℕ) × (view s.inflight id ≡ none)
      × ((uptimes : List ℕ)
          → After base uptimes
          → view (sweep_all uptimes s'.inflight) id ≡ some (pending cb user_data))

  leaked :
      (base target_id : ℕ) (payload : List ℕ) (cb : Option ℕ) (user_data : ℕ) (s : State slab queue)
      (r : ℤ × Inflight)
      → Inv slab queue s
      → Claimed cb user_data s.inflight r
      → SentBefore base s.inflight
      → num_used s.frames ≡ max_frames
      → (j : ℕ) → j < max_inflight
      → view s.inflight j ≡ none
      → Leaked base cb user_data s (send_claimed slab queue target_id payload s r)
  unfolding send_claimed
  leaked base target_id payload cb user_data s (negsuc n, st) v c sent u j hj free =
      absurd (c.1 j hj free)
  leaked base target_id payload cb user_data s (pos id, st) v c sent u j hj free =
      rw
        (send_frame_full slab queue (record s { inflight = st }) w type_command id target_id payload
          u)
        (
          refl,
          refl,
          id,
          c.1,
          λ uptimes a.
              sweep_all_pending uptimes base id (pending cb user_data) st a c.4 sent' c.0 here refl,
        )
    where
      w : Inv slab queue (record s { inflight = st })
      w = record {
        inflight = c.4;
        blocks = v.blocks;
        limit = v.limit;
        sem = v.sem;
        work = v.work;
        targets = v.targets;
      }

      here : view st id ≡ some (pending cb user_data)
      here = ground (arith, c.3 id c.0)

      sent' : SentBefore base st
      sent' k x hk p = ground (arith, c.3 k hk, sent k x hk)

  -- In a state with the invariant, with every block of the slab in use, a message id free, the mutex
  -- taken and a payload of at most the largest size, `icmp_command` returns -ENOMEM and queues
  -- nothing, yet that call's pending entry is in the inflight table, and no sequence of sweeps from
  -- `base` on, when all other messages had been sent, ever removes it.
  pub command_leaks_id :
      (base target_id : ℕ) (payload : List ℕ) (cb : Option ℕ) (user_data : ℕ) (s : State slab queue)
      → Inv slab queue s
      → SentBefore base s.inflight
      → length payload ≤ max_payload_size
      → num_used s.frames ≡ max_frames
      → (j : ℕ) → j < max_inflight
      → view s.inflight j ≡ none
      → Leaked base cb user_data s (command slab queue (pos 0) target_id payload cb user_data s)
  unfolding command
  command_leaks_id base target_id payload cb user_data s v sent h u j hj free =
      rw (ge→ltb max_payload_size (length payload) h) (
        leaked base target_id payload cb user_data s (claim_id cb user_data s.inflight) v
          (claim_id-Claimed cb user_data s.inflight v.inflight) sent u j hj free)
