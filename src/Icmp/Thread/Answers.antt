-- ===== src/Icmp/Thread/Answers.antt =====
-- How often response callbacks run, in every run of the server.
use sense_firmware.Prelude.{
  ℕ, ◌+◌, ◌≤◌, ◌≡◌, subst, Bool, true, List, [], ◌∷◌, ◌++◌, Option, some, arith, ℤ,
}
use sense_firmware.Kernel.{MsgQueue, MemSlab}
use sense_firmware.Icmp.Frame.{Frame}
use sense_firmware.Icmp.Server.{State, max_frames, queue_max_items, command}
use sense_firmware.Icmp.Server.Send.{Inv}
use sense_firmware.Icmp.Server.Command.{command-Inv}
use sense_firmware.Icmp.Thread.{Event, dispatch_handler}
use sense_firmware.Icmp.Thread.Invariant.{Holds, dispatch_handler-Inv}
use sense_firmware.Icmp.Thread.Interim.{
  others, Command, Interim, answers, meanwhile, count, count-append, interim-IsValid, answered,
}
use sense_firmware.Icmp.Thread.Reach.{Step, Step-Inv}
use sense_firmware.Icmp.Thread.Counts.{
  IsOther, all, Counted, all-command, all-dispatch_handler, other_all,
}

module _ (slab : MemSlab Frame max_frames) (queue : MsgQueue Frame queue_max_items) where
  -- A run from a state, with the commands that were issued and those whose response callback ran, the
  -- last ones first. A command counts as issued when it is given to `icmp_command`, whatever that
  -- returns; before the work item copies an entry, and while the response callback runs, other threads
  -- may issue commands and sweep.
  pub data Trace (s : State slab queue)
      : List Command → List Command → State slab queue → Type 0 where
    here : Trace s [] [] s
    command_step :
        {issued answered : List Command} {t : State slab queue}
        → Trace s issued answered t
        → (lock : ℤ) (target_id : ℕ) (payload : List ℕ) (cb : Option ℕ) (user_data : ℕ)
        → Trace s
            ((cb, user_data) ∷ issued)
            answered
            (command slab queue lock target_id payload cb user_data t).1
    handler_step :
        {issued answered : List Command} {t u : State slab queue} {e : Event}
        → Trace s issued answered t
        → (lock : ℤ) (first ops : List Interim) → t.submitted ≡ true
        → dispatch_handler slab queue lock (others first ops) t ≡ some (e, u)
        → Trace s (meanwhile e first ops ++ issued) (answers e ++ answered) u
    other_step :
        {issued answered : List Command} {t u : State slab queue}
        → Trace s issued answered t
        → (st : Step slab queue t u) → IsOther slab queue st
        → Trace s issued answered u

  module _ (test : Option ℕ → ℕ → Bool) where
    -- In every run of the server from a consistent state, however its operations interleave and
    -- whatever arrives, each command's response callback runs at most once: for any test of a
    -- callback and its data, the callbacks that ran and pass it, with the messages in flight that
    -- do, are at most as many as the commands that were issued and pass it, with the messages in
    -- flight at the start. The server stays consistent.
    pub answered_at_most_once :
        (s t : State slab queue) (issued answered : List Command)
        → Trace s issued answered t
        → Inv slab queue s
        → Inv slab queue t
          × (count test answered + all slab queue test t
              ≤ count test issued + all slab queue test s)
    answered_at_most_once s t issued answered here v = (v, omega arith)
    answered_at_most_once s t issued answered
          (command_step {issued = before} {answered = done} {t = m} tr lock target_id payload cb
            user_data)
          v =
        let (w, h) = answered_at_most_once s m before done tr v in
        (
          command-Inv slab queue lock target_id payload cb user_data m w,
          omega (arith, h, all-command slab queue test lock target_id payload cb user_data m w),
        )
    answered_at_most_once s t issued answered
          (handler_step {issued = before} {answered = done} {t = m} {u = u} {e = x} tr lock first
            ops busy e)
          v =
        let (w, h) = answered_at_most_once s m before done tr v in
        (
          subst (Holds (λ (o : Event × State slab queue). Inv slab queue o.1)) e (
              dispatch_handler-Inv slab queue lock (others first ops) m
                (interim-IsValid first, interim-IsValid ops) w busy),
          omega (
            arith,
            h,
            count-append test (answers x) done,
            count-append test (meanwhile x first ops) before,
            subst (Holds (Counted slab queue test first ops m)) e
                (all-dispatch_handler slab queue test lock first ops m w),
          ),
        )
    answered_at_most_once s t issued answered (other_step {t = m} tr st o) v =
        let (w, h) = answered_at_most_once s m issued answered tr v in
        (Step-Inv slab queue m t st w, omega (arith, h, other_all slab queue test m t st o w))
