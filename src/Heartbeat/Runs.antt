-- ===== src/Heartbeat/Runs.antt =====
-- The runs of the heartbeat.
use sense_firmware.Prelude.{
  ℕ, ◌≡◌, refl, Bool, true, false, ◌&&◌, ◌||◌, not, none, some, if◌then◌else◌, arith, ℤ,
  is_negative,
}
use sense_firmware.Heartbeat.{Heartbeat, at_rest, trigger, init_start, stop}

-- What its callers know of the heartbeat: the duration that the last call of `heartbeat_init_start`
-- was given, or the configured one before the first call, whether one of the calls succeeded, and whether
-- one did after the last call of `heartbeat_stop`.
pub record History : Type 0 where
  pub last : ℕ
  pub initialised : Bool
  pub started : Bool

-- A call succeeds if an earlier one did, or the GPIO is ready and can be configured.
abbrev pub after_start : ℕ → Bool → ℤ → History → History
after_start duration ready configure past =
    let succeeds = past.initialised || (ready && not (is_negative configure)) in
    record { last = duration; initialised = succeeds; started = succeeds }

-- A run of calls and of expiries of the timer, which run `heartbeat_trigger`, with its history.
pub data Reach (default : ℕ) : History → Heartbeat → Type 0 where
  here :
      Reach default
        (record { last = default; initialised = false; started = false })
        (at_rest default)
  starts :
      {past : History} {h : Heartbeat}
      → Reach default past h
      → (duration : ℕ) (ready : Bool) (configure : ℤ)
      → Reach default
          (after_start duration ready configure past)
          (init_start duration ready configure h).1
  expires :
      {past : History} {h : Heartbeat}
      → Reach default past h
      → (period : ℕ) (toggle : ℤ) → h.timer ≡ some period
      → Reach default past (trigger toggle h).1
  stops :
      {past : History} {h : Heartbeat}
      → Reach default past h
      → Reach default (record past { started = false }) (stop h)

-- The timer runs exactly if it was started and not stopped since, with the duration given last.
pub record IsConsistent (past : History) (h : Heartbeat) : Type 0 where
  pub duration : h.duration ≡ past.last
  pub initialised : h.initialised ≡ past.initialised
  pub timer : h.timer ≡ (if past.started then some past.last else none)
  pub once : past.started ≡ true → past.initialised ≡ true

init_start-IsConsistent :
    (past : History) (duration : ℕ) (ready : Bool) (configure : ℤ) (h : Heartbeat)
    → IsConsistent past h
    → IsConsistent
        (after_start duration ready configure past)
        (init_start duration ready configure h).1
unfolding init_start
init_start-IsConsistent past duration ready configure h v = record {
  duration = ground arith;
  initialised = ground (arith, v.initialised);
  timer = ground (arith, v.initialised, v.timer, v.once);
  once = λ e. e;
}

trigger-IsConsistent :
    (past : History) (period : ℕ) (toggle : ℤ) (h : Heartbeat)
    → h.timer ≡ some period
    → IsConsistent past h
    → IsConsistent past (trigger toggle h).1
unfolding trigger
trigger-IsConsistent past period toggle h e v = record {
  duration = ground (arith, v.duration);
  initialised = ground (arith, v.initialised);
  timer = ground (arith, e, v.duration, v.timer);
  once = v.once;
}

-- Whatever order its calls and the expiries of its timer come in, and whatever the GPIO driver returns,
-- the timer of the heartbeat runs exactly if a call of `heartbeat_init_start` succeeded after the last
-- call of `heartbeat_stop`, and then with the duration that the last call of `heartbeat_init_start` was
-- given; that duration is stored by every such call, and the heartbeat is initialised exactly if one of
-- them succeeded.
pub Reach-IsConsistent :
    (default : ℕ) (past : History) (h : Heartbeat) → Reach default past h → IsConsistent past h
unfolding stop
Reach-IsConsistent default past h here = record {
  duration = refl;
  initialised = refl;
  timer = refl;
  once = λ e. cc;
}
Reach-IsConsistent default past h (starts {past = before} {h = k} r duration ready configure) =
    init_start-IsConsistent before duration ready configure k
      (Reach-IsConsistent default before k r)
Reach-IsConsistent default past h (expires {h = k} r period toggle e) =
    trigger-IsConsistent past period toggle k e (Reach-IsConsistent default past k r)
Reach-IsConsistent default past h (stops {past = before} {h = k} r) =
    let v = Reach-IsConsistent default before k r in
    record { duration = v.duration; initialised = v.initialised; timer = refl; once = λ e. cc }
