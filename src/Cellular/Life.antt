-- ===== src/Cellular/Life.antt =====
-- The life of the cellular module: starting it, and the state that its thread reports.
use sense_firmware.Prelude.{
  Bool-cases, inl, inr, ℕ, ◌≡◌, ◌⊎◌, refl, Bool, true, false, Option, none, some, arith, ℤ, pos,
  einval, ebusy, is_ok, if◌then◌else◌,
}
use sense_firmware.Cellular.{
  CellularState, uninitialised, starting, running, backend_error, socket_error, remote_server_error,
  Module, is_active, init_begin, init_end, cellular_init, thread_start,
}

-- What a call of `cellular_init` did: refused, started a thread, or failed.
abbrev pub Initialises : Option ℕ → Bool → Module → ℤ × Module → Type 0
Initialises cb backend m (ret, m') =
    ((is_active m.state ≡ true) × (ret ≡ ebusy) × (m' ≡ m))
    ⊎ (((f : ℕ) × (is_active m.state ≡ false)
          × (cb ≡ some f)
          × (backend ≡ true)
          × (ret ≡ pos 0)
          × (m' ≡ record { state = starting; recv_callback = some f; thread = true }))
        ⊎ ((is_active m.state ≡ false)
            × ((cb ≡ none) ⊎ (backend ≡ false))
            × (ret ≡ einval)
            × (m'.state ≡ uninitialised)
            × (m'.thread ≡ m.thread)))

-- While its thread starts or runs, the module refuses another `cellular_init` and stays as it is.
-- Otherwise, with a callback and a backend, the call succeeds: a thread was created, the callback
-- stored and the state is STARTING; without, it returns -EINVAL and is UNINITIALISED.
pub cellular_init-Initialises :
    (cb : Option ℕ) (backend : Bool) (m : Module)
    → Initialises cb backend m (cellular_init cb backend m)
unfolding cellular_init
cellular_init-Initialises cb backend m = elim (Bool-cases (is_active m.state)) [
  | inl e ↦ (inl (e, ground arith, ground arith))
  | inr e ↦ idle cb backend e
]
  where
    idle :
        (cb : Option ℕ) (backend : Bool)
        → is_active m.state ≡ false
        → Initialises cb backend m (cellular_init cb backend m)
    idle none b e = inr (inr (e, inl refl, ground arith, ground arith, ground arith))
    idle (some f) true e = inr (inl (f, e, refl, refl, ground arith, ground arith))
    idle (some f) false e = inr (inr (e, inr refl, ground arith, ground arith, ground arith))

-- The state that each outcome of the three stages of the start leads to.
abbrev pub outcome : ℤ → ℤ → ℤ → CellularState
outcome backend resolve socket =
    if is_ok backend
    then (if is_ok resolve
        then (if is_ok socket then running else socket_error)
        else remote_server_error)
    else backend_error

-- A module that `cellular_init` started, and whose thread runs after that call has returned, is
-- RUNNING exactly if all stages of the start succeed; otherwise its state names the first stage
-- that failed. RUNNING comes with a thread and the callback, and after a failure another
-- `cellular_init` is accepted.
pub start_reports :
    (f : ℕ) (m : Module) (b r s : ℤ)
    → is_active m.state ≡ false
    → let m' = thread_start b r s (cellular_init (some f) true m).1 in
      (m'.state ≡ outcome b r s) × (m'.recv_callback ≡ some f) × (is_active m'.state ≡ m'.thread)
unfolding cellular_init thread_start
start_reports f m b r s h = (ground arith, ground arith, ground arith)

-- If the new thread of a module that was not active runs before `cellular_init` stores STARTING, as
-- it does where its priority is above the caller's, the module is left in STARTING whatever the
-- thread reported, and every later call of `cellular_init` is refused with -EBUSY, also where the
-- thread has ended.
pub preempted_init_sticks :
    (f : ℕ) (m : Module) (b r s : ℤ)
    → is_active m.state ≡ false
    → let m' = (init_end (thread_start b r s (init_begin (some f) true m).1)).1 in
      (m'.state ≡ starting)
      × ((cb : Option ℕ) (backend : Bool) → cellular_init cb backend m' ≡ (ebusy, m'))
unfolding cellular_init init_end
preempted_init_sticks f m b r s h = (refl, λ cb backend. refl)
