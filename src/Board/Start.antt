-- ===== src/Board/Start.antt =====
-- What the start of the control core comes to.
use sense_firmware.Prelude.{
  ℕ, ◌≡◌, ◌≢◌, refl, ◌⊎◌, inl, inr, List, [], ◌∷◌, Bool, true, false, ◌||◌, Bool-cases,
  if◌then◌else◌, none, ℤ, pos, is_ok, eagain,
}
use sense_firmware.Heartbeat.{at_rest, init_start}
use sense_firmware.Board.{
  set_supply, Supplies, sense_core_init, ok, SystemState, start_heartbeat, LteEvent, nw_reg_status,
  rrc_update, other, lte_events, lib_failed, initialise_modem,
}

-- `sense_core_init` returns 0 exactly if the pin of the 5VH supply is ready, whichever of the other
-- pins are not: their results are overwritten.
pub sense_core_init_hides :
    (ready levels : Supplies)
    → (((sense_core_init ready levels).0 ≡ pos 0) × (ready.ls_5vh ≡ true))
      ⊎ (((sense_core_init ready levels).0 ≢ pos 0) × (ready.ls_5vh ≡ false))
unfolding sense_core_init set_supply
sense_core_init_hides ready levels = elim (Bool-cases ready.ls_5vh) [
  | inl e ↦ inl (rw e refl, e)
  | inr e ↦ inr (rw e (λ p. cc), e)
]

-- If the pin of the heartbeat is not ready, no heartbeat runs after the start, but its state is `ok`,
-- not `init_failed`.
pub start_heartbeat_hides :
    (default duration : ℕ) (configure : ℤ) (state : SystemState)
    → let (h, state') = start_heartbeat duration false configure (at_rest default, state) in
      (h.timer ≡ none) × (state'.heartbeat_state ≡ ok)
unfolding start_heartbeat init_start
start_heartbeat_hides default duration configure state = (refl, refl)

-- Whether one of the events says that the network registered the modem.
abbrev pub registers : List LteEvent → Bool
registers [] = false
registers (nw_reg_status true ∷ later) = true
registers (_ ∷ later) = registers later

given : (events : List LteEvent) → lte_events events true ≡ true
given [] = refl
given (nw_reg_status true ∷ later) = given later
given (nw_reg_status false ∷ later) = given later
given (rrc_update ∷ later) = given later
given (other ∷ later) = given later

lte_events_lem :
    (events : List LteEvent) (sem : Bool) → lte_events events sem ≡ (registers events || sem)
lte_events_lem [] sem = refl
lte_events_lem (nw_reg_status true ∷ later) sem = given later
lte_events_lem (nw_reg_status false ∷ later) sem = lte_events_lem later sem
lte_events_lem (rrc_update ∷ later) sem = lte_events_lem later sem
lte_events_lem (other ∷ later) sem = lte_events_lem later sem

failed : (err : ℤ) → lib_failed err ≡ true → err ≢ pos 0
failed err e p = cc

-- The modem's start succeeds exactly if the library is initialised, or was before, LTE is activated
-- and the network registers the modem before the time is over, or did so after the semaphore was
-- last taken.
pub initialise_modem_lem :
    (lib_init func_mode : ℤ) (events : List LteEvent) (sem : Bool)
    → let (ret, sem') = initialise_modem lib_init func_mode events sem in
      ((lib_failed lib_init ≡ true) × (ret ≡ lib_init) × (ret ≢ pos 0) × (sem' ≡ sem))
      ⊎ ((lib_failed lib_init ≡ false)
          × (is_ok func_mode ≡ false)
          × (ret ≡ func_mode)
          × (sem' ≡ sem))
      ⊎ ((lib_failed lib_init ≡ false)
          × (is_ok func_mode ≡ true)
          × (ret ≡ (if registers events || sem then pos 0 else eagain))
          × (sem' ≡ false))
unfolding initialise_modem
initialise_modem_lem lib_init func_mode events sem = elim (Bool-cases (lib_failed lib_init)) [
  | inl e ↦ inl (e, rw e refl, rw e (failed lib_init e), rw e refl)
  | inr e ↦ elim (Bool-cases (is_ok func_mode)) [
    | inr f ↦ inr (inl (e, f, rw (e, f) refl, rw (e, f) refl))
    | inl f ↦ elim (Bool-cases (registers events || sem)) [
      | inl g ↦ inr (
          inr (
            e,
            f,
            rw (e, f, lte_events_lem events sem, g) refl,
            rw (e, f, lte_events_lem events sem, g) refl,
          ))
      | inr g ↦ inr (
          inr (
            e,
            f,
            rw (e, f, lte_events_lem events sem, g) refl,
            rw (e, f, lte_events_lem events sem, g) refl,
          ))
    ]
  ]
]
