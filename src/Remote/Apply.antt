-- ===== src/Remote/Apply.antt =====
-- Which commands take effect, and what that effect is.
use sense_firmware.Prelude.{
  ℕ, zero, suc, ◌<◌, ◌≡◌, ◌⊎◌, ◌↔◌, sym, ◌∙◌, Option-cases, inl, inr, none, some, arith, ◌==◌,
  if◌then◌else◌, ℤ,
}
use sense_firmware.Remote.{
  Command, Settings, apply_command, set_poll_rate, set_rail_state, sensor_unknown, rail_5vh,
}

-- The poll interval of a sensor by its number in `enum command_sensors`.
abbrev pub rate : Settings → ℕ → ℤ
rate c zero = c.adcs
rate c (suc zero) = c.lis3mdl
rate c (suc (suc zero)) = c.lsm6dso
rate c (suc (suc (suc n))) = c.sht4x

-- A command that sets the rate of one sensor, or the rail.
abbrev pub Accepts : Command → Settings → Settings → Type 0
Accepts cmd c c' =
    ((cmd.ty ≡ set_poll_rate)
      × (cmd.ta < sensor_unknown)
      × (v : ℤ) × (cmd.i ≡ some v)
      × ((n : ℕ) → n < sensor_unknown → rate c' n ≡ (if n == cmd.ta then v else rate c n))
      × (c'.rail ≡ c.rail)
      × (c'.rescheduled ≡ some (cmd.ta, v)))
    ⊎ ((cmd.ty ≡ set_rail_state)
        × (cmd.ta ≡ rail_5vh)
        × (cmd.b ≡ some c'.rail)
        × ((n : ℕ) → rate c' n ≡ rate c n)
        × (c'.rescheduled ≡ c.rescheduled))

rates :
    (cmd : Command) (c c' : Settings) (v : ℤ)
    → cmd.ty ≡ set_poll_rate
    → cmd.i ≡ some v
    → apply_command cmd c ≡ some c'
    → (n : ℕ) → n < sensor_unknown
    → rate c' n ≡ (if n == cmd.ta then v else rate c n)
unfolding apply_command
rates cmd c c' v t i e zero h = ground arith
rates cmd c c' v t i e (suc zero) h = ground arith
rates cmd c c' v t i e (suc (suc zero)) h = ground arith
rates cmd c c' v t i e (suc (suc (suc zero))) h = ground arith
rates cmd c c' v t i e (suc (suc (suc (suc n)))) h = absurd (omega arith)

kept_rates :
    (cmd : Command) (c c' : Settings)
    → cmd.ty ≡ set_rail_state
    → apply_command cmd c ≡ some c'
    → (n : ℕ) → rate c' n ≡ rate c n
unfolding apply_command
kept_rates cmd c c' t e zero = ground arith
kept_rates cmd c c' t e (suc zero) = ground arith
kept_rates cmd c c' t e (suc (suc zero)) = ground arith
kept_rates cmd c c' t e (suc (suc (suc n))) = ground arith

rescheduled_rate :
    (cmd : Command) (c c' : Settings) (v : ℤ)
    → cmd.ty ≡ set_poll_rate
    → cmd.i ≡ some v
    → apply_command cmd c ≡ some c'
    → c'.rescheduled ≡ some (cmd.ta, v)
unfolding apply_command
rescheduled_rate cmd c c' v t i e = ground arith

rescheduled_rail :
    (cmd : Command) (c c' : Settings)
    → cmd.ty ≡ set_rail_state
    → apply_command cmd c ≡ some c'
    → c'.rescheduled ≡ c.rescheduled
unfolding apply_command
rescheduled_rail cmd c c' t e = ground arith

type_cases :
    (cmd : Command) (c c' : Settings)
    → apply_command cmd c ≡ some c'
    → (cmd.ty ≡ set_poll_rate) ⊎ (cmd.ty ≡ set_rail_state)
unfolding apply_command
type_cases cmd c c' e = ground arith

rate_given :
    (cmd : Command) (c c' : Settings)
    → cmd.ty ≡ set_poll_rate
    → apply_command cmd c ≡ some c'
    → (cmd.ta < sensor_unknown) × (c'.rail ≡ c.rail) × ¬ (cmd.i ≡ none)
unfolding apply_command
rate_given cmd c c' t e = ground arith

rail_given :
    (cmd : Command) (c c' : Settings)
    → cmd.ty ≡ set_rail_state
    → apply_command cmd c ≡ some c'
    → (cmd.ta ≡ rail_5vh) × (cmd.b ≡ some c'.rail)
unfolding apply_command
rail_given cmd c c' t e = ground arith

-- A command that takes effect either sets the poll interval of exactly the sensor that it names,
-- which exists, to the value that it carries, reschedules that sensor with it, and leaves the rail
-- as it is; or it sets the 5VH rail, the only one, to the state that it carries, and leaves every
-- interval as it is and reschedules nothing.
pub apply_command-Accepts :
    (cmd : Command) (c c' : Settings) → apply_command cmd c ≡ some c' → Accepts cmd c c'
apply_command-Accepts cmd c c' e = elim (type_cases cmd c c' e) [
  | inl t ↦
      let (h, r, given) = rate_given cmd c c' t e in
      elim (Option-cases cmd.i) [
        | inl n ↦ absurd (given n)
        | inr (v, i) ↦
            inl (t, h, v, i, rates cmd c c' v t i e, r, rescheduled_rate cmd c c' v t i e)
      ]
  | inr t ↦
      let (h, b) = rail_given cmd c c' t e in
      inr (t, h, b, kept_rates cmd c c' t e, rescheduled_rail cmd c c' t e)
]

-- The commands that name something that exists and carry the value that their type needs.
abbrev pub Valid : Command → Type 0
Valid cmd =
    ((cmd.ty ≡ set_poll_rate) × (cmd.ta < sensor_unknown) × ¬ (cmd.i ≡ none))
    ⊎ ((cmd.ty ≡ set_rail_state) × (cmd.ta ≡ rail_5vh) × ¬ (cmd.b ≡ none))

ignored_rate :
    (cmd : Command) (c : Settings)
    → cmd.ty ≡ set_poll_rate
    → cmd.ta < sensor_unknown
    → ¬ (cmd.i ≡ none)
    → ¬ (apply_command cmd c ≡ none)
unfolding apply_command
ignored_rate cmd c t h i e = ground arith

ignored_rail :
    (cmd : Command) (c : Settings)
    → cmd.ty ≡ set_rail_state
    → cmd.ta ≡ rail_5vh
    → ¬ (cmd.b ≡ none)
    → ¬ (apply_command cmd c ≡ none)
unfolding apply_command
ignored_rail cmd c t h b e = ground arith

pub Accepts→Valid : (cmd : Command) (c c' : Settings) → Accepts cmd c c' → Valid cmd
Accepts→Valid cmd c c' (inl (t, h, v, i, _, _, _)) = inl (t, h, λ n. some_none (sym i ∙ n))
  where
    some_none : ¬ (some v ≡ none)
    some_none e = ground arith
Accepts→Valid cmd c c' (inr (t, h, b, _, _)) = inr (t, h, λ n. some_none (sym b ∙ n))
  where
    some_none : ¬ (some c'.rail ≡ none)
    some_none e = ground arith

-- A command is ignored exactly if it does not name an existing sensor together with an integer, or
-- the 5VH rail together with a Boolean, as its type demands: of an unknown type, it is always
-- ignored.
pub apply_command_ignores :
    (cmd : Command) (c : Settings) → (apply_command cmd c ≡ none) ↔ (¬ Valid cmd)
apply_command_ignores cmd c = (refuses, ignores)
  where
    refuses : apply_command cmd c ≡ none → ¬ Valid cmd
    refuses e (inl (t, h, i)) = ignored_rate cmd c t h i e
    refuses e (inr (t, h, b)) = ignored_rail cmd c t h b e

    ignores : ¬ Valid cmd → apply_command cmd c ≡ none
    ignores bad = elim (Option-cases (apply_command cmd c)) [
      | inl e ↦ e
      | inr (c', e) ↦ absurd (bad (Accepts→Valid cmd c c' (apply_command-Accepts cmd c c' e)))
    ]
