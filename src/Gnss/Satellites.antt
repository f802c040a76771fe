-- ===== src/Gnss/Satellites.antt =====
-- What `log_satellite_stats` in cores/control/src/sensors/gnss/gnss.c counts. The flags of the modem's
-- library are tests of the flag word. The counters have 8 bits.
use sense_firmware.Prelude.{
  ℕ, ◌+◌, ◌%◌, ◌^◌, ◌≤◌, ◌<◌, ◌≡◌, ◌&&◌, Bool, true, List, [], ◌∷◌, if◌then◌else◌, length, ltb,
  arith, Bool-cases, inl, inr,
}

-- `struct nrf_modem_gnss_sv`: its `sv` and `flags`
pub record Sv : Type 0 where
  pub sv : ℕ
  pub flags : ℕ

pub record Stats : Type 0 where
  pub tracked : ℕ
  pub in_fix : ℕ
  pub unhealthy : ℕ

-- `++` on a `uint8_t`, under a condition
abbrev pub bump : Bool → ℕ → ℕ
bump b n = if b then (n + 1) % 2 ^ 8 else n

module _ (used_in_fix unhealthy_flag : ℕ → Bool) where
  -- One iteration of the loop
  unfoldable pub count_sv : Sv → Stats → Stats
  count_sv x s =
      if ltb 0 x.sv
      then record {
        tracked = bump true s.tracked;
        in_fix = bump (used_in_fix x.flags) s.in_fix;
        unhealthy = bump (unhealthy_flag x.flags) s.unhealthy;
      }
      else s

  unfoldable pub count_svs : List Sv → Stats → Stats
  count_svs [] s = s
  count_svs (x ∷ svs) s = count_svs svs (count_sv x s)

  -- `log_satellite_stats`, over the array of the frame: what it logs
  abbrev pub log_satellite_stats : List Sv → Stats
  log_satellite_stats svs = count_svs svs (record { tracked = 0; in_fix = 0; unhealthy = 0 })

-- How many satellites of a list pass a test
abbrev pub number : (Sv → Bool) → List Sv → ℕ
number test [] = 0
number test (x ∷ svs) = (if test x then 1 else 0) + number test svs

number-length : (test : Sv → Bool) (svs : List Sv) → number test svs ≤ length svs
number-length test [] = omega arith
number-length test (x ∷ svs) = elim (Bool-cases (test x)) [
  | inl e ↦ rw e (omega (arith, number-length test svs))
  | inr e ↦ rw e (omega (arith, number-length test svs))
]

-- The satellites that the frame names, and those of them with a flag
abbrev pub is_tracked : Sv → Bool
is_tracked x = ltb 0 x.sv

abbrev pub has : (ℕ → Bool) → Sv → Bool
has flag x = ltb 0 x.sv && flag x.flags

number-has : (flag : ℕ → Bool) (svs : List Sv) → number (has flag) svs ≤ number is_tracked svs
number-has flag [] = omega arith
number-has flag (x ∷ svs) = elim (Bool-cases (ltb 0 x.sv)) [
  | inr e ↦ rw e (omega (arith, number-has flag svs))
  | inl e ↦ elim (Bool-cases (flag x.flags)) [
    | inl f ↦ rw (e, f) (omega (arith, number-has flag svs))
    | inr f ↦ rw (e, f) (omega (arith, number-has flag svs))
  ]
]

module _ (used_in_fix unhealthy_flag : ℕ → Bool) where
  abbrev pub Counted : List Sv → Stats → Stats → Type 0
  Counted svs s t =
      (t.tracked ≡ s.tracked + number is_tracked svs)
      × (t.in_fix ≡ s.in_fix + number (has used_in_fix) svs)
      × (t.unhealthy ≡ s.unhealthy + number (has unhealthy_flag) svs)

  -- Room in the counters for `n` more
  abbrev Room : ℕ → Stats → Type 0
  Room n s = (s.tracked + n < 256) × (s.in_fix + n < 256) × (s.unhealthy + n < 256)

  count_sv-Counted :
      (x : Sv) (s : Stats) → Room 1 s → Counted (x ∷ []) s (count_sv used_in_fix unhealthy_flag x s)
  unfolding count_sv
  count_sv-Counted x s h = elim (Bool-cases (ltb 0 x.sv)) [
    | inr e ↦ ground arith
    | inl e ↦ elim (Bool-cases (used_in_fix x.flags)) [
      | inl f ↦ elim (Bool-cases (unhealthy_flag x.flags)) [
        | inl g ↦ ground arith
        | inr g ↦ ground arith
      ]
      | inr f ↦ elim (Bool-cases (unhealthy_flag x.flags)) [
        | inl g ↦ ground arith
        | inr g ↦ ground arith
      ]
    ]
  ]

  count_svs-Counted :
      (svs : List Sv) (s : Stats)
      → Room (length svs) s
      → Counted svs s (count_svs used_in_fix unhealthy_flag svs s)
  unfolding count_svs
  count_svs-Counted [] s h = (omega arith, omega arith, omega arith)
  count_svs-Counted (x ∷ svs) s h =
      let (a, b, c) =
        count_sv-Counted x s (omega (arith, h.0), omega (arith, h.1), omega (arith, h.2)) in
      let l = number-length is_tracked (x ∷ []) in
      let m = number-length (has used_in_fix) (x ∷ []) in
      let n = number-length (has unhealthy_flag) (x ∷ []) in
      let (a', b', c') =
        count_svs-Counted svs (count_sv used_in_fix unhealthy_flag x s)
          (omega (arith, h.0, a, l), omega (arith, h.1, b, m), omega (arith, h.2, c, n)) in
      (omega (arith, a, a'), omega (arith, b, b'), omega (arith, c, c'))

  -- With an array of fewer than 256 satellites no counter wraps around: `log_satellite_stats` logs how
  -- many satellites the frame names, how many of those are used in the fix, and how many are unhealthy;
  -- neither of the last two is more than the first.
  pub log_satellite_stats-Counted :
      (svs : List Sv)
      → length svs < 256
      → let t = log_satellite_stats used_in_fix unhealthy_flag svs in
        (t.tracked ≡ number is_tracked svs)
        × (t.in_fix ≡ number (has used_in_fix) svs)
        × (t.unhealthy ≡ number (has unhealthy_flag) svs)
        × (t.in_fix ≤ t.tracked)
        × (t.unhealthy ≤ t.tracked)
  log_satellite_stats-Counted svs h =
      let zeros : Stats = record { tracked = 0; in_fix = 0; unhealthy = 0 } in
      let (a, b, c) = count_svs-Counted svs zeros (omega arith, omega arith, omega arith) in
      (
        omega (arith, a),
        omega (arith, b),
        omega (arith, c),
        omega (arith, a, b, number-has used_in_fix svs),
        omega (arith, a, c, number-has unhealthy_flag svs),
      )
