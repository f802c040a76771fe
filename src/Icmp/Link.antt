-- ===== src/Icmp/Link.antt =====
-- The start of an ICMP server: `icmp_init` and the first part of `icmp_thread_function` in
-- lib/icmp/icmp.c, `icmp_phy_uart_init` and the other events of lib/icmp/icmp_phy_uart.c. The
-- results of the UART driver are arguments.
use sense_firmware.Prelude.{
  ℕ, ◌≡◌, refl, ◌⊎◌, inl, inr, Bool, true, false, Bool-cases, Option, some, if◌then◌else◌, ℤ, pos,
  einval, is_ok,
}

-- Whether the thread was created, the period of the timer of the timeout sweep while it runs, and
-- whether the receiver of the UART is enabled.
pub record Link : Type 0 where
  pub thread : Bool
  pub inflight_timer : Option ℕ
  pub receives : Bool

-- `icmp_init`, by whether a PHY is selected
unfoldable pub icmp_init : Bool → Link → ℤ × Link
icmp_init selected l = if selected then (pos 0, record l { thread = true }) else (einval, l)

-- `uart_rx_enable`, by its result
abbrev pub rx_enable : ℤ → Link → ℤ × Link
rx_enable enable l = (enable, if is_ok enable then record l { receives = true } else l)

-- `icmp_phy_uart_init`
unfoldable pub phy_uart_init : ℤ → ℤ → Link → ℤ × Link
phy_uart_init callback_set enable l =
    if is_ok callback_set then rx_enable enable l else (callback_set, l)

-- The UART_RX_DISABLED case of `icmp_uart_cb`: the driver stopped, and is enabled again.
unfoldable pub uart_rx_disabled : ℤ → Link → Link
uart_rx_disabled enable l = (rx_enable enable (record l { receives = false })).1

-- `icmp_thread_function` up to its loop: whether that starts, with the period of the sweeps
unfoldable pub thread_begin : ℕ → ℤ → ℤ → Link → Bool × Link
unfolding phy_uart_init
thread_begin period callback_set enable l =
    let (ret, l') = phy_uart_init callback_set enable l in
    if is_ok ret then (true, record l' { inflight_timer = some period }) else (false, l')

-- The thread, if `icmp_init` created it: whether its loop starts
unfoldable pub server_thread : ℕ → ℤ → ℤ → Link → Bool × Link
unfolding thread_begin
server_thread period callback_set enable l =
    if l.thread then thread_begin period callback_set enable l else (false, l)

-- The loop of the thread starts exactly if the callback is set and the receiver enabled, and then the
-- receiver and the timer of the sweeps run; if not, the timer stays as it was.
pub thread_begin_lem :
    (period : ℕ) (callback_set enable : ℤ) (l : Link)
    → let (starts, l') = thread_begin period callback_set enable l in
      ((is_ok callback_set ≡ true)
        × (is_ok enable ≡ true)
        × (starts ≡ true)
        × (l'.receives ≡ true)
        × (l'.inflight_timer ≡ some period))
      ⊎ ((starts ≡ false) × (l'.inflight_timer ≡ l.inflight_timer))
unfolding thread_begin phy_uart_init
thread_begin_lem period callback_set enable l = elim (Bool-cases (is_ok callback_set)) [
  | inr e ↦ inr (rw (e, e) refl, rw (e, e) refl)
  | inl e ↦ elim (Bool-cases (is_ok enable)) [
    | inr f ↦ inr (rw (e, f) refl, rw (e, f) refl)
    | inl f ↦ inl (e, f, rw (e, f) refl, rw (e, f) refl, rw (e, f) refl)
  ]
]
