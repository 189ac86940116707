-- ===== src/App/Link.antt =====
-- What the Bluetooth link has accepted, and that only a write command adds to it.
use central_uart.Prelude.{
  ℕ, ◌≡◌, refl, ◌∙◌, true, List, [], ◌++◌, append-nil, arith, Option-cases, inl, inr, Bool, ◌∷◌,
}
use central_uart.Errors.{Rc, ok, err}
use central_uart.Settings.{Config}
use central_uart.Profile
use central_uart.Profile.{Gatt}
use central_uart.Profile.Calls.{send, can_enter_data_mode}
use central_uart.App.{Ring, Kernel, State}
use central_uart.App.Escape.{
  schedule_data_mode_ble_tx, refresh_uart_rx_flow_control, flush_escape_candidate, flushed,
  plain_byte, data_byte, data_loop, handle_data_mode_rx,
}
use central_uart.App.Pump.{send_bytes, may_send}

-- The bytes of a call that returned 0.
abbrev pub granted : Rc → List ℕ → List ℕ
granted ok bytes = bytes
granted (err e) bytes = []

-- What is documented of the stack and the kernel: a write command that returns 0 has queued its bytes
-- for the link, in the order of the calls, and one that fails has queued none; timers, interrupts and
-- the clock do not touch the link.
pub record LinkLaws {U K : Type 0} (gatt : Gatt U K) (kernel : Kernel K) : Type 0 where
  pub accepted : K → List ℕ
  pub command :
      (conn handle : ℕ) (bytes : List ℕ) (k : K)
      → accepted (gatt.send_command conn handle bytes k).0
        ≡ accepted k ++ granted (gatt.send_command conn handle bytes k).1 bytes
  pub uptime : (k : K) → accepted (kernel.uptime k).0 ≡ accepted k
  pub rx_enable : (k : K) → accepted (kernel.rx_enable k) ≡ accepted k
  pub rx_disable : (k : K) → accepted (kernel.rx_disable k) ≡ accepted k
  pub submit_write : (k : K) → accepted (kernel.submit_write k) ≡ accepted k
  pub cancel_coalesce : (k : K) → accepted (kernel.cancel_coalesce k) ≡ accepted k
  pub cancel_guard : (k : K) → accepted (kernel.cancel_guard k) ≡ accepted k
  pub reschedule_retry : (n : ℕ) (k : K) → accepted (kernel.reschedule_retry n k) ≡ accepted k
  pub reschedule_coalesce : (n : ℕ) (k : K) → accepted (kernel.reschedule_coalesce n k) ≡ accepted k
  pub reschedule_guard : (n : ℕ) (k : K) → accepted (kernel.reschedule_guard n k) ≡ accepted k

module _ {U R K : Type 0} (ring : Ring R) (kernel : Kernel K) (gatt : Gatt U K)
    (link : LinkLaws gatt kernel) where
  open link use {accepted}

  -- Where data mode is possible a send leaves the manager and the application as they are, and the
  -- link has accepted its bytes exactly if it returns 0.
  pub send_bytes-accepted :
      (bytes : List ℕ) (pm : Profile.State) (s : State R) (k : K)
      → may_send ring kernel gatt pm ≡ true
      → let (pm', (s', k'), rc) = send_bytes ring kernel gatt bytes pm (s, k) in
        (pm' ≡ pm) × (s' ≡ s) × (accepted k' ≡ accepted k ++ granted rc bytes)
  unfolding send can_enter_data_mode
  send_bytes-accepted bytes pm s k may = elim (Option-cases pm.conn) [
    | inl e ↦ ground (arith, append-nil (accepted k))
    | inr (conn, e) ↦
        ground (arith, append-nil (accepted k), link.command conn pm.write_value_handle bytes k)
  ]

  pub refresh-accepted :
      (s : State R) (k : K) → accepted (refresh_uart_rx_flow_control ring kernel s k).1 ≡ accepted k
  unfolding refresh_uart_rx_flow_control
  refresh-accepted s k = ground (arith, link.rx_enable k, link.rx_disable k)

  pub schedule-accepted :
      (may : Bool) (payload_len : ℕ) (s : State R) (k : K)
      → accepted (schedule_data_mode_ble_tx ring kernel may payload_len s k).1 ≡ accepted k
  unfolding schedule_data_mode_ble_tx
  schedule-accepted may payload_len s k = ground (
    arith,
    link.cancel_coalesce k,
    link.submit_write (kernel.cancel_coalesce k),
    link.reschedule_coalesce 1 k,
  )

  pub flush-accepted :
      (may : Bool) (payload_len : ℕ) (s : State R) (k : K)
      → accepted (flush_escape_candidate ring kernel may payload_len s k).1 ≡ accepted k
  unfolding flush_escape_candidate
  flush-accepted may payload_len s k = ground (
    arith,
    schedule-accepted may payload_len (flushed ring kernel s k) (kernel.uptime k).0,
    link.uptime k,
  )

  plain-accepted :
      (guard ch now : ℕ) (s : State R) (k : K)
      → accepted (plain_byte ring kernel guard ch now s k).1 ≡ accepted k
  unfolding plain_byte
  plain-accepted guard ch now s k = ground (arith, link.reschedule_guard guard k)

  byte-accepted :
      (guard : ℕ) (may : Bool) (payload_len ch : ℕ) (s : State R) (k : K)
      → accepted (data_byte ring kernel guard may payload_len ch s k).1 ≡ accepted k
  unfolding data_byte
  byte-accepted guard may payload_len ch s k =
      let (k0, now) = kernel.uptime k in
      let k1 = kernel.cancel_guard k0 in
      let (s', k') = flush_escape_candidate ring kernel may payload_len s k1 in
      let early : accepted k1 ≡ accepted k = link.cancel_guard k0 ∙ link.uptime k in
      ground (
        arith,
        early,
        link.reschedule_guard guard k1,
        plain-accepted guard ch now s' k',
        flush-accepted may payload_len s k1,
        plain-accepted guard ch now s k0,
        link.uptime k,
      )

  loop-accepted :
      (guard : ℕ) (may : Bool) (payload_len : ℕ) (bytes : List ℕ) (s : State R) (k : K)
      → accepted (data_loop ring kernel guard may payload_len bytes s k).1 ≡ accepted k
  unfolding data_loop
  loop-accepted guard may payload_len [] s k = refl
  loop-accepted guard may payload_len (ch ∷ bytes) s k =
      let (s', k') = data_byte ring kernel guard may payload_len ch s k in
      loop-accepted guard may payload_len bytes s' k' ∙ byte-accepted guard may payload_len ch s k

  -- Receiving from the computer sends nothing by itself.
  pub rx-accepted :
      (config : Config) (may : Bool) (payload_len : ℕ) (bytes : List ℕ) (s : State R) (k : K)
      → accepted (handle_data_mode_rx ring kernel config may payload_len bytes s k).1 ≡ accepted k
  unfolding handle_data_mode_rx
  rx-accepted config may payload_len bytes s k =
      let (s1, k1) = data_loop ring kernel config.stream_guard_time_ms may payload_len bytes s k in
      let (s2, k2) = schedule_data_mode_ble_tx ring kernel may payload_len s1 k1 in
      refresh-accepted s2 k2
      ∙ schedule-accepted may payload_len s1 k1
      ∙ loop-accepted config.stream_guard_time_ms may payload_len bytes s k
