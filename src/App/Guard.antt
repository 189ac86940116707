-- ===== src/App/Guard.antt =====
-- The guard time of the escape sequence, and the way out of data mode in main.c.
use central_uart.Prelude.{
  ℕ, ◌≤◌, ◌≡◌, refl, sym, subst, ◌∙◌, ap, Bool, true, false, List, arith, ltb, ◌==◌, if◌then◌else◌,
  length, Bool-cases, ◌⊎◌, inl, inr,
}
use central_uart.Chars.{ascii}
use central_uart.Settings.{Config}
use central_uart.At.Reply.{tx_line}
use central_uart.At.Notify.{notify_data_mode}
use central_uart.App.{idle, control_ready, Ring, RingLaws, Kernel, State}
use central_uart.App.Output.{queue_ctrl_bytes, queue_ctrl_line}
use central_uart.App.Escape.{
  is_data_mode, is_connected, elapsed, clear_data_mode_session, schedule_data_mode_ble_tx,
  refresh_uart_rx_flow_control, flush_escape_candidate, exit_data_mode, escape_guard_work_handler,
}
use central_uart.App.Transparent.{IsCandidate, stream, stream_off, flush-keeps}

-- The mode that data mode is left for is not data mode.
pub control_mode : (b : Bool) → is_data_mode (if b then control_ready else idle) ≡ false
control_mode true = refl
control_mode false = refl

module _ {R W : Type 0} (ring : Ring R) (kernel : Kernel W) where
  -- What has left data mode.
  pub record HasLeft (s s' : State R) : Type 0 where
    pub mode : s'.app_state ≡ (if is_connected s.current_conn then control_ready else idle)
    pub no_candidate : s'.escape_state.active ≡ false
    pub same_bytes : s'.host_to_ble_ring ≡ s.host_to_ble_ring
    pub not_pending : s'.data_mode_pending_enter ≡ false

  queue-HasLeft :
      (bytes : List ℕ) (s t : State R) (w : W)
      → HasLeft s t
      → HasLeft s (queue_ctrl_bytes ring kernel bytes t w).0
  unfolding queue_ctrl_bytes
  queue-HasLeft bytes s t w v = ground arith

  refresh-HasLeft :
      (s t : State R) (w : W)
      → HasLeft s t
      → HasLeft s (refresh_uart_rx_flow_control ring kernel t w).0
  unfolding refresh_uart_rx_flow_control
  refresh-HasLeft s t w v = ground arith

  line-HasLeft :
      (bytes : List ℕ) (s t : State R) (w : W)
      → HasLeft s t
      → HasLeft s (queue_ctrl_line ring kernel bytes t w).0
  unfolding queue_ctrl_line
  line-HasLeft bytes s t w v =
      let (t', w') = queue_ctrl_bytes ring kernel bytes t w in
      queue-HasLeft (ascii "\r\n") s t' w' (queue-HasLeft bytes s t w v)

  clear-HasLeft : (s : State R) (w : W) → HasLeft s (clear_data_mode_session ring kernel true s w).0
  unfolding clear_data_mode_session
  clear-HasLeft s w = record {
    mode = refl;
    no_candidate = refl;
    same_bytes = refl;
    not_pending = refl;
  }

  pub exit-HasLeft : (s : State R) (w : W) → HasLeft s (exit_data_mode ring kernel s w).0
  unfolding exit_data_mode notify_data_mode tx_line
  exit-HasLeft s w =
      let (t, w') = clear_data_mode_session ring kernel true s w in
      refresh-HasLeft s _ _ (line-HasLeft (ascii "+IND=DATAMODE,0") s t w' (clear-HasLeft s w))

  guard-exits :
      (config : Config) (may_send : Bool) (payload_len : ℕ) (s : State R) (w : W)
      → s.escape_state.active ≡ true
      → s.escape_state.count ≡ 3
      → ltb (elapsed (kernel.uptime w).1 s.last_host_rx_time_ms) config.stream_guard_time_ms ≡ false
      → escape_guard_work_handler ring kernel config may_send payload_len s w
        ≡ exit_data_mode ring kernel s (kernel.uptime w).0
  unfolding escape_guard_work_handler
  guard-exits config may_send payload_len s w on three late = rw (on, three, late)

  guard-waits :
      (config : Config) (may_send : Bool) (payload_len : ℕ) (s : State R) (w : W)
      → s.escape_state.count ≡ 3
      → ltb (elapsed (kernel.uptime w).1 s.last_host_rx_time_ms) config.stream_guard_time_ms ≡ true
      → (escape_guard_work_handler ring kernel config may_send payload_len s w).0 ≡ s
  unfolding escape_guard_work_handler
  guard-waits config may_send payload_len s w three early = ground arith

  guard-flushes :
      (config : Config) (may_send : Bool) (payload_len : ℕ) (s : State R) (w : W)
      → s.escape_state.active ≡ true
      → (s.escape_state.count == 3) ≡ false
      → escape_guard_work_handler ring kernel config may_send payload_len s w
        ≡ flush_escape_candidate ring kernel may_send payload_len s w
  unfolding escape_guard_work_handler
  guard-flushes config may_send payload_len s w on few = rw (on, few)

  guard-idle :
      (config : Config) (may_send : Bool) (payload_len : ℕ) (s : State R) (w : W)
      → s.escape_state.active ≡ false
      → (escape_guard_work_handler ring kernel config may_send payload_len s w).0 ≡ s
  unfolding escape_guard_work_handler
  guard-idle config may_send payload_len s w off = ground arith

module _ {R W : Type 0} (ring : Ring R) (kernel : Kernel W) (capacity : ℕ)
    (laws : RingLaws ring capacity) where
  -- The handler of the guard time leaves data mode.
  abbrev pub Exits : Config → W → State R → State R → Type 0
  Exits config w s s' =
      (s.escape_state.active ≡ true)
      × (s.escape_state.count ≡ 3)
      × (config.stream_guard_time_ms ≤ elapsed (kernel.uptime w).1 s.last_host_rx_time_ms)
      × HasLeft ring kernel s s'

  -- It stays, and no byte is lost.
  abbrev pub Stays : State R → State R → Type 0
  Stays s s' =
      (s'.app_state ≡ s.app_state)
      × (stream ring kernel capacity laws s' ≡ stream ring kernel capacity laws s)

  flush-mode :
      (may_send : Bool) (payload_len : ℕ) (s : State R) (w : W)
      → (flush_escape_candidate ring kernel may_send payload_len s w).0.app_state ≡ s.app_state
  unfolding flush_escape_candidate schedule_data_mode_ble_tx
  flush-mode may_send payload_len s w = ground arith

  -- While the ring has room for the pluses held back: the handler of the guard time leaves data mode
  -- only on three pluses that no byte has followed for the guard time, with the bytes in the ring kept;
  -- otherwise it stays, and what has been received and not sent is as it was.
  pub escape_guard_work_handler-outcome :
      (config : Config) (may_send : Bool) (payload_len : ℕ) (s : State R) (w : W)
      → IsCandidate s.escape_state
      → length (stream ring kernel capacity laws s) ≤ capacity
      → let s' = (escape_guard_work_handler ring kernel config may_send payload_len s w).0 in
        Exits config w s s' ⊎ Stays s s'
  escape_guard_work_handler-outcome config may_send payload_len s w v room =
      let late =
        ltb (elapsed (kernel.uptime w).1 s.last_host_rx_time_ms) config.stream_guard_time_ms in
      elim (Bool-cases s.escape_state.active) [
        | inr off ↦ inr (stays (guard-idle ring kernel config may_send payload_len s w off))
        | inl on ↦ elim (Bool-cases (s.escape_state.count == 3)) [
          | inr few ↦
              (let flush = guard-flushes ring kernel config may_send payload_len s w on few in
                let (same, off) =
                  flush-keeps ring kernel capacity laws may_send payload_len s w on (v on) room in
                inr (
                  subst (λ x. Stays s x.0) (sym flush)
                    (
                      flush-mode may_send payload_len s w,
                      stream_off ring kernel capacity laws
                            (flush_escape_candidate ring kernel may_send payload_len s w).0 off
                          ∙ same,
                    )))
          | inl three ↦ elim (Bool-cases late) [
            | inl early ↦ inr (
                stays
                  (guard-waits ring kernel config may_send payload_len s w (ground arith) early))
            | inr quiet ↦ inl (
              on,
              ground arith,
              ground arith,
              subst (λ x. HasLeft ring kernel s x.0)
                  (sym (
                    guard-exits ring kernel config may_send payload_len s w on (ground arith)
                      quiet))
                  (exit-HasLeft ring kernel s (kernel.uptime w).0),
            )
          ]
        ]
      ]
    where
      stays : {s' : State R} → s' ≡ s → Stays s s'
      stays e = (ap (λ t. t.app_state) e, ap (stream ring kernel capacity laws) e)
