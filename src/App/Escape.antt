-- ===== src/App/Escape.antt =====
-- Data mode in main.c: the bytes from the computer, the escape sequence `+++` with its guard times,
-- flow control, and the way back to the control mode.
use central_uart.Prelude.{
  ℕ, ◌+◌, ◌-◌, ◌%◌, ◌^◌, Bool, true, false, not, ◌&&◌, ◌||◌, Option, none, some, List, [], ◌∷◌, ltb,
  leb, ◌==◌, if◌then◌else◌, take,
}
use central_uart.Settings.{Config}
use central_uart.At.{Tx}
use central_uart.At.Notify.{notify_data_mode}
use central_uart.App.{AppState, data_mode, idle, control_ready, Ring, Kernel, State}
use central_uart.App.Output.{count_backpressure, kick_uart_tx, note_host_depth, at_tx}

-- CONTROL_UART_RX_CHUNK
abbrev pub rx_chunk : ℕ
rx_chunk = 64

-- DATA_MODE_TX_COALESCE_MS
abbrev pub coalesce_ms : ℕ
coalesce_ms = 1

abbrev pub is_data_mode : AppState → Bool
is_data_mode data_mode = true
is_data_mode _ = false

abbrev pub is_connected : Option ℕ → Bool
is_connected none = false
is_connected (some _) = true

-- `(uint64_t)(now - last_host_rx_time_ms)`
abbrev pub elapsed : ℕ → ℕ → ℕ
elapsed now last = (now + 2 ^ 64 - last) % 2 ^ 64

abbrev pub pluses : List ℕ
pluses = b'+' ∷ b'+' ∷ b'+' ∷ []

module _ {R W : Type 0} (ring : Ring R) (kernel : Kernel W) where
  -- `clear_data_mode_session`
  unfoldable pub clear_data_mode_session : Bool → State R → W → State R × W
  clear_data_mode_session reset_mode s w = (
    record s {
      ble_to_host_ring = ring.reset s.ble_to_host_ring;
      control_rx_paused = false;
      data_mode_pending_enter = false;
      data_mode_tx_flush_due = false;
      escape_state = record { active = false; count = 0 };
      app_state =
          if reset_mode
          then (if is_connected s.current_conn then control_ready else idle)
          else s.app_state;
    },
    kernel.cancel_guard (kernel.cancel_coalesce (kernel.cancel_retry w)),
  )

  -- `refresh_uart_rx_flow_control`
  unfoldable pub refresh_uart_rx_flow_control : State R → W → State R × W
  refresh_uart_rx_flow_control s w =
      let resumed = record s { control_rx_paused = false } in
      if not (kernel.uart_ready w)
      then (s, w)
      else if not (is_data_mode s.app_state)
      then (if s.control_rx_paused then (resumed, kernel.rx_enable w) else (s, w))
      else if ltb (ring.space s.host_to_ble_ring) rx_chunk
      then (if not s.control_rx_paused
          then (count_backpressure (record s { control_rx_paused = true }), kernel.rx_disable w)
          else (s, w))
      else if s.control_rx_paused
      then (resumed, kernel.rx_enable w)
      else (s, w)

  -- `schedule_data_mode_ble_tx`; `may_send` and `payload_len` are what the profile manager answers.
  unfoldable pub schedule_data_mode_ble_tx : Bool → ℕ → State R → W → State R × W
  schedule_data_mode_ble_tx may_send payload_len s w =
      let s' = record s { data_mode_tx_flush_due = false } in
      if not (is_data_mode s.app_state) || not (is_connected s.current_conn) || not may_send
      then (s, w)
      else if ring.size s.host_to_ble_ring == 0
      then (s', kernel.cancel_coalesce w)
      else if leb payload_len (ring.size s.host_to_ble_ring)
      then (s', kernel.submit_write (kernel.cancel_coalesce w))
      else (s', kernel.reschedule_coalesce coalesce_ms w)

  -- The state in which a flushed candidate is handed on.
  abbrev pub flushed : State R → W → State R
  flushed s w =
      let r = (ring.put (take s.escape_state.count pluses) s.host_to_ble_ring).0 in
      record (note_host_depth ring kernel (record s { host_to_ble_ring = r })) {
        escape_state = record { active = false; count = 0 };
        last_host_rx_time_ms = (kernel.uptime w).1;
      }

  -- `flush_escape_candidate_as_payload`
  unfoldable pub flush_escape_candidate : Bool → ℕ → State R → W → State R × W
  flush_escape_candidate may_send payload_len s w =
      if not s.escape_state.active || s.escape_state.count == 0
      then (s, w)
      else schedule_data_mode_ble_tx may_send payload_len (flushed s w) (kernel.uptime w).0

  -- A plus that may belong to the escape sequence, as its `count`-th.
  abbrev pub hold_plus : ℕ → ℕ → ℕ → State R → W → State R × W
  hold_plus guard count now s w = (
    record s { escape_state = record { active = true; count = count }; last_host_rx_time_ms = now },
    kernel.reschedule_guard guard w,
  )

  -- A byte of the payload; one that does not fit is dropped and counted.
  abbrev pub put_byte : ℕ → ℕ → State R → State R
  put_byte ch now s =
      let (r, written) = ring.put (ch ∷ []) s.host_to_ble_ring in
      let put = record s { host_to_ble_ring = r } in
      let counted =
        if not (written == 1) then count_backpressure put else note_host_depth ring kernel put in
      record counted { last_host_rx_time_ms = now }

  -- The part of the loop behind the test of `escape_state.active`.
  unfoldable pub plain_byte : ℕ → ℕ → ℕ → State R → W → State R × W
  plain_byte guard ch now s w =
      if ch == b'+' && leb guard (elapsed now s.last_host_rx_time_ms)
      then hold_plus guard 1 now s w
      else (put_byte ch now s, w)

  -- One byte of `handle_data_mode_rx`. Each path through the inner loop leaves it.
  unfoldable pub data_byte : ℕ → Bool → ℕ → ℕ → State R → W → State R × W
  unfolding plain_byte flush_escape_candidate
  data_byte guard may_send payload_len ch s w =
      let (w0, now) = kernel.uptime w in
      let w1 = kernel.cancel_guard w0 in
      let (s', w') = flush_escape_candidate may_send payload_len s w1 in
      if s.escape_state.active
      then (if ch == b'+' && ltb s.escape_state.count 3
          then hold_plus guard (s.escape_state.count + 1) now s w1
          else plain_byte guard ch now s' w')
      else plain_byte guard ch now s w0

  unfoldable pub data_loop : ℕ → Bool → ℕ → List ℕ → State R → W → State R × W
  data_loop guard may_send payload_len [] s w = (s, w)
  data_loop guard may_send payload_len (ch ∷ rest) s w =
      let (s', w') = data_byte guard may_send payload_len ch s w in
      data_loop guard may_send payload_len rest s' w'

  -- `handle_data_mode_rx`
  unfoldable pub handle_data_mode_rx : Config → Bool → ℕ → List ℕ → State R → W → State R × W
  unfolding refresh_uart_rx_flow_control schedule_data_mode_ble_tx
  handle_data_mode_rx config may_send payload_len bytes s w =
      let (s1, w1) = data_loop config.stream_guard_time_ms may_send payload_len bytes s w in
      let (s2, w2) = schedule_data_mode_ble_tx may_send payload_len s1 w1 in
      refresh_uart_rx_flow_control s2 w2

  -- The output that the application registers with the AT host.
  abbrev pub output : Option (Tx (State R × W))
  output = some (at_tx ring kernel)

  -- `exit_data_mode`
  unfoldable pub exit_data_mode : State R → W → State R × W
  unfolding clear_data_mode_session refresh_uart_rx_flow_control kick_uart_tx notify_data_mode
  exit_data_mode s w =
      let (s', w') = notify_data_mode output false (clear_data_mode_session true s w) in
      refresh_uart_rx_flow_control s' (kick_uart_tx ring kernel s' w')

  -- `escape_guard_work_handler`
  unfoldable pub escape_guard_work_handler : Config → Bool → ℕ → State R → W → State R × W
  unfolding exit_data_mode flush_escape_candidate
  escape_guard_work_handler config may_send payload_len s w =
      let guard : ℕ = config.stream_guard_time_ms in
      let (w', now) = kernel.uptime w in
      if not s.escape_state.active
      then (s, w)
      else if s.escape_state.count == 3
      then (if ltb (elapsed now s.last_host_rx_time_ms) guard
          then (s, kernel.reschedule_guard guard w')
          else exit_data_mode s w')
      else flush_escape_candidate may_send payload_len s w
