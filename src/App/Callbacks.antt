-- ===== src/App/Callbacks.antt =====
-- The callbacks of main.c that the profile manager calls, and the entry to data mode.
use central_uart.Prelude.{
  ℕ, ◌+◌, ◌%◌, ◌^◌, ◌≤◌, ◌≡◌, refl, sym, append-nil, Bool-cases, ◌⊎◌, inl, inr, ◌∙◌, ap, true,
  false, not, ◌&&◌, ◌||◌, some, List, [], ◌∷◌, ◌++◌, arith, ◌==◌, if◌then◌else◌, length, if_both,
}
use central_uart.Chars.{ascii}
use central_uart.Profile.{ManagerError}
use central_uart.At.Reply.{tx_line}
use central_uart.At.Notify.{notify_ready, notify_receive, notify_mtu, notify_function_error}
use central_uart.App.{control_ready, data_mode, Ring, RingLaws, Kernel, State}
use central_uart.App.Output.{queue_ctrl_bytes, queue_ctrl_line, queue_data_bytes}
use central_uart.App.Escape.{is_data_mode, is_connected, output, refresh_uart_rx_flow_control}
use central_uart.App.Transparent.{put_all}

module _ {R W : Type 0} (ring : Ring R) (kernel : Kernel W) where
  -- `profile_ready`
  unfoldable pub profile_ready : State R → W → State R × W
  unfolding notify_ready
  profile_ready s w = notify_ready (output ring kernel) (
    if not (is_data_mode s.app_state) && not s.data_mode_pending_enter
        then record s { app_state = control_ready }
        else s,
    w,
  )

  -- The counters of `profile_payload_received`, of type uint32_t.
  abbrev pub count_notification : ℕ → State R → State R
  count_notification len s = record s {
    stream_stats = record (s.stream_stats) {
      notify_ops = (s.stream_stats.notify_ops + 1) % 2 ^ 32;
      bytes_ble_to_host = (s.stream_stats.bytes_ble_to_host + len) % 2 ^ 32;
    };
  }

  -- `profile_payload_received`
  unfoldable pub profile_payload_received : List ℕ → State R → W → State R × W
  profile_payload_received bytes s w =
      let counted = count_notification (length bytes) s in
      if is_data_mode s.app_state
      then queue_data_bytes ring kernel bytes counted w
      else notify_receive (output ring kernel) (some bytes) (counted, w)

  -- `profile_mtu_updated`
  unfoldable pub profile_mtu_updated : ℕ → State R → W → State R × W
  profile_mtu_updated payload_len s w = notify_mtu (output ring kernel) payload_len (s, w)

  -- `profile_error`
  unfoldable pub profile_error : ManagerError → State R → W → State R × W
  profile_error e s w = notify_function_error (output ring kernel) (
    if is_connected s.current_conn && not (is_data_mode s.app_state)
        then record s { app_state = control_ready }
        else s,
    w,
  )

module _ {R W : Type 0} (ring : Ring R) (kernel : Kernel W) where
  -- `activate_pending_data_mode_if_ready`
  unfoldable pub activate_pending_data_mode : State R → W → State R × W
  activate_pending_data_mode s w =
      let (w', now) = kernel.uptime (kernel.cancel_coalesce (kernel.cancel_retry w)) in
      let entered = record s {
        data_mode_pending_enter = false;
        data_mode_tx_flush_due = false;
        escape_state = record { active = false; count = 0 };
        last_host_rx_time_ms = now;
        stream_stats = record (s.stream_stats) {
          enter_data_mode_count = (s.stream_stats.enter_data_mode_count + 1) % 2 ^ 32;
        };
        app_state = data_mode;
      } in
      if not s.data_mode_pending_enter
        || is_data_mode s.app_state
        || not (is_connected s.current_conn)
      then (s, w)
      else if not (ring.size s.ctrl_tx_ring == 0)
      then (s, w)
      else refresh_uart_rx_flow_control ring kernel entered w'

  -- Data mode is entered only when it was asked for, on a connection, and after every byte of the
  -- control plane has been sent; nothing is held back as an escape sequence then, and the bytes that
  -- wait for the connection are kept.
  pub activate_pending_data_mode-enters :
      (s : State R) (w : W)
      → is_data_mode s.app_state ≡ false
      → is_data_mode (activate_pending_data_mode s w).0.app_state ≡ true
      → let s' = (activate_pending_data_mode s w).0 in
        (s.data_mode_pending_enter ≡ true)
        × (is_connected s.current_conn ≡ true)
        × (ring.size s.ctrl_tx_ring ≡ 0)
        × (s'.escape_state.active ≡ false)
        × (s'.data_mode_pending_enter ≡ false)
        × (s'.host_to_ble_ring ≡ s.host_to_ble_ring)
  unfolding activate_pending_data_mode refresh_uart_rx_flow_control
  activate_pending_data_mode-enters s w control e = ground arith

module _ {R W : Type 0} (ring : Ring R) (kernel : Kernel W) (capacity : ℕ)
    (laws : RingLaws ring capacity) where
  queue_data_bytes-rings :
      (bytes : List ℕ) (s : State R) (w : W)
      → length (laws.contents s.ble_to_host_ring) + length bytes ≤ capacity
      → let s' = (queue_data_bytes ring kernel bytes s w).0 in
        (laws.contents s'.ble_to_host_ring ≡ laws.contents s.ble_to_host_ring ++ bytes)
        × (s'.ctrl_tx_ring ≡ s.ctrl_tx_ring)
  unfolding queue_data_bytes
  queue_data_bytes-rings [] s w room = (sym (append-nil (laws.contents s.ble_to_host_ring)), refl)
  queue_data_bytes-rings (c ∷ bytes) s w room = (
    ground (arith, put_all ring kernel capacity laws (c ∷ bytes) s.ble_to_host_ring room),
    ground arith,
  )

  queue-ble :
      (bytes : List ℕ) (s : State R) (w : W)
      → (queue_ctrl_bytes ring kernel bytes s w).0.ble_to_host_ring ≡ s.ble_to_host_ring
  unfolding queue_ctrl_bytes
  queue-ble bytes s w = ground arith

  line-ble :
      (bytes : List ℕ) (s : State R) (w : W)
      → (queue_ctrl_line ring kernel bytes s w).0.ble_to_host_ring ≡ s.ble_to_host_ring
  unfolding queue_ctrl_line
  line-ble bytes s w =
      let (s', w') = queue_ctrl_bytes ring kernel bytes s w in
      queue-ble (ascii "\r\n") s' w' ∙ queue-ble bytes s w

  receive-ble :
      (bytes : List ℕ) (s : State R) (w : W)
      → (notify_receive (output ring kernel) (some bytes) (s, w)).0.ble_to_host_ring
        ≡ s.ble_to_host_ring
  unfolding notify_receive tx_line
  receive-ble bytes s w =
      if_both (λ (x : State R × W). x.0.ble_to_host_ring ≡ s.ble_to_host_ring) _ (s, w) _ refl
        (line-ble _ s w)

  -- While the ring to the computer has room for it, a notification is forwarded unchanged in data mode,
  -- with nothing on the control plane; in any other mode nothing of it gets to the data plane.
  pub profile_payload_received-planes :
      (bytes : List ℕ) (s : State R) (w : W)
      → length (laws.contents s.ble_to_host_ring) + length bytes ≤ capacity
      → let s' = (profile_payload_received ring kernel bytes s w).0 in
        (laws.contents s'.ble_to_host_ring ≡ (
          if is_data_mode s.app_state
          then laws.contents s.ble_to_host_ring ++ bytes
          else laws.contents s.ble_to_host_ring))
        × ((is_data_mode s.app_state ≡ false) ⊎ (s'.ctrl_tx_ring ≡ s.ctrl_tx_ring))
  unfolding profile_payload_received
  profile_payload_received-planes bytes s w room =
      let counted = count_notification ring kernel (length bytes) s in
      elim (Bool-cases (is_data_mode s.app_state)) [
        | inl on ↦
            (let (plain, ctrl) = queue_data_bytes-rings bytes counted w room in
              rw on (plain, inr ctrl))
        | inr off ↦ rw off (ap laws.contents (receive-ble bytes counted w), inl refl)
      ]
