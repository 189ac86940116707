-- ===== src/App/Calm.antt =====
-- What receiving in data mode leaves alone: the claims of the ring, the mode and the connection.
use central_uart.Prelude.{ℕ, ◌≡◌, refl, ◌∙◌, Bool, List, [], ◌∷◌, arith}
use central_uart.Settings.{Config}
use central_uart.App.{Ring, RingLaws, Kernel, State}
use central_uart.App.Escape.{
  schedule_data_mode_ble_tx, refresh_uart_rx_flow_control, flushed, flush_escape_candidate,
  plain_byte, data_byte, data_loop, handle_data_mode_rx,
}

module _ {R W : Type 0} (ring : Ring R) (kernel : Kernel W) (capacity : ℕ)
    (laws : RingLaws ring capacity) where
  open laws use {claimed}

  -- What leaves the claims, the mode and the connection alone.
  pub record IsCalm (s s' : State R) : Type 0 where
    pub same_claims : claimed s'.host_to_ble_ring ≡ claimed s.host_to_ble_ring
    pub same_mode : s'.app_state ≡ s.app_state
    pub same_link : s'.current_conn ≡ s.current_conn

  schedule-IsCalm :
      (may : Bool) (payload_len : ℕ) (s : State R) (w : W)
      → IsCalm s (schedule_data_mode_ble_tx ring kernel may payload_len s w).0
  unfolding schedule_data_mode_ble_tx
  schedule-IsCalm may payload_len s w = ground arith

  refresh-IsCalm : (s : State R) (w : W) → IsCalm s (refresh_uart_rx_flow_control ring kernel s w).0
  unfolding refresh_uart_rx_flow_control
  refresh-IsCalm s w = ground arith

  IsCalm-trans : {s t u : State R} → IsCalm s t → IsCalm t u → IsCalm s u
  IsCalm-trans a b = record {
    same_claims = b.same_claims ∙ a.same_claims;
    same_mode = b.same_mode ∙ a.same_mode;
    same_link = b.same_link ∙ a.same_link;
  }

  flushed-IsCalm : (s : State R) (w : W) → IsCalm s (flushed ring kernel s w)
  flushed-IsCalm s w = record {
    same_claims = laws.put-claimed _ s.host_to_ble_ring;
    same_mode = refl;
    same_link = refl;
  }

  pub flush-IsCalm :
      (may : Bool) (payload_len : ℕ) (s : State R) (w : W)
      → IsCalm s (flush_escape_candidate ring kernel may payload_len s w).0
  unfolding flush_escape_candidate
  flush-IsCalm may payload_len s w =
      let t = flushed ring kernel s w in
      let calm =
        IsCalm-trans (flushed-IsCalm s w) (schedule-IsCalm may payload_len t (kernel.uptime w).0) in
      ground arith

  plain-IsCalm :
      (guard ch now : ℕ) (s : State R) (w : W)
      → IsCalm s (plain_byte ring kernel guard ch now s w).0
  unfolding plain_byte
  plain-IsCalm guard ch now s w = ground (arith, laws.put-claimed (ch ∷ []) s.host_to_ble_ring)

  byte-IsCalm :
      (guard : ℕ) (may : Bool) (payload_len ch : ℕ) (s : State R) (w : W)
      → IsCalm s (data_byte ring kernel guard may payload_len ch s w).0
  unfolding data_byte
  byte-IsCalm guard may payload_len ch s w =
      let (w0, now) = kernel.uptime w in
      let w1 = kernel.cancel_guard w0 in
      let (s', w') = flush_escape_candidate ring kernel may payload_len s w1 in
      let flush = flush-IsCalm may payload_len s w1 in
      let last = plain-IsCalm guard ch now s' w' in
      let plain = plain-IsCalm guard ch now s w0 in ground arith

  loop-IsCalm :
      (guard : ℕ) (may : Bool) (payload_len : ℕ) (bytes : List ℕ) (s : State R) (w : W)
      → IsCalm s (data_loop ring kernel guard may payload_len bytes s w).0
  unfolding data_loop
  loop-IsCalm guard may payload_len [] s w = record {
    same_claims = refl;
    same_mode = refl;
    same_link = refl;
  }
  loop-IsCalm guard may payload_len (ch ∷ bytes) s w =
      let (s', w') = data_byte ring kernel guard may payload_len ch s w in
      IsCalm-trans (byte-IsCalm guard may payload_len ch s w)
        (loop-IsCalm guard may payload_len bytes s' w')

  pub rx-IsCalm :
      (config : Config) (may : Bool) (payload_len : ℕ) (bytes : List ℕ) (s : State R) (w : W)
      → IsCalm s (handle_data_mode_rx ring kernel config may payload_len bytes s w).0
  unfolding handle_data_mode_rx
  rx-IsCalm config may payload_len bytes s w =
      let (s1, w1) = data_loop ring kernel config.stream_guard_time_ms may payload_len bytes s w in
      let (s2, w2) = schedule_data_mode_ble_tx ring kernel may payload_len s1 w1 in
      IsCalm-trans (loop-IsCalm config.stream_guard_time_ms may payload_len bytes s w)
        (IsCalm-trans (schedule-IsCalm may payload_len s1 w1) (refresh-IsCalm s2 w2))
