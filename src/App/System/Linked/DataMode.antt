-- ===== src/App/System/Linked/DataMode.antt =====
-- Receiving in data mode, the guard time and the write pump of main.c keep data mode on a connection.
use central_uart.Prelude.{
  ℕ, zero, suc, ◌+◌, ◌-◌, ◌∙◌, ap, Bool, not, ◌&&◌, ◌||◌, List, [], ◌∷◌, ltb, leb, ◌==◌, if_both,
  length, take,
}
use central_uart.Errors.{Rc_cases}
use central_uart.Settings.{Config}
use central_uart.Profile
use central_uart.Profile.{send_max_len}
use central_uart.App.{host_ring_size, Ring, Kernel, State}
use central_uart.App.Output.{count_backpressure, note_host_depth}
use central_uart.App.Escape.{
  is_data_mode, is_connected, elapsed, schedule_data_mode_ble_tx, refresh_uart_rx_flow_control,
  flush_escape_candidate, flushed, plain_byte, data_byte, data_loop, handle_data_mode_rx,
  exit_data_mode, escape_guard_work_handler,
}
use central_uart.App.Guard.{control_mode, exit-HasLeft}
use central_uart.App.Pump.{
  send_bytes, may_send, count_write, waits_for_more, write_loop, ble_write_work_handler,
}
use central_uart.App.System.{Platform}
use central_uart.App.System.Linked.{IsLinked, not_data, send-IsLinked}
use central_uart.App.System.Linked.Connection.{refresh-IsLinked}

module _ {R K : Type 0} (ring : Ring R) (kernel : Kernel K) where
  abbrev Good : State R × K → Type 0
  Good x = IsLinked x.0

  schedule-IsLinked :
      (may : Bool) (payload_len : ℕ) (s : State R) (k : K)
      → IsLinked s
      → Good (schedule_data_mode_ble_tx ring kernel may payload_len s k)
  unfolding schedule_data_mode_ble_tx
  schedule-IsLinked may payload_len s k v =
      if_both Good (not (is_data_mode s.app_state) || not (is_connected s.current_conn) || not may)
        _ _ v
        (if_both Good (ring.size s.host_to_ble_ring == 0) _ _ v
          (if_both Good (leb payload_len (ring.size s.host_to_ble_ring)) _ _ v v))

  flush-IsLinked :
      (may : Bool) (payload_len : ℕ) (s : State R) (k : K)
      → IsLinked s
      → Good (flush_escape_candidate ring kernel may payload_len s k)
  unfolding flush_escape_candidate
  flush-IsLinked may payload_len s k v =
      if_both Good (not s.escape_state.active || s.escape_state.count == 0) _ _ v
        (schedule-IsLinked may payload_len (flushed ring kernel s k) (kernel.uptime k).0 v)

  plain-IsLinked :
      (guard ch now : ℕ) (s : State R) (k : K)
      → IsLinked s
      → Good (plain_byte ring kernel guard ch now s k)
  unfolding plain_byte
  plain-IsLinked guard ch now s k v =
      let (r, written) = ring.put (ch ∷ []) s.host_to_ble_ring in
      let put = record s { host_to_ble_ring = r } in
      if_both Good (ch == b'+' && leb guard (elapsed now s.last_host_rx_time_ms)) _ _ v (
        if_both (λ (t : State R). IsLinked (record t { last_host_rx_time_ms = now }))
          (not (written == 1)) (count_backpressure put) (note_host_depth ring kernel put) v v)

  byte-IsLinked :
      (guard : ℕ) (may : Bool) (payload_len ch : ℕ) (s : State R) (k : K)
      → IsLinked s
      → Good (data_byte ring kernel guard may payload_len ch s k)
  unfolding data_byte
  byte-IsLinked guard may payload_len ch s k v =
      let (k0, now) = kernel.uptime k in
      let k1 = kernel.cancel_guard k0 in
      let (s', k') = flush_escape_candidate ring kernel may payload_len s k1 in
      if_both Good s.escape_state.active _ _
        (if_both Good (ch == b'+' && ltb s.escape_state.count 3) _ _ v
          (plain-IsLinked guard ch now s' k' (flush-IsLinked may payload_len s k1 v)))
        (plain-IsLinked guard ch now s k0 v)

  loop-IsLinked :
      (guard : ℕ) (may : Bool) (payload_len : ℕ) (bytes : List ℕ) (s : State R) (k : K)
      → IsLinked s
      → Good (data_loop ring kernel guard may payload_len bytes s k)
  unfolding data_loop
  loop-IsLinked guard may payload_len [] s k v = v
  loop-IsLinked guard may payload_len (ch ∷ bytes) s k v =
      let (s', k') = data_byte ring kernel guard may payload_len ch s k in
      loop-IsLinked guard may payload_len bytes s' k' (byte-IsLinked guard may payload_len ch s k v)

  pub rx-IsLinked :
      (config : Config) (may : Bool) (payload_len : ℕ) (bytes : List ℕ) (s : State R) (k : K)
      → IsLinked s
      → Good (handle_data_mode_rx ring kernel config may payload_len bytes s k)
  unfolding handle_data_mode_rx
  rx-IsLinked config may payload_len bytes s k v =
      let (s1, k1) = data_loop ring kernel config.stream_guard_time_ms may payload_len bytes s k in
      let (s2, k2) = schedule_data_mode_ble_tx ring kernel may payload_len s1 k1 in
      refresh-IsLinked ring kernel s2 k2 (
        schedule-IsLinked may payload_len s1 k1
          (loop-IsLinked config.stream_guard_time_ms may payload_len bytes s k v))

  pub guard-IsLinked :
      (config : Config) (may : Bool) (payload_len : ℕ) (s : State R) (k : K)
      → IsLinked s
      → Good (escape_guard_work_handler ring kernel config may payload_len s k)
  unfolding escape_guard_work_handler
  guard-IsLinked config may payload_len s k v =
      let (k', now) = kernel.uptime k in
      let left = exit_data_mode ring kernel s k' in
      if_both Good (not s.escape_state.active) _ _ v (
        if_both Good (s.escape_state.count == 3) _ _
          (if_both Good (ltb (elapsed now s.last_host_rx_time_ms) config.stream_guard_time_ms) _
            left v
            (not_data left.0 (
              ap is_data_mode (exit-HasLeft ring kernel s k').mode
              ∙ control_mode (is_connected s.current_conn))))
          (flush-IsLinked may payload_len s k v))

module _ {U R K : Type 0} (p : Platform U R K) where
  write_loop-IsLinked :
      (fuel : ℕ) (pm : Profile.State) (s : State R) (k : K)
      → IsLinked s
      → IsLinked (write_loop p.ring p.kernel p.gatt fuel pm s k).1
  unfolding write_loop
  write_loop-IsLinked zero pm s k v = v
  write_loop-IsLinked (suc fuel) pm s k v =
      let P : Profile.State × State R × K → Type 0 = λ x. IsLinked x.1 in
      let (r, claimed) = p.ring.claim pm.payload_len s.host_to_ble_ring in
      let chunk = take send_max_len claimed in
      let s1 = record s { host_to_ble_ring = r } in
      let (pm2, (s2, k2), rc) = send_bytes p.ring p.kernel p.gatt chunk pm (s1, k) in
      let sent : IsLinked s2 = send-IsLinked p chunk pm s1 k v in
      let counted = count_write p.ring p.kernel p.gatt (length chunk) s2 in
      let (s3, k3) = refresh_uart_rx_flow_control p.ring p.kernel counted k2 in
      if_both P (not (is_connected s.current_conn && may_send p.ring p.kernel p.gatt pm)) _ _ v (
        if_both P (p.ring.size s.host_to_ble_ring == 0) _ _ v (
          if_both P (waits_for_more p.ring p.kernel p.gatt pm s) _ _ v (
            if_both P (length chunk == 0) _ _ v (
              Rc_cases P rc _ _
                (λ _.
                  write_loop-IsLinked fuel pm2 s3 k3
                    (refresh-IsLinked p.ring p.kernel counted k2 sent))
                (λ e _. sent)))))

  pub pump-IsLinked :
      (pm : Profile.State) (s : State R) (k : K)
      → IsLinked s
      → IsLinked (ble_write_work_handler p.ring p.kernel p.gatt pm s k).1
  unfolding ble_write_work_handler
  pump-IsLinked pm s k v =
      write_loop-IsLinked (host_ring_size - p.ring.space s.host_to_ble_ring + 1) pm s k v
