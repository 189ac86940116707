-- ===== src/App/System/Linked/Interrupts.antt =====
-- The end of a scan, advertising reports and the transmit interrupt of main.c keep data mode on a
-- connection.
use central_uart.Prelude.{
  ℕ, true, not, ◌&&◌, ◌||◌, some, arith, ◌==◌, if◌then◌else◌, if_both, if_cases, length, inl, inr,
  Option-cases,
}
use central_uart.AddrType.{AddrTypes}
use central_uart.Chars.{Text}
use central_uart.Errors.{Rc, ok, err, ealready}
use central_uart.At.Reply.{tx_line}
use central_uart.At.Notify.{notify_scan_complete, notify_scan_result}
use central_uart.App.{Address, AppState, idle, control_ready, Ring, Kernel, State}
use central_uart.App.Escape.{is_data_mode, is_connected}
use central_uart.App.Callbacks.{activate_pending_data_mode}
use central_uart.App.Scan.{
  Radio, add_device, find_index, find_scan_entry, matches_scan_filter, parse_device_name,
  is_scanning, stop_scan_internal, device_found,
}
use central_uart.App.Scan.Reports.{Report}
use central_uart.App.Uart.{tx_chunk, Driver, sent_count, send_from, service_uart_tx}
use central_uart.App.Guard.{control_mode}
use central_uart.App.System.Linked.{IsLinked, not_data, line-IsLinked}
use central_uart.App.System.Linked.Connection.{refresh-IsLinked}

ended-IsLinked :
    {R K : Type 0} (s s' : State R) (k k' : K) (rc : Rc)
    → IsLinked s
    → IsLinked s'
    → IsLinked
        (elim rc as (λ _. State R × K × Rc) [
          | ok ↦ (s', k', ok)
          | err ealready ↦ (s', k', ok)
          | err e ↦ (s, k, err e)
        ]).0
ended-IsLinked s s' k k' ok v v' = v'
ended-IsLinked s s' k k' (err ealready) v v' = v'
ended-IsLinked s s' k k' (err e) v v' = v

module _ {R K : Type 0} (ring : Ring R) (kernel : Kernel K) (radio : Radio K) where
  pub stop-IsLinked :
      (s : State R) (k : K)
      → IsLinked s
      → IsLinked (stop_scan_internal ring kernel radio true s k).0
  unfolding stop_scan_internal notify_scan_complete tx_line
  stop-IsLinked s k v =
      let P : State R × K × Rc → Type 0 = λ x. IsLinked x.0 in
      let mode : AppState = if is_connected s.current_conn then control_ready else idle in
      let stopped = record s { app_state = mode } in
      let quiet : IsLinked stopped =
        not_data stopped (control_mode (is_connected s.current_conn)) in
      let (k', rc) = radio.scan_stop (radio.cancel_scan_stop k) in
      if_both P (not (is_scanning s.app_state)) _ _ v
        (ended-IsLinked s _ k' _ rc v (line-IsLinked ring kernel _ stopped k' quiet))

module _ {R K : Type 0} (ring : Ring R) (kernel : Kernel K) (driver : Driver K) where
  activate-IsLinked :
      (s : State R) (k : K) → IsLinked s → IsLinked (activate_pending_data_mode ring kernel s k).0
  unfolding activate_pending_data_mode
  activate-IsLinked s k v =
      let P : State R × K → Type 0 = λ x. IsLinked x.0 in
      if_cases P
        (not s.data_mode_pending_enter
          || is_data_mode s.app_state
          || not (is_connected s.current_conn))
        _ _ (λ _. v)
        (λ linked.
          if_both P (not (ring.size s.ctrl_tx_ring == 0)) _ _ v
            (refresh-IsLinked ring kernel _ _ (λ _. ground arith)))

  send-kept :
      (back : R → State R) (r : R) (k : K)
      → ((r : R) → IsLinked (back r))
      → IsLinked (send_from ring kernel driver back r k).0
  send-kept back r k v =
      let P : State R × K → Type 0 = λ x. IsLinked x.0 in
      let (claimed, bytes) = ring.claim tx_chunk r in
      let (k', sent) = driver.fifo_fill bytes k in
      let left = ring.finish (sent_count sent) claimed in
      if_both P (length bytes == 0) _ _ (v claimed)
        (if_both P (sent_count sent == 0) _ _ (v left) (activate-IsLinked (back left) k' (v left)))

  pub transmit-IsLinked :
      (s : State R) (k : K) → IsLinked s → IsLinked (service_uart_tx ring kernel driver s k).0
  unfolding service_uart_tx
  transmit-IsLinked s k v =
      let P : State R × K → Type 0 = λ x. IsLinked x.0 in
      let (s1, k1) = activate_pending_data_mode ring kernel s k in
      let v1 = activate-IsLinked s k v in
      if_both P (is_data_mode s1.app_state && ring.size s1.ctrl_tx_ring == 0) _ _
        (send-kept (λ r. record s1 { ble_to_host_ring = r }) s1.ble_to_host_ring k1 (λ _. v1))
        (send-kept (λ r. record s1 { ctrl_tx_ring = r }) s1.ctrl_tx_ring k1 (λ _. v1))

module _ {R K : Type 0} (ring : Ring R) (kernel : Kernel K) (radio : Radio K)
    (types : AddrTypes) where
  add-IsLinked :
      (addr : Address) (rssi : ℕ) (name : Text) (s : State R) (k : K)
      → IsLinked s
      → IsLinked (add_device ring kernel radio types addr rssi name s k).0
  unfolding notify_scan_result tx_line
  add-IsLinked addr rssi name s k v =
      elim (Option-cases (find_index (λ d. not d.valid) s.scanned_devices)) [
        | inl full ↦ rw (full, add_device) v
        | inr (i, found) ↦ rw (found, add_device) (line-IsLinked ring kernel _ _ k v)
      ]

  pub report-IsLinked :
      (r : Report) (s : State R) (k : K)
      → IsLinked s
      → IsLinked (device_found ring kernel radio types r.addr r.rssi r.type r.ad s k).0
  unfolding device_found
  report-IsLinked r s k v =
      let P : State R × K → Type 0 = λ x. IsLinked x.0 in
      let name = parse_device_name radio r.ad in
      if_both P (not (is_scanning s.app_state)) _ _ v (
        if_both P _ _ _ v (
          if_both P (not (matches_scan_filter s.scan_filter_name (some name))) _ _ v
            (elim (Option-cases (find_scan_entry radio r.addr s.scanned_devices)) [
              | inl fresh ↦ rw fresh (add-IsLinked r.addr r.rssi name s k v)
              | inr (j, found) ↦ rw found v
            ])))
