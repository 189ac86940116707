-- ===== src/App/System/Steps.antt =====
-- The whole program as a machine: interrupts, timers, callbacks of the stack and events of USB in any
-- order, and that data mode is kept on a connection by every one of them.
use central_uart.Prelude.{
  ℕ, not, ◌&&◌, Option, none, some, List, [], ◌∷◌, ltb, ◌==◌, if◌then◌else◌, if_both, length,
}
use central_uart.Profile
use central_uart.Profile.Machine
use central_uart.At.Frame.{rx_bytes-IsKept}
use central_uart.At.Reply.{tx_line}
use central_uart.At.Notify.{notify_link_params}
use central_uart.App.{State}
use central_uart.App.Escape.{rx_chunk, is_data_mode, escape_guard_work_handler}
use central_uart.App.Pump.{
  may_send, ble_write_work_handler, ble_write_coalesce_work_handler, ble_write_retry_work_handler,
}
use central_uart.App.Scan.{scan_stop_work_handler, device_found}
use central_uart.App.Scan.Reports.{Report}
use central_uart.App.Uart.{
  Driver, Usb, UsbMessage, Program, control_line_state, service_uart_tx, uart_received,
  receive_round, isr_round, usb_message_cb,
}
use central_uart.App.System.{Platform, System, on_app, app_gatt, app_callbacks}
use central_uart.App.System.Ops.{at_host}
use central_uart.App.System.Linking.{connected, disconnected, le_param_updated, is_current}
use central_uart.App.System.Linked.{IsLinked, line-IsLinked}
use central_uart.App.System.Linked.Connection.{up-IsLinked, down-IsLinked}
use central_uart.App.System.Linked.Interrupts.{stop-IsLinked, report-IsLinked, transmit-IsLinked}
use central_uart.App.System.Linked.DataMode.{rx-IsLinked, guard-IsLinked, pump-IsLinked}
use central_uart.App.System.Linked.Stack.{machine-IsLinked, at_host-IsKept}

-- A round of the UART interrupt, the work items, the callbacks of the stack, a message of USB, and any
-- call or callback of the profile manager.
pub data Event (U : Type 0) : Type 0 where
  interrupt write_work coalesce_work retry_work guard_work scan_over : Event U
  reported : Report → Event U
  link_up : ℕ → ℕ → Event U
  link_down : ℕ → ℕ → Event U
  params_updated : ℕ → ℕ → ℕ → ℕ → Event U
  profile_event : Profile.Machine.Event U → Event U
  usb_message : UsbMessage → Event U

module _ {U R K : Type 0} (p : Platform U R K) (driver : Driver K) (usb : Usb K) where
  -- The write pump, on the profile manager and the application.
  abbrev pub pump : System R K → System R K
  pump y =
      let (pm, s, k) = ble_write_work_handler p.ring p.kernel p.gatt y.manager y.app y.hardware in
      record y { manager = pm; app = s; hardware = k }

  abbrev pub manage : Profile.Machine.Event U → System R K → System R K
  manage e y =
      let (pm, (s, k)) =
        Profile.Machine.step (app_gatt p) (app_callbacks p) y.config e y.manager
          (y.app, y.hardware) in
      record y { manager = pm; app = s; hardware = k }

  abbrev pub guard : System R K → System R K
  guard y =
      on_app
        (λ (s, k).
          escape_guard_work_handler p.ring p.kernel y.config
            (may_send p.ring p.kernel p.gatt y.manager) y.manager.payload_len s k)
        y

  unfoldable pub step : Event U → Program R K → Program R K
  step interrupt x = isr_round p driver x
  step write_work (a, y) = (a, pump y)
  step coalesce_work (a, y) =
      (a, on_app (λ (s, k). ble_write_coalesce_work_handler p.ring p.kernel p.gatt s k) y)
  step retry_work (a, y) =
      (a, on_app (λ (s, k). (s, ble_write_retry_work_handler p.ring p.kernel p.gatt k)) y)
  step guard_work (a, y) = (a, guard y)
  step scan_over (a, y) =
      (a, on_app (λ (s, k). scan_stop_work_handler p.ring p.kernel p.radio s k) y)
  step (reported r) (a, y) = (
    a,
    on_app
        (λ (s, k). device_found p.ring p.kernel p.radio p.addr_types r.addr r.rssi r.type r.ad s k)
        y,
  )
  step (link_up conn status) (a, y) = (a, connected p conn status y)
  step (link_down conn reason) (a, y) = (a, disconnected p conn reason y)
  step (params_updated conn interval latency timeout) (a, y) =
      (a, le_param_updated p conn interval latency timeout y)
  step (profile_event e) (a, y) = (a, manage e y)
  step (usb_message m) (a, y) = (a, on_app (λ (s, k). usb_message_cb p.kernel usb m s k) y)

  unfoldable pub steps_run : List (Event U) → Program R K → Program R K
  steps_run [] x = x
  steps_run (e ∷ es) x = steps_run es (step e x)

module _ {U R K : Type 0} (p : Platform U R K) (driver : Driver K) where
  abbrev Good : Program R K → Type 0
  Good x = IsLinked x.1.app

  received-IsLinked :
      (bytes : List ℕ) (x : Program R K) → Good x → Good (uart_received p driver bytes x)
  unfolding uart_received
  received-IsLinked bytes (a, y) v =
      if_both Good (is_data_mode y.app.app_state) _ _
        (rx-IsLinked p.ring p.kernel y.config _ _ bytes y.app y.hardware v)
        (rx_bytes-IsKept (λ (z : System R K). IsLinked z.app) (at_host p) (at_host-IsKept p) bytes a
          y v)

  receive-IsLinked : (x : Program R K) → Good x → Good (receive_round p driver x)
  receive-IsLinked (a, y) v =
      let (k', got) = driver.fifo_read rx_chunk y.hardware in
      let read = record y { hardware = k' } in
      if_both Good
        (is_data_mode y.app.app_state && ltb (p.ring.space y.app.host_to_ble_ring) rx_chunk) _ _ v
        (taken got read v)
    where
      taken :
          (got : Option (List ℕ)) (z : System R K)
          → IsLinked z.app
          → Good (elim got as (λ _. Program R K) [
            | none ↦ (a, z)
            | some bytes ↦ if length bytes == 0 then (a, z) else uart_received p driver bytes (a, z)
          ])
      taken none z w = w
      taken (some bytes) z w =
          if_both Good (length bytes == 0) _ _ w (received-IsLinked bytes (a, z) w)

  interrupt-IsLinked : (x : Program R K) → Good x → Good (isr_round p driver x)
  unfolding isr_round
  interrupt-IsLinked (a, y) v =
      let Linked : System R K → Type 0 = λ z. IsLinked z.app in
      let (k1, tx_ready) = driver.irq_tx_ready y.hardware in
      let asked = record y { hardware = k1 } in
      let transmitted = on_app (λ (s, k). service_uart_tx p.ring p.kernel driver s k) asked in
      let served = if tx_ready then transmitted else asked in
      let after : Linked served =
        if_both Linked tx_ready transmitted asked
          (transmit-IsLinked p.ring p.kernel driver y.app k1 v) v in
      let (k2, rx_ready) = driver.irq_rx_ready served.hardware in
      let next = record served { hardware = k2 } in
      if_both Good (not rx_ready) _ _ after (receive-IsLinked (a, next) after)

module _ {U R K : Type 0} (p : Platform U R K) (driver : Driver K) (usb : Usb K) where
  usb-IsLinked :
      (m : UsbMessage) (y : System R K)
      → IsLinked y.app
      → IsLinked (usb_message_cb p.kernel usb m y.app y.hardware).0
  unfolding usb_message_cb
  usb-IsLinked (control_line_state dtr) y v =
      if_both (λ (x : State R × K). IsLinked x.0) (dtr == 0) _ _ v v
  usb-IsLinked _ y v = v

  step-IsLinked :
      (e : Event U) (x : Program R K) → IsLinked x.1.app → IsLinked (step p driver usb e x).1.app
  unfolding step le_param_updated notify_link_params tx_line scan_stop_work_handler
      ble_write_coalesce_work_handler
  step-IsLinked interrupt x v = interrupt-IsLinked p driver x v
  step-IsLinked write_work (a, y) v = pump-IsLinked p y.manager y.app y.hardware v
  step-IsLinked coalesce_work (a, y) v = v
  step-IsLinked retry_work (a, y) v = v
  step-IsLinked guard_work (a, y) v = guard-IsLinked p.ring p.kernel y.config _ _ y.app y.hardware v
  step-IsLinked scan_over (a, y) v = stop-IsLinked p.ring p.kernel p.radio y.app y.hardware v
  step-IsLinked (reported r) (a, y) v =
      report-IsLinked p.ring p.kernel p.radio p.addr_types r y.app y.hardware v
  step-IsLinked (link_up conn status) (a, y) v = up-IsLinked p conn status y v
  step-IsLinked (link_down conn reason) (a, y) v = down-IsLinked p conn reason y v
  step-IsLinked (params_updated conn interval latency timeout) (a, y) v =
      if_both (λ (z : System R K). IsLinked z.app) (is_current y.app.current_conn conn) _ _
        (line-IsLinked p.ring p.kernel _ y.app y.hardware v) v
  step-IsLinked (profile_event e) (a, y) v =
      machine-IsLinked p y.config e y.manager (y.app, y.hardware) v
  step-IsLinked (usb_message m) (a, y) v = usb-IsLinked m y v

  -- From a state that is not in data mode, or is on a connection: whatever interrupts, received bytes,
  -- timers, reports, callbacks of the stack and messages of USB follow, in any order and with any
  -- results of the stack, the flash and the driver, the program is in data mode only on a connection.
  pub steps_run-IsLinked :
      (es : List (Event U)) (x : Program R K)
      → IsLinked x.1.app
      → IsLinked (steps_run p driver usb es x).1.app
  unfolding steps_run
  steps_run-IsLinked [] x v = v
  steps_run-IsLinked (e ∷ es) x v =
      steps_run-IsLinked es (step p driver usb e x) (step-IsLinked e x v)
