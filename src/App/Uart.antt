-- ===== src/App/Uart.antt =====
-- The serial side of main.c: the interrupt of the UART, the events of USB, and the start of the program.
pub mod Moving
pub mod Sending
use central_uart.Prelude.{
  ℕ, zero, suc, Bool, true, false, not, ◌&&◌, Option, none, some, List, ltb, ◌==◌, if◌then◌else◌,
  length,
}
use central_uart.Errors.{Rc, ok, err, enodev}
use central_uart.Settings.{Item}
use central_uart.Settings.Load.{settings_init}
use central_uart.Profile.Calls.{init}
use central_uart.At
use central_uart.At.Receive.{initial, rx_bytes}
use central_uart.App.{idle, Ring, Kernel, State}
use central_uart.App.Output.{count_backpressure}
use central_uart.App.Escape.{rx_chunk, is_data_mode, handle_data_mode_rx}
use central_uart.App.Callbacks.{activate_pending_data_mode}
use central_uart.App.Pump.{may_send}
use central_uart.App.System.{Platform, System, on_app, app_gatt, app_callbacks}
use central_uart.App.System.Ops.{at_host}

-- UART_TX_CHUNK
abbrev pub tx_chunk : ℕ
tx_chunk = 128

-- The UART driver in the interrupt. A negative result is `none`.
pub record Driver (K : Type 0) : Type 0 where
  pub irq_update : K → K × Bool  -- uart_irq_update
  pub irq_is_pending : K → K × Bool  -- uart_irq_is_pending
  pub irq_tx_ready : K → K × Bool  -- uart_irq_tx_ready
  pub irq_rx_ready : K → K × Bool  -- uart_irq_rx_ready
  pub fifo_fill : List ℕ → K → K × Option ℕ  -- uart_fifo_fill
  pub fifo_read : ℕ → K → K × Option (List ℕ)  -- uart_fifo_read

-- `sent > 0 ? (uint32_t)sent : 0U`
abbrev pub sent_count : Option ℕ → ℕ
sent_count none = 0
sent_count (some n) = n

module _ {R K : Type 0} (ring : Ring R) (kernel : Kernel K) (driver : Driver K) where
  -- `service_uart_tx` from the claim on, on the ring `r` that `back` puts back into the state.
  abbrev pub send_from : (R → State R) → R → K → State R × K
  send_from back r k =
      let (claimed, bytes) = ring.claim tx_chunk r in
      let (k', sent) = driver.fifo_fill bytes k in
      let s' = back (ring.finish (sent_count sent) claimed) in
      if length bytes == 0
      then (back claimed, kernel.tx_disable k)
      else if sent_count sent == 0
      then (s', kernel.tx_disable k')
      else activate_pending_data_mode ring kernel s' k'

  unfoldable pub service_uart_tx : State R → K → State R × K
  unfolding activate_pending_data_mode
  service_uart_tx s k =
      let (s1, k1) = activate_pending_data_mode ring kernel s k in
      if is_data_mode s1.app_state && ring.size s1.ctrl_tx_ring == 0
      then send_from (λ r. record s1 { ble_to_host_ring = r }) s1.ble_to_host_ring k1
      else send_from (λ r. record s1 { ctrl_tx_ring = r }) s1.ctrl_tx_ring k1

-- The whole state: that of the AT host in front of the rest.
abbrev pub Program : Type 0 → Type 0 → Type 0
Program R K = At.State × System R K

module _ {U R K : Type 0} (p : Platform U R K) (driver : Driver K) where
  -- What was read goes to data mode or to the AT host.
  unfoldable pub uart_received : List ℕ → Program R K → Program R K
  unfolding handle_data_mode_rx rx_bytes
  uart_received bytes (a, y) =
      if is_data_mode y.app.app_state
      then (
        a,
        on_app
            (λ (s, k).
              handle_data_mode_rx p.ring p.kernel y.config
                (may_send p.ring p.kernel p.gatt y.manager) y.manager.payload_len bytes s k)
            y,
      )
      else rx_bytes (at_host p) bytes a y

  -- The second half of a round of `control_uart_isr`: the receiver is ready.
  abbrev pub receive_round : Program R K → Program R K
  receive_round (a, y) =
      let (k', got) = driver.fifo_read rx_chunk y.hardware in
      let read = record y { hardware = k' } in
      if is_data_mode y.app.app_state && ltb (p.ring.space y.app.host_to_ble_ring) rx_chunk
      then (
        a,
        record y {
          app = count_backpressure (record (y.app) { control_rx_paused = true });
          hardware = p.kernel.rx_disable y.hardware;
        },
      )
      else elim got [
        | none ↦ (a, read)
        | some bytes ↦ if length bytes == 0 then (a, read) else uart_received bytes (a, read)
      ]

  -- A round of `control_uart_isr`, behind the test of the loop.
  unfoldable pub isr_round : Program R K → Program R K
  unfolding service_uart_tx uart_received
  isr_round (a, y) =
      let (k1, tx_ready) = driver.irq_tx_ready y.hardware in
      let asked = record y { hardware = k1 } in
      let served =
        if tx_ready
        then on_app (λ (s, k). service_uart_tx p.ring p.kernel driver s k) asked
        else asked in
      let (k2, rx_ready) = driver.irq_rx_ready served.hardware in
      let next = record served { hardware = k2 } in
      if not rx_ready then (a, next) else receive_round (a, next)

  -- `control_uart_isr` for at most so many rounds, and whether its loop has ended: the driver decides
  -- how long an interrupt is pending.
  unfoldable pub control_uart_isr : ℕ → Program R K → Program R K × Bool
  unfolding isr_round
  control_uart_isr zero x = (x, false)
  control_uart_isr (suc rounds) (a, y) =
      let (k1, updated) = driver.irq_update y.hardware in
      let (k2, pending) = driver.irq_is_pending k1 in
      let rest = control_uart_isr rounds (isr_round (a, record y { hardware = k2 })) in
      if not updated
      then ((a, record y { hardware = k1 }), true)
      else if not pending
      then ((a, record y { hardware = k2 }), true)
      else rest

-- `struct usbd_msg`: its type, and what `uart_line_ctrl_get` answers for DTR.
pub data UsbMessage : Type 0 where
  vbus_ready vbus_removed other_message : UsbMessage
  control_line_state : ℕ → UsbMessage

-- The USB stack and the start of the kernel; the results that main.c only logs are left out.
pub record Usb (K : Type 0) : Type 0 where
  pub can_detect_vbus : Bool  -- usbd_can_detect_vbus
  pub init_device : K → K × Bool  -- sample_usbd_init_device, false for NULL
  pub enable : K → K × Rc  -- usbd_enable
  pub disable : K → K × Rc  -- usbd_disable
  pub give_usb_ready : K → K  -- k_sem_give(&usb_ready_sem)
  pub bt_enable : K → K × Rc  -- bt_enable(bluetooth_ready)
  pub wait_ready : K → K  -- k_sem_take on both semaphores and k_msleep(100)
  pub line_ctrl_set : K → K  -- uart_line_ctrl_set for DCD and DSR
  pub irq_callback_set : K → K  -- uart_irq_callback_set(control_uart, control_uart_isr)

module _ {K : Type 0} (kernel : Kernel K) (usb : Usb K) where
  -- The power events of `usb_message_cb`
  abbrev pub vbus_event : UsbMessage → K → K
  vbus_event vbus_ready k = (usb.enable k).0
  vbus_event vbus_removed k = (usb.disable k).0
  vbus_event _ k = k

  unfoldable pub enable_usb_device_next : K → K × Rc
  enable_usb_device_next k =
      let (k1, found) = usb.init_device k in
      if not found
      then (k1, err enodev)
      else if usb.can_detect_vbus
      then (k1, ok)
      else usb.enable k1

  unfoldable pub init_control_uart : K → K × Rc
  init_control_uart k =
      if not (kernel.uart_ready k)
      then (k, err enodev)
      else (kernel.rx_enable (usb.irq_callback_set (usb.line_ctrl_set k)), ok)

module _ {R K : Type 0} (kernel : Kernel K) (usb : Usb K) where
  -- `usb_message_cb`
  unfoldable pub usb_message_cb : UsbMessage → State R → K → State R × K
  usb_message_cb (control_line_state dtr) s k =
      if dtr == 0
      then (record s { control_dtr_ready = false }, kernel.tx_disable k)
      else (record s { control_dtr_ready = true }, kernel.tx_enable (usb.give_usb_ready k))
  usb_message_cb message s k =
      (s, if usb.can_detect_vbus then vbus_event kernel usb message k else k)

module _ {U R K : Type 0} (p : Platform U R K) (usb : Usb K) where
  -- `main` up to its endless loop, and whether it gets there. `stale` is what the stored values are
  -- read over.
  unfoldable pub main : (Item → List ℕ) → System R K → Program R K × Bool
  unfolding settings_init init enable_usb_device_next init_control_uart
  main stale y =
      let (k1, now) = p.kernel.uptime y.hardware in
      let timed = record (y.app) { last_host_rx_time_ms = now } in
      let (config, k2, rc1) = settings_init p.storage stale y.config k1 in
      let loaded = record y { config = config; app = timed; hardware = k2 } in
      let pm = init (app_gatt p) (app_callbacks p) (some config) (timed, k2) in
      let managed = record loaded { manager = pm } in
      let (k3, rc2) = enable_usb_device_next p.kernel usb k2 in
      let (k4, rc3) = usb.bt_enable k3 in
      let (k5, rc4) = init_control_uart p.kernel usb (usb.wait_ready k4) in
      elim rc1 [
        | err e ↦ ((initial, loaded), false)
        | ok ↦ elim rc2 [
          | err e ↦ ((initial, record managed { hardware = k3 }), false)
          | ok ↦ elim rc3 [
            | err e ↦ ((initial, record managed { hardware = k4 }), false)
            | ok ↦ elim rc4 [
              | err e ↦ ((initial, record managed { hardware = k5 }), false)
              | ok ↦ (
                (
                  initial,
                  record managed { app = record timed { app_state = idle }; hardware = k5 },
                ),
                true,
              )
            ]
          ]
        ]
      ]
