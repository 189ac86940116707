-- ===== src/App/Uart/Sending.antt =====
-- What the interrupt of the UART sends: `service_uart_tx` takes bytes from the front of one ring.
use central_uart.Prelude.{
  ℕ, ◌≡◌, refl, sym, ◌∙◌, ap, ap₂, Bool, true, ◌&&◌, ◌++◌, arith, ◌==◌, if_cases,
}
use central_uart.App.{Ring, RingLaws, Kernel, State}
use central_uart.App.Escape.{is_data_mode}
use central_uart.App.Callbacks.{activate_pending_data_mode}
use central_uart.App.Uart.{Driver, send_from, service_uart_tx}
use central_uart.App.Uart.Moving.{DriverLaws, IsIdle, activate-IsIdle, Moves, send_from-Moves}

module _ {R K : Type 0} (ring : Ring R) (kernel : Kernel K) (driver : Driver K) (capacity : ℕ)
    (laws : RingLaws ring capacity) (out : DriverLaws driver kernel) where
  open laws use {contents, claimed}
  open out use {written}

  -- What one run of `service_uart_tx` sends from.
  pub data Sends (s : State R) (k : K) (x : State R × K) : Type 0 where
    from_control :
        Moves ring kernel driver capacity laws out s.ctrl_tx_ring x.0.ctrl_tx_ring k x.1
        → x.0.ble_to_host_ring ≡ s.ble_to_host_ring
        → x.0.host_to_ble_ring ≡ s.host_to_ble_ring
        → Sends s k x
    from_data :
        is_data_mode x.0.app_state ≡ true
        → ring.size s.ctrl_tx_ring ≡ 0
        → Moves ring kernel driver capacity laws out s.ble_to_host_ring x.0.ble_to_host_ring k x.1
        → x.0.ctrl_tx_ring ≡ s.ctrl_tx_ring
        → x.0.host_to_ble_ring ≡ s.host_to_ble_ring
        → Sends s k x

  after-Moves :
      {q r r' : R} {j k k' : K}
      → r ≡ q
      → written k ≡ written j
      → Moves ring kernel driver capacity laws out r r' k k'
      → Moves ring kernel driver capacity laws out q r' j k'
  after-Moves same same_written moved = record {
    same_bytes = moved.same_bytes ∙ ap₂ ◌++◌ same_written (ap contents same);
    settled = moved.settled;
  }

  control-Sends :
      (s s1 : State R) (k k1 : K)
      → IsIdle ring kernel driver capacity laws out s s1 k k1
      → claimed s.ctrl_tx_ring ≡ 0
      → Sends s k
          (send_from ring kernel driver (λ r. record s1 { ctrl_tx_ring = r }) s1.ctrl_tx_ring k1)
  control-Sends s s1 k k1 idle free =
      let back : R → State R = λ r. record s1 { ctrl_tx_ring = r } in
      let (moved, kept) =
        send_from-Moves ring kernel driver capacity laws out {A = R × R} (λ t. t.ctrl_tx_ring)
          (λ t. (t.ble_to_host_ring, t.host_to_ble_ring)) back
          (s1.ble_to_host_ring, s1.host_to_ble_ring) s1.ctrl_tx_ring k1
          (λ t l. (activate-IsIdle ring kernel driver capacity laws out t l).same_ctrl)
          (λ t l e.
            ap₂ (λ a b. (a, b)) (activate-IsIdle ring kernel driver capacity laws out t l).same_ble
              (activate-IsIdle ring kernel driver capacity laws out t l).same_host
            ∙ e)
          (λ r. refl) (λ r. refl) (ap claimed idle.same_ctrl ∙ free) in
      from_control (after-Moves idle.same_ctrl idle.same_written moved)
        (ap (λ a. a.0) kept ∙ idle.same_ble) (ap (λ a. a.1) kept ∙ idle.same_host)

  data-Sends :
      (s s1 : State R) (k k1 : K)
      → IsIdle ring kernel driver capacity laws out s s1 k k1
      → claimed s.ble_to_host_ring ≡ 0
      → is_data_mode s1.app_state ≡ true
      → ring.size s1.ctrl_tx_ring ≡ 0
      → Sends s k (
          send_from ring kernel driver
            (λ r. record s1 { ble_to_host_ring = r })
            s1.ble_to_host_ring
            k1)
  data-Sends s s1 k k1 idle free mode empty =
      let back : R → State R = λ r. record s1 { ble_to_host_ring = r } in
      let keep : State R → (R × R) × Bool =
        λ t. ((t.ctrl_tx_ring, t.host_to_ble_ring), is_data_mode t.app_state) in
      let (moved, kept) =
        send_from-Moves ring kernel driver capacity laws out (λ t. t.ble_to_host_ring) keep back
          ((s1.ctrl_tx_ring, s1.host_to_ble_ring), true) s1.ble_to_host_ring k1
          (λ t l. (activate-IsIdle ring kernel driver capacity laws out t l).same_ble)
          (λ t l e.
            (let same = activate-IsIdle ring kernel driver capacity laws out t l in
              ap₂ (λ a b. (a, b))
                (ap₂ (λ a b. (a, b)) same.same_ctrl same.same_host ∙ ap (λ a. a.0) e)
                (same.stays (ap (λ a. a.1) e))))
          (λ r. refl) (λ r. ap (λ b. ((s1.ctrl_tx_ring, s1.host_to_ble_ring), b)) mode)
          (ap claimed idle.same_ble ∙ free) in
      from_data (ap (λ a. a.1) kept) (ap ring.size (sym idle.same_ctrl) ∙ empty)
        (after-Moves idle.same_ble idle.same_written moved) (ap (λ a. a.0.0) kept ∙ idle.same_ctrl)
        (ap (λ a. a.0.1) kept ∙ idle.same_host)

  -- With no claim open, one run of the transmit interrupt moves bytes from the front of one ring to what
  -- the driver has written, however much the driver takes: from that of the control plane, or, only in
  -- data mode and with nothing left on the control plane, from that of the data; every other ring is as
  -- it was and no claim of that ring is open.
  pub service_uart_tx-Sends :
      (s : State R) (k : K)
      → claimed s.ctrl_tx_ring ≡ 0
      → claimed s.ble_to_host_ring ≡ 0
      → Sends s k (service_uart_tx ring kernel driver s k)
  unfolding service_uart_tx
  service_uart_tx-Sends s k free_ctrl free_ble =
      let (s1, k1) = activate_pending_data_mode ring kernel s k in
      let idle = activate-IsIdle ring kernel driver capacity laws out s k in
      if_cases (Sends s k) (is_data_mode s1.app_state && ring.size s1.ctrl_tx_ring == 0) _ _
        (λ both. data-Sends s s1 k k1 idle free_ble (ground arith) (ground arith))
        (λ _. control-Sends s s1 k k1 idle free_ctrl)
