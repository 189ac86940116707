-- ===== src/App/Receiver.antt =====
-- The receiver of the control UART in main.c, which flow control turns off and on.
use central_uart.Prelude.{
  ℕ, ◌≡◌, refl, ◌∙◌, Bool, true, false, not, ◌&&◌, List, arith, ltb, ◌==◌, if_both, if_cases,
  length,
}
use central_uart.Chars.{ascii}
use central_uart.At.Reply.{tx_line}
use central_uart.At.Notify.{notify_data_mode, notify_disconnected}
use central_uart.App.{Ring, Kernel, State}
use central_uart.App.Output.{kick_uart_tx, queue_ctrl_bytes, queue_ctrl_line}
use central_uart.App.Escape.{
  rx_chunk, is_data_mode, clear_data_mode_session, refresh_uart_rx_flow_control, exit_data_mode,
}
use central_uart.App.Guard.{control_mode}
use central_uart.App.System.Linking.{close_session}

-- What is documented of the kernel: uart_irq_rx_enable turns the receiver on, uart_irq_rx_disable turns
-- it off, and transmission and timers do not touch it.
pub record ReceiverLaws {K : Type 0} (kernel : Kernel K) : Type 0 where
  pub receiving : K → Bool
  pub rx_enable : (k : K) → receiving (kernel.rx_enable k) ≡ true
  pub rx_disable : (k : K) → receiving (kernel.rx_disable k) ≡ false
  pub tx_enable : (k : K) → receiving (kernel.tx_enable k) ≡ receiving k
  pub cancel_retry : (k : K) → receiving (kernel.cancel_retry k) ≡ receiving k
  pub cancel_coalesce : (k : K) → receiving (kernel.cancel_coalesce k) ≡ receiving k
  pub cancel_guard : (k : K) → receiving (kernel.cancel_guard k) ≡ receiving k

module _ {R K : Type 0} (ring : Ring R) (kernel : Kernel K) (receiver : ReceiverLaws kernel) where
  open receiver use {receiving}

  -- On a UART that is ready, and whose receiver is off exactly while the pause flag is set, a refresh
  -- leaves the flag set exactly in data mode with less space than one chunk of 64 bytes, and the
  -- receiver off exactly then.
  pub refresh_uart_rx_flow_control-receiver :
      (s : State R) (k : K)
      → kernel.uart_ready k ≡ true
      → receiving k ≡ not s.control_rx_paused
      → let (s', k') = refresh_uart_rx_flow_control ring kernel s k in
        let full = is_data_mode s.app_state && ltb (ring.space s.host_to_ble_ring) rx_chunk in
        (s'.control_rx_paused ≡ full) × (receiving k' ≡ not full)
  unfolding refresh_uart_rx_flow_control
  refresh_uart_rx_flow_control-receiver s k ready agrees =
      ground (arith, receiver.rx_enable k, receiver.rx_disable k)

  -- The flag is clear and the mode is not data mode, so that no refresh touches the receiver.
  pub record IsLeft (on : Bool) (x : State R × K) : Type 0 where
    pub not_paused : x.0.control_rx_paused ≡ false
    pub mode : is_data_mode x.0.app_state ≡ false
    pub same_receiver : receiving x.1 ≡ on

  kick-IsLeft :
      (on : Bool) (s : State R) (k : K)
      → IsLeft on (s, k)
      → IsLeft on (s, kick_uart_tx ring kernel s k)
  unfolding kick_uart_tx
  kick-IsLeft on s k v =
      if_both (λ w. IsLeft on (s, w)) s.control_dtr_ready (kernel.tx_enable k) k
        (record {
          not_paused = v.not_paused;
          mode = v.mode;
          same_receiver = receiver.tx_enable k ∙ v.same_receiver;
        })
        v

  queue-IsLeft :
      (on : Bool) (bytes : List ℕ) (s : State R) (k : K)
      → IsLeft on (s, k)
      → IsLeft on (queue_ctrl_bytes ring kernel bytes s k)
  unfolding queue_ctrl_bytes
  queue-IsLeft on bytes s k v =
      let kicked = kick-IsLeft on s k v in
      if_both (IsLeft on) (length bytes == 0) _ _ v
        (record { not_paused = v.not_paused; mode = v.mode; same_receiver = kicked.same_receiver })

  line-IsLeft :
      (on : Bool) (bytes : List ℕ) (s : State R) (k : K)
      → IsLeft on (s, k)
      → IsLeft on (queue_ctrl_line ring kernel bytes s k)
  unfolding queue_ctrl_line
  line-IsLeft on bytes s k v =
      let (s', k') = queue_ctrl_bytes ring kernel bytes s k in
      queue-IsLeft on (ascii "\r\n") s' k' (queue-IsLeft on bytes s k v)

  refresh-IsLeft :
      (on : Bool) (s : State R) (k : K)
      → IsLeft on (s, k)
      → IsLeft on (refresh_uart_rx_flow_control ring kernel s k)
  unfolding refresh_uart_rx_flow_control
  refresh-IsLeft on s k v =
      let control : is_data_mode s.app_state ≡ false = v.mode in
      let clear : s.control_rx_paused ≡ false = v.not_paused in
      if_both (IsLeft on) (not (kernel.uart_ready k)) _ _ v (
        rw control
          (if_cases (IsLeft on) s.control_rx_paused _ _ (λ paused. absurd (ground arith)) (λ _. v)))

  cancelled :
      (k : K)
      → receiving (kernel.cancel_guard (kernel.cancel_coalesce (kernel.cancel_retry k)))
        ≡ receiving k
  cancelled k =
      receiver.cancel_guard (kernel.cancel_coalesce (kernel.cancel_retry k))
      ∙ receiver.cancel_coalesce (kernel.cancel_retry k)
      ∙ receiver.cancel_retry k

  exit-IsLeft : (s : State R) (k : K) → IsLeft (receiving k) (exit_data_mode ring kernel s k)
  unfolding exit_data_mode notify_data_mode clear_data_mode_session tx_line
  exit-IsLeft s k = refresh-IsLeft (receiving k) _ _ (
      kick-IsLeft (receiving k) _ _ (
        line-IsLeft (receiving k) _ _ _
          (record { not_paused = refl; mode = control_mode _; same_receiver = cancelled k })))

  close-IsLeft : (s : State R) (k : K) → IsLeft (receiving k) (close_session ring kernel s k)
  unfolding close_session notify_disconnected clear_data_mode_session tx_line
  close-IsLeft s k = refresh-IsLeft (receiving k) _ _ (
      line-IsLeft (receiving k) _ _ _
        (record { not_paused = refl; mode = refl; same_receiver = cancelled k }))

  -- Neither way out of data mode turns the receiver on: after the escape sequence and after the end of
  -- the connection the pause flag is clear and the mode is not data mode, while the receiver is as it
  -- was before, off if flow control had paused it.
  pub session_end-receiver :
      (s : State R) (k : K)
      → IsLeft (receiving k) (exit_data_mode ring kernel s k)
        × IsLeft (receiving k) (close_session ring kernel s k)
  session_end-receiver s k = (exit-IsLeft s k, close-IsLeft s k)
