-- ===== src/App/System/Linked/Connection.antt =====
-- The connection callbacks of main.c keep data mode on a connection.
use central_uart.Prelude.{
  ℕ, not, none, some, arith, ltb, ◌==◌, if◌then◌else◌, if_both, inl, inr, Option-cases,
}
use central_uart.Errors.{Rc_cases}
use central_uart.Profile.Calls.{start}
use central_uart.At.Reply.{tx_line, emit_error}
use central_uart.At.Notify.{notify_connected, notify_disconnected, notify_function_error}
use central_uart.App.{idle, connecting, Ring, Kernel, State}
use central_uart.App.Escape.{
  rx_chunk, is_data_mode, output, refresh_uart_rx_flow_control, clear_data_mode_session,
}
use central_uart.App.System.{Platform, System, on_app, on_manager, app_gatt, app_callbacks}
use central_uart.App.System.Linking.{
  close_session, connected, disconnected, connect_failed, ask_mtu, ask_phy, ask_data_len, release,
  count_unexpected,
}
use central_uart.App.System.Linked.{IsLinked, line-IsLinked, mtu_request-IsLinked, start-IsLinked}

module _ {R K : Type 0} (ring : Ring R) (kernel : Kernel K) where
  pub refresh-IsLinked :
      (s : State R) (k : K) → IsLinked s → IsLinked (refresh_uart_rx_flow_control ring kernel s k).0
  unfolding refresh_uart_rx_flow_control
  refresh-IsLinked s k v =
      let P : State R × K → Type 0 = λ x. IsLinked x.0 in
      if_both P (not (kernel.uart_ready k)) _ _ v (
        if_both P (not (is_data_mode s.app_state)) _ _ (if_both P s.control_rx_paused _ _ v v) (
          if_both P (ltb (ring.space s.host_to_ble_ring) rx_chunk) _ _
            (if_both P (not s.control_rx_paused) _ _ v v) (if_both P s.control_rx_paused _ _ v v)))

  close-IsLinked : (s : State R) (k : K) → IsLinked (close_session ring kernel s k).0
  unfolding close_session notify_disconnected clear_data_mode_session tx_line
  close-IsLinked s k = refresh-IsLinked _ _ (line-IsLinked ring kernel _ _ _ (λ h. ground arith))

module _ {U R K : Type 0} (p : Platform U R K) where
  failed-IsLinked : (y : System R K) → IsLinked (connect_failed p y).app
  unfolding notify_function_error emit_error tx_line
  failed-IsLinked y = elim (Option-cases y.app.current_conn) [
    | inl absent ↦ rw absent (
        line-IsLinked p.ring p.kernel _ (record (y.app) { app_state = idle }) _ (λ h. ground arith))
    | inr (conn, present) ↦ rw present (
        line-IsLinked p.ring p.kernel _ (record (y.app) { current_conn = none; app_state = idle }) _
          (λ h. ground arith))
  ]

  ask-IsLinked :
      (y : System R K) → IsLinked y.app → IsLinked (ask_phy p (ask_data_len p (ask_mtu p y))).app
  ask-IsLinked y v =
      let asked = ask_mtu p y in
      let Linked : System R K → Type 0 = λ z. IsLinked z.app in
      let first : Linked asked =
        if_both Linked y.config.auto_mtu _ _
          (mtu_request-IsLinked p (some y.config) y.manager y.app y.hardware v) v in
      let second : Linked (ask_data_len p asked) =
        if_both Linked asked.config.prefer_dle _ _ first first in
      if_both Linked (ask_data_len p asked).config.prefer_2m_phy _ _ second second

  pub up-IsLinked :
      (conn status : ℕ) (y : System R K) → IsLinked y.app → IsLinked (connected p conn status y).app
  unfolding connected notify_connected notify_function_error emit_error tx_line
  up-IsLinked conn status y v =
      let P : System R K → Type 0 = λ z. IsLinked z.app in
      let told =
        on_app (notify_connected (output p.ring p.kernel))
          (record y { app = record (y.app) { app_state = connecting } }) in
      let call =
        on_manager (start (app_gatt p) (app_callbacks p) (some y.config) (some conn)) told in
      let early : P told =
        line-IsLinked p.ring p.kernel _ (record (y.app) { app_state = connecting }) y.hardware
          (λ h. ground arith) in
      let good : P call.0 =
        start-IsLinked p (some y.config) (some conn) told.manager told.app told.hardware early in
      if_both P (not (status == 0)) _ _ (failed-IsLinked y) (
        Rc_cases P call.1 _ _ (λ _. ask-IsLinked call.0 good)
          (λ e _. line-IsLinked p.ring p.kernel _ call.0.app call.0.hardware good))

  pub down-IsLinked :
      (conn reason : ℕ) (y : System R K)
      → IsLinked y.app
      → IsLinked (disconnected p conn reason y).app
  unfolding disconnected
  down-IsLinked conn reason y v =
      let counted =
        if reason == p.conns.remote_user_term
        then y
        else record y { app = count_unexpected y.app } in
      let released = release p conn counted in
      close-IsLinked p.ring p.kernel released.app released.hardware
