-- ===== src/App/System/Linking.antt =====
-- The connection callbacks of main.c.
use central_uart.Prelude.{
  ℕ, ◌+◌, ◌%◌, ◌^◌, Bool, false, not, Option, none, some, ◌==◌, if◌then◌else◌,
}
use central_uart.Errors.{ok, err}
use central_uart.Profile.Calls.{
  start, request_mtu, request_data_len, request_phy, handle_disconnected,
}
use central_uart.At.Notify.{
  notify_connected, notify_disconnected, notify_link_params, notify_function_error,
}
use central_uart.App.{idle, connecting, Ring, Kernel, State}
use central_uart.App.Escape.{clear_data_mode_session, refresh_uart_rx_flow_control, output}
use central_uart.App.System.{Platform, System, on_app, on_manager, app_gatt, app_callbacks}

-- `current_conn == conn`
abbrev pub is_current : Option ℕ → ℕ → Bool
is_current none conn = false
is_current (some current) conn = current == conn

-- `stream_stats.unexpected_disconnect_count++`, a uint32_t
abbrev pub count_unexpected : {R : Type 0} → State R → State R
count_unexpected s = record s {
  stream_stats = record (s.stream_stats) {
    unexpected_disconnect_count = (s.stream_stats.unexpected_disconnect_count + 1) % 2 ^ 32;
  };
}

module _ {R K : Type 0} (ring : Ring R) (kernel : Kernel K) where
  -- The end of `disconnected`, from the reset of the ring on.
  unfoldable pub close_session : State R → K → State R × K
  unfolding clear_data_mode_session notify_disconnected refresh_uart_rx_flow_control
  close_session s k =
      let emptied = record s { host_to_ble_ring = ring.reset s.host_to_ble_ring } in
      let (s1, k1) = clear_data_mode_session ring kernel false emptied k in
      let (s2, k2) =
        notify_disconnected (output ring kernel) (record s1 { app_state = idle }, k1) in
      refresh_uart_rx_flow_control ring kernel s2 k2

module _ {U R K : Type 0} (p : Platform U R K) where
  -- The requests at the end of `connected`, whose results are dropped.
  abbrev pub ask_mtu : System R K → System R K
  ask_mtu y =
      if y.config.auto_mtu
      then (on_manager (request_mtu (app_gatt p) (app_callbacks p) (some y.config)) y).0
      else y

  abbrev pub ask_data_len : System R K → System R K
  ask_data_len y =
      if y.config.prefer_dle
      then record y { hardware = (request_data_len p.gatt none y.manager y.hardware).0 }
      else y

  abbrev pub ask_phy : System R K → System R K
  ask_phy y =
      if y.config.prefer_2m_phy
      then record y { hardware = (request_phy p.gatt none y.manager y.hardware).0 }
      else y

  -- `connected` for an error
  abbrev pub connect_failed : System R K → System R K
  connect_failed y =
      let released : System R K = elim (y.app.current_conn) [
        | none ↦ y
        | some current ↦ record y {
          app = record (y.app) { current_conn = none };
          hardware = p.conns.unref current y.hardware;
        }
      ] in
      on_app (notify_function_error (output p.ring p.kernel))
        (record released { app = record (released.app) { app_state = idle } })

  -- `connected`; `status` is its parameter `err`.
  unfoldable pub connected : ℕ → ℕ → System R K → System R K
  unfolding notify_connected notify_function_error start request_mtu request_data_len request_phy
  connected conn status y =
      let told =
        on_app (notify_connected (output p.ring p.kernel))
          (record y { app = record (y.app) { app_state = connecting } }) in
      let (started, rc) =
        on_manager (start (app_gatt p) (app_callbacks p) (some y.config) (some conn)) told in
      if not (status == 0) then connect_failed y else elim rc [
        | err e ↦ on_app (notify_function_error (output p.ring p.kernel)) started
        | ok ↦ ask_phy (ask_data_len (ask_mtu started))
      ]

  -- The part of `disconnected` for the current connection.
  abbrev pub release : ℕ → System R K → System R K
  release conn y =
      let (pm, (s, k)) =
        handle_disconnected (app_gatt p) (app_callbacks p) (some y.config) (some conn) y.manager
          (y.app, y.hardware) in
      if is_current y.app.current_conn conn
      then record y {
        manager = pm;
        app = record s { current_conn = none };
        hardware = p.conns.unref conn k;
      }
      else y

  unfoldable pub disconnected : ℕ → ℕ → System R K → System R K
  unfolding close_session handle_disconnected
  disconnected conn reason y =
      let counted =
        if reason == p.conns.remote_user_term
        then y
        else record y { app = count_unexpected y.app } in
      on_app (λ (s, k). close_session p.ring p.kernel s k) (release conn counted)

  unfoldable pub le_param_updated : ℕ → ℕ → ℕ → ℕ → System R K → System R K
  unfolding notify_link_params
  le_param_updated conn interval latency timeout y =
      if is_current y.app.current_conn conn
      then on_app (notify_link_params (output p.ring p.kernel) interval latency timeout) y
      else y
