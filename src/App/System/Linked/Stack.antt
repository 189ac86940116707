-- ===== src/App/System/Linked/Stack.antt =====
-- The calls and callbacks of the profile manager, and what the AT host runs, keep data mode on a
-- connection.
use central_uart.Prelude.{
  ℕ, arith, subst, not, ◌&&◌, Option, none, some, List, ltb, ◌==◌, if_both, length, some_inj,
}
use central_uart.Settings.{Config}
use central_uart.Profile
use central_uart.Profile.Calls.{handle_disconnected, is_conn, when_connected_both, report_error}
use central_uart.Profile.Handlers.{notify_handler}
use central_uart.Profile.Machine
use central_uart.Profile.Machine.{
  started, disconnected, config_set, mtu_requested, sent, notified, subscribed, service_seen,
  characteristic_seen, exchanged, written, step,
}
use central_uart.Profile.Frame.{
  subscribed-IsKept, characteristic-IsKept, service-IsKept, exchanged-IsKept, written-IsKept,
}
use central_uart.At.Frame as HostFrame
use central_uart.At.Reply.{tx_line, tx_raw}
use central_uart.At.Notify.{notify_ready, notify_receive}
use central_uart.App.{control_ready, Ring, Kernel, State}
use central_uart.App.Output.{count_backpressure, note_ble_depth, queue_data_bytes}
use central_uart.App.Escape.{is_data_mode}
use central_uart.App.Callbacks.{profile_ready, profile_payload_received, count_notification}
use central_uart.App.System.{Platform, System, app_gatt, app_callbacks}
use central_uart.App.System.Ops.{at_host, op_set_profile, op_set_mtu}
use central_uart.App.System.Linked.{
  IsLinked, line-IsLinked, error-IsLinked, mtu-IsLinked, queue-IsLinked, send-IsLinked,
  mtu_request-IsLinked, start-IsLinked, reset-IsLinked,
}
use central_uart.App.System.Linked.Operations.{
  request-IsLinked, scan-IsLinked, connect-IsLinked, disconnect-IsLinked, payload-IsLinked,
  reconfigured-IsLinked, params-IsLinked, enter-IsLinked,
}

module _ {R K : Type 0} (ring : Ring R) (kernel : Kernel K) where
  ready-IsLinked : (s : State R) (k : K) → IsLinked s → IsLinked (profile_ready ring kernel s k).0
  unfolding profile_ready notify_ready tx_line
  ready-IsLinked s k v = line-IsLinked ring kernel _ _ k (
      if_both IsLinked (not (is_data_mode s.app_state) && not s.data_mode_pending_enter)
        (record s { app_state = control_ready }) s (λ h. ground arith) v)

  data-IsLinked :
      (bytes : List ℕ) (s : State R) (k : K)
      → IsLinked s
      → IsLinked (queue_data_bytes ring kernel bytes s k).0
  unfolding queue_data_bytes
  data-IsLinked bytes s k v =
      let P : State R × K → Type 0 = λ x. IsLinked x.0 in
      let (r, n) = ring.put bytes s.ble_to_host_ring in
      let put = record s { ble_to_host_ring = r } in
      if_both P (length bytes == 0) _ _ v (
        if_both (λ (t : State R). IsLinked (note_ble_depth ring kernel t)) (ltb n (length bytes))
          (count_backpressure put) put v v)

  receive-IsLinked :
      (bytes : List ℕ) (s : State R) (k : K)
      → IsLinked s
      → IsLinked (profile_payload_received ring kernel bytes s k).0
  unfolding profile_payload_received notify_receive tx_line
  receive-IsLinked bytes s k v =
      let counted = count_notification ring kernel (length bytes) s in
      let P : State R × K → Type 0 = λ x. IsLinked x.0 in
      if_both P (is_data_mode s.app_state) _ _ (data-IsLinked bytes counted k v)
        (if_both P _ (counted, k) _ v (line-IsLinked ring kernel _ counted k v))

module _ {U R K : Type 0} (p : Platform U R K) where
  app_callbacks-IsKept :
      Profile.Frame.IsKept (λ (x : State R × K). IsLinked x.0) (app_gatt p) (app_callbacks p)
  unfolding report_error notify_handler
  app_callbacks-IsKept = record {
    discover = λ conn params w v. v;
    subscribe = λ conn params w v. v;
    ready = λ (s, k) v. ready-IsLinked p.ring p.kernel s k v;
    mtu_updated = λ n (s, k) v. mtu-IsLinked p.ring p.kernel n s k v;
    error = λ e (s, k) v. error-IsLinked p.ring p.kernel e s k v;
    received = received;
  }
    where
      received :
          (bytes : Option (List ℕ)) (s : Profile.State) (w : State R × K)
          → IsLinked w.0
          → IsLinked (notify_handler (app_gatt p) (app_callbacks p) bytes s w).1.0
      received none s w v = v
      received (some bytes) s (t, k) v = receive-IsLinked p.ring p.kernel bytes t k v

  abbrev Held : State R × K → Type 0
  Held x = IsLinked x.0

  abbrev Sound : Profile.State × (State R × K) → Type 0
  Sound x = Held x.1

  pub machine-IsLinked :
      (config : Config) (e : Profile.Machine.Event U) (pm : Profile.State) (w : State R × K)
      → IsLinked w.0
      → IsLinked (step (app_gatt p) (app_callbacks p) config e pm w).1.0
  unfolding step handle_disconnected
  machine-IsLinked config (started conn) pm (s, k) v = start-IsLinked p (some config) conn pm s k v
  machine-IsLinked config (disconnected conn) pm w v =
      if_both (λ (x : Profile.State × (State R × K)). IsLinked x.1.0)
        (is_conn (app_gatt p) (app_callbacks p) pm.conn conn) _ (pm, w)
        (reset-IsLinked p (some config) pm w v) v
  machine-IsLinked config config_set pm w v = v
  machine-IsLinked config mtu_requested pm (s, k) v = mtu_request-IsLinked p (some config) pm s k v
  machine-IsLinked config (sent bytes) pm (s, k) v = send-IsLinked p bytes pm s k v
  machine-IsLinked config (notified bytes) pm w v =
      if_both Sound pm.subscribe_params.armed _ _ (app_callbacks-IsKept.received bytes pm w v) v
  machine-IsLinked config (subscribed status) pm w v =
      if_both Sound pm.subscribe_params.armed _ _
        (subscribed-IsKept Held (app_gatt p) (app_callbacks p) app_callbacks-IsKept status pm w v) v
  machine-IsLinked config (service_seen attr) pm w v =
      when_connected_both Sound pm.conn _ _ v (λ conn.
        if_both Sound pm.service_discover_params.armed _ _
          (service-IsKept Held (app_gatt p) (app_callbacks p) app_callbacks-IsKept config conn attr
            pm.service_discover_params.type pm w v)
          v)
  machine-IsLinked config (characteristic_seen attr) pm w v =
      when_connected_both Sound pm.conn _ _ v (λ conn.
        if_both Sound pm.characteristic_discover_params.armed _ _
          (characteristic-IsKept Held (app_gatt p) (app_callbacks p) app_callbacks-IsKept config
            conn attr pm.characteristic_discover_params.type pm w v)
          v)
  machine-IsLinked config (exchanged status) pm w v =
      if_both Sound pm.exchange_armed _ _
        (exchanged-IsKept Held (app_gatt p) (app_callbacks p) app_callbacks-IsKept (some config)
          status pm w v)
        v
  machine-IsLinked config (written status) pm w v =
      if_both Sound pm.write_params.armed _ _
        (written-IsKept Held (app_gatt p) (app_callbacks p) app_callbacks-IsKept status pm w v) v

  -- What the AT host calls.
  pub at_host-IsKept : HostFrame.IsKept (λ (y : System R K). IsLinked y.app) (at_host p)
  unfolding tx_line tx_raw op_set_profile op_set_mtu
  at_host-IsKept = record {
    line = λ text y v. line-IsLinked p.ring p.kernel text y.app y.hardware v;
    raw = λ bytes y v. queue-IsLinked p.ring p.kernel bytes y.app y.hardware v;
    start_scan = λ n name y v. scan-IsLinked p n name y v;
    connect = λ mac type y v. connect-IsLinked p mac type y v;
    disconnect = λ index y v. disconnect-IsLinked p index y v;
    send_payload = λ index bytes y v. payload-IsLinked p index bytes y v;
    set_profile = λ a b c y v. reconfigured-IsLinked p _ y v;
    set_mtu = λ mtu y v. reconfigured-IsLinked p _ y v;
    request_mtu = λ index y v. request-IsLinked p index y v;
    set_conn_params =
        λ index lo hi latency timeout y v. params-IsLinked p index lo hi latency timeout y v;
    enter_data_mode = λ enter given index y v.
        subst (λ f. IsLinked (f index y).0.app) (some_inj given) (enter-IsLinked p index y v);
  }
