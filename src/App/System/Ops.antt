-- ===== src/App/System/Ops.antt =====
-- The operations that main.c registers with the AT host.
pub mod Connect
use central_uart.Prelude.{
  ℕ, Bool, true, false, not, ◌||◌, Option, none, some, List, [], ◌∷◌, ◌==◌, if◌then◌else◌,
}
use central_uart.Chars.{Text, snprintk_s}
use central_uart.Errors.{Rc, ok, err, einval, ealready, ebusy, enotconn, enotsup, eacces}
use central_uart.AddrType.{addr_type_from_wlt}
use central_uart.Settings
use central_uart.Settings.{Config}
use central_uart.Settings.Save.{update_profile, update_mtu, update_conn_params}
use central_uart.Profile.Calls.{set_config, request_mtu, send, can_enter_data_mode}
use central_uart.At.{Ops, Host, Status, StreamStats}
use central_uart.App.{AppState, scanning, connecting, disconnecting, Address}
use central_uart.App.Escape.{is_data_mode, is_connected}
use central_uart.App.Scan.{
  filter_size, is_scanning, clear_scan_cache, stop_scan_internal, parse_connect_mac,
}
use central_uart.App.System.{
  ConnParam, refused, created, Platform, System, on_manager, app_gatt, app_callbacks, system_tx,
}

abbrev pub is_busy : AppState → Bool
is_busy connecting = true
is_busy disconnecting = true
is_busy _ = false

-- The text left in `scan_filter_name`; a filter of NULL is `none`.
abbrev pub filter_text : Option Text → Text
filter_text none = []
filter_text (some []) = []
filter_text (some (c ∷ cs)) = snprintk_s filter_size (c ∷ cs)

abbrev pub conn_param_of : Config → ConnParam
conn_param_of c = record {
  interval_min = c.conn_interval_min;
  interval_max = c.conn_interval_max;
  latency = c.latency;
  timeout = c.timeout;
}

module _ {U R K : Type 0} (p : Platform U R K) where
  unfoldable pub op_start_scan : ℕ → Option Text → System R K → System R K × Rc
  unfolding clear_scan_cache
  op_start_scan duration_s filter_name y =
      let cleared = record (clear_scan_cache y.app) {
        scan_filter_name = filter_text filter_name;
      } in
      let (k, rc) = p.radio.scan_start y.hardware in
      if is_connected y.app.current_conn
      then (y, err ealready)
      else if is_busy y.app.app_state
      then (y, err ebusy)
      else if is_scanning y.app.app_state
      then (y, ok)
      else elim rc [
        | err e ↦ (record y { app = cleared; hardware = k }, err e)
        | ok ↦ (
          record y {
            app = record cleared { app_state = scanning };
            hardware = p.radio.schedule_scan_stop duration_s k;
          },
          ok,
        )
      ]

  -- The end of `op_connect`: the call that creates the connection.
  abbrev pub create_conn : Address → System R K → System R K × Rc
  create_conn peer y =
      let (k, result) = p.conns.create peer (conn_param_of y.config) y.hardware in
      elim result [
        | refused e ↦
            (record y { app = record (y.app) { current_conn = none }; hardware = k }, err e)
        | created conn ↦ (
          record y {
            app = record (y.app) { current_conn = some conn; app_state = connecting };
            hardware = k;
          },
          ok,
        )
      ]

  -- `op_connect` from the test for a scan on.
  abbrev pub connect_peer : Address → System R K → System R K × Rc
  connect_peer peer y =
      let (s, k, rc) = stop_scan_internal p.ring p.kernel p.radio false y.app y.hardware in
      let stopped = record y { app = s; hardware = k } in
      if is_scanning y.app.app_state
      then elim rc [ ok ↦ create_conn peer stopped | err e ↦ (stopped, err e) ]
      else create_conn peer y

  unfoldable pub op_connect : Text → ℕ → System R K → System R K × Rc
  unfolding stop_scan_internal parse_connect_mac
  op_connect mac addr_type y =
      if is_connected y.app.current_conn
      then (y, err ealready)
      else if is_busy y.app.app_state
      then (y, err ebusy)
      else elim (addr_type_from_wlt p.addr_types addr_type true) [
        | none ↦ (y, err einval)
        | some type ↦ elim (parse_connect_mac p.radio mac) [
          | none ↦ (y, err einval)
          | some val ↦ connect_peer (record { type = type; val = val }) y
        ]
      ]

  unfoldable pub op_disconnect : ℕ → System R K → System R K × Rc
  op_disconnect conn_index y =
      if not (conn_index == 0) then (y, err einval) else elim (y.app.current_conn) [
        | none ↦ (y, ok)
        | some conn ↦
            (let (k, rc) = p.conns.disconnect conn p.conns.remote_user_term y.hardware in
              (record y { app = record (y.app) { app_state = disconnecting }; hardware = k }, rc))
      ]

  unfoldable pub op_send_payload : ℕ → List ℕ → System R K → System R K × Rc
  unfolding send
  op_send_payload conn_index bytes y =
      if not (conn_index == 0)
      then (y, err einval)
      else on_manager (send (app_gatt p) (app_callbacks p) bytes) y

  unfoldable pub op_get_status : System R K → Status
  op_get_status y = elim (y.app.current_conn) [
    | none ↦ record { connected = false; ready = false; mac = []; conn_count = 0; data_len = 0 }
    | some conn ↦ record {
      connected = true;
      ready = y.manager.ready;
      mac = p.radio.addr_to_str (p.conns.get_dst conn y.hardware).val;
      conn_count = 1;
      data_len = y.manager.payload_len;
    }
  ]

  -- `profile_manager_set_config(ble_host_settings_get())` after an update that returned 0.
  abbrev pub reconfigured : Config × K × Rc → System R K → System R K × Rc
  reconfigured (config, k, rc) y =
      let updated = record y { config = config; hardware = k } in
      elim rc [
        | ok ↦ (
          record updated {
            manager = set_config (app_gatt p) (app_callbacks p) (some config) y.manager (y.app, k);
          },
          ok,
        )
        | err e ↦ (updated, err e)
      ]

  unfoldable pub op_set_profile : Text → Text → Text → System R K → System R K × Rc
  unfolding update_profile set_config
  op_set_profile service notify write y =
      reconfigured (update_profile p.storage service notify write y.config y.hardware) y

  unfoldable pub op_set_mtu : ℕ → System R K → System R K × Rc
  unfolding update_mtu set_config
  op_set_mtu mtu y = reconfigured (update_mtu p.storage mtu y.config y.hardware) y

  unfoldable pub op_request_mtu : ℕ → System R K → System R K × Rc
  unfolding request_mtu
  op_request_mtu conn_index y =
      if not (conn_index == 0)
      then (y, err einval)
      else on_manager (request_mtu (app_gatt p) (app_callbacks p) (some y.config)) y

  -- The updated parameters are stored only once the stack has taken them.
  abbrev pub store_params : ℕ → ℕ → ℕ → ℕ → System R K → System R K × Rc
  store_params lo hi latency timeout y =
      let (config, k, rc) =
        update_conn_params p.storage lo hi latency timeout y.config y.hardware in
      (record y { config = config; hardware = k }, rc)

  unfoldable pub op_set_conn_params : ℕ → ℕ → ℕ → ℕ → ℕ → System R K → System R K × Rc
  unfolding update_conn_params
  op_set_conn_params conn_index lo hi latency timeout y =
      if not (conn_index == 0) then (y, err einval) else elim (y.app.current_conn) [
        | none ↦ (y, err enotconn)
        | some conn ↦
            (let param : ConnParam = record {
              interval_min = lo;
              interval_max = hi;
              latency = latency;
              timeout = timeout;
            } in
              let (k, rc) = p.conns.param_update conn param y.hardware in
              let asked = record y { hardware = k } in
              elim rc [ ok ↦ store_params lo hi latency timeout asked | err e ↦ (asked, err e) ])
      ]

  unfoldable pub op_enter_data_mode : ℕ → System R K → System R K × Rc
  unfolding can_enter_data_mode
  op_enter_data_mode conn_index y =
      if not (conn_index == 0)
      then (y, err einval)
      else if not (is_connected y.app.current_conn) || not y.config.allow_data_mode
      then (y, err enotsup)
      else if is_data_mode y.app.app_state || y.app.data_mode_pending_enter
      then (y, err ealready)
      else if not (can_enter_data_mode p.gatt none y.manager)
      then (y, err eacces)
      else (record y { app = record (y.app) { data_mode_pending_enter = true } }, ok)

  unfoldable pub op_get_profile : System R K → Settings.Profile
  op_get_profile y = y.config.active_profile

  unfoldable pub op_get_mtu : System R K → ℕ
  op_get_mtu y = y.config.mtu

  unfoldable pub op_get_stream_stats : System R K → StreamStats
  op_get_stream_stats y = y.app.stream_stats

  -- `at_ops`
  abbrev pub at_ops : Ops (System R K)
  at_ops = record {
    start_scan = op_start_scan;
    connect = op_connect;
    disconnect = op_disconnect;
    send_payload = op_send_payload;
    get_status = op_get_status;
    get_profile = op_get_profile;
    set_profile = op_set_profile;
    set_mtu = op_set_mtu;
    get_mtu = op_get_mtu;
    request_mtu = op_request_mtu;
    set_conn_params = op_set_conn_params;
    enter_data_mode = some op_enter_data_mode;
    get_stream_stats = some op_get_stream_stats;
  }

  -- What main.c passes to `at_host_init`.
  abbrev pub at_host : Host (System R K)
  at_host = record { ops = at_ops; tx = some (system_tx p) }
