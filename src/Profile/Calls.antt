-- ===== src/Profile/Calls.antt =====
-- The public functions of profile_manager.c and `update_payload_len`.
use Prim.Native.Nat.{bit_and}
use central_uart.Prelude.{
  ℕ, ◌-◌, ◌≢◌, min, Bool, true, false, not, ◌&&◌, ◌||◌, Option, none, some, List, ltb, ◌==◌,
  if◌then◌else◌, length,
}
use central_uart.Errors.{
  Rc, ok, err, ealready, einval, enotconn, ebusy, eagain, emsgsize, eacces, enotsup,
}
use central_uart.Settings.{Config}
use central_uart.Profile.{
  send_max_len, ManagerError, discover_failed, DiscoverParams, WriteParams, no_discover,
  no_subscribe, no_write, State, zero_state, Gatt, Callbacks,
}

-- `conn` below is `g_state.conn` where it is not NULL.
abbrev pub when_connected {ℓ} : {A : Type ℓ} → Option ℕ → A → (ℕ → A) → A
when_connected none absent present = absent
when_connected (some conn) absent present = present conn

-- A property of both cases holds of the call.
pub when_connected_both {ℓ κ} :
    {A : Type ℓ} (P : A → Type κ) (conn : Option ℕ) (absent : A) (present : ℕ → A)
    → P absent
    → ((c : ℕ) → P (present c))
    → P (when_connected conn absent present)
when_connected_both P none absent present a p = a
when_connected_both P (some c) absent present a p = p c

-- The same, where the property of the present case may use the connection.
pub when_connected_at {ℓ κ} :
    {A : Type ℓ} (P : A → Type κ) (conn : Option ℕ) (absent : A) (present : ℕ → A)
    → P absent
    → (conn ≢ none → (c : ℕ) → P (present c))
    → P (when_connected conn absent present)
when_connected_at P none absent present a p = a
when_connected_at P (some c) absent present a p = p (λ e. cc) c

-- The arithmetic of `update_payload_len`: the connection's MTU and the configured one.
unfoldable pub payload_of : ℕ → ℕ → ℕ
payload_of att_mtu preferred =
    let wanted : ℕ = if ltb preferred 23 then 23 else preferred in
    let mtu : ℕ = min att_mtu wanted in if ltb 3 mtu then mtu - 3 else 20

abbrev pub preferred_mtu : Option Config → ℕ
preferred_mtu none = 23
preferred_mtu (some c) = c.mtu

module _ {U W : Type 0} (g : Gatt U W) (callbacks : Option (Callbacks W)) where
  unfoldable pub report_error : ManagerError → W → W
  report_error e w = elim callbacks [
    | none ↦ w
    | some c ↦ elim c.error [ none ↦ w | some f ↦ f e w ]
  ]

  abbrev pub call_ready : W → W
  call_ready w = elim callbacks [ none ↦ w | some c ↦ elim c.ready [ none ↦ w | some f ↦ f w ] ]

  abbrev pub call_mtu_updated : ℕ → W → W
  call_mtu_updated n w = elim callbacks [
    | none ↦ w
    | some c ↦ elim c.mtu_updated [ none ↦ w | some f ↦ f n w ]
  ]

  abbrev pub att_mtu : Option ℕ → W → ℕ
  att_mtu none w = 23
  att_mtu (some conn) w = g.get_mtu conn w

  unfoldable pub update_payload_len : Option Config → State → W → State
  update_payload_len config s w = record s {
    payload_len = payload_of (att_mtu s.conn w) (preferred_mtu config);
  }

  -- `profile_manager_init`
  unfoldable pub init : Option Config → W → State
  unfolding update_payload_len
  init config w = update_payload_len config zero_state w

  -- `profile_manager_set_config`
  unfoldable pub set_config : Option Config → State → W → State
  unfolding update_payload_len
  set_config config s w = update_payload_len config s w

  -- `bt_gatt_unsubscribe` where there is a connection; its result is dropped.
  abbrev pub unsubscribe_if_connected : State → W → W
  unsubscribe_if_connected s w =
      when_connected s.conn w (λ conn. (g.unsubscribe conn s.subscribe_params w).0)

  -- `profile_manager_reset`
  unfoldable pub reset : Option Config → State → W → State × W
  unfolding update_payload_len
  reset config s w =
      let w' = unsubscribe_if_connected s w in
      let cleared = record s {
        service_discover_params = no_discover;
        characteristic_discover_params = no_discover;
        subscribe_params = no_subscribe;
        exchange_armed = false;
        write_params = no_write;
        service_start_handle = 0;
        service_end_handle = 0;
        notify_value_handle = 0;
        write_value_handle = 0;
        write_properties = 0;
        ready = false;
        service_found = false;
        notify_found = false;
        write_found = false;
        exchange_in_progress = false;
        write_in_progress = false;
        pending_write_len = 0;
      } in
      (update_payload_len config cleared w', w')

  abbrev pub service_request : DiscoverParams
  service_request = record {
    armed = true;
    start_handle = g.first_handle;
    end_handle = g.last_handle;
    type = g.discover_primary;
  }

  -- After the reset, on a connection: the rest of `profile_manager_start`.
  unfoldable pub start_discovery : Option Config → ℕ → State → W → State × W × Rc
  start_discovery config conn s w =
      let linked = update_payload_len config (record s { conn = some conn }) w in
      let asked = record linked { service_discover_params = service_request } in
      let (w', rc) = g.discover conn service_request w in
      elim rc [ ok ↦ (asked, w', ok) | err e ↦ (asked, report_error discover_failed w', err e) ]

  -- `profile_manager_start`; NULL is `none`.
  unfoldable pub start : Option Config → Option ℕ → State → W → State × W × Rc
  unfolding reset start_discovery report_error
  start none conn s w = (s, w, err einval)
  start (some config) none s w = (s, w, err einval)
  start (some config) (some conn) s w =
      let (s', w') = reset (some config) s w in start_discovery (some config) conn s' w'

  -- `g_state.conn == conn`
  abbrev pub is_conn : Option ℕ → Option ℕ → Bool
  is_conn none none = true
  is_conn (some a) (some b) = a == b
  is_conn _ _ = false

  -- `profile_manager_handle_disconnected`
  unfoldable pub handle_disconnected : Option Config → Option ℕ → State → W → State × W
  unfolding reset
  handle_disconnected config conn s w =
      if is_conn s.conn conn
      then (let (s', w') = reset config s w in (record s' { conn = none }, w'))
      else (s, w)

  -- The calls of `profile_manager_request_mtu` once the exchange is marked as under way.
  unfoldable pub finish_request_mtu : Option Config → State → W × Rc → State × W × Rc
  finish_request_mtu config s (w, ok) = (s, w, ok)
  finish_request_mtu config s (w, err ealready) =
      let idle = record s { exchange_in_progress = false; exchange_armed = false } in
      let s' = update_payload_len config idle w in (s', call_mtu_updated s'.payload_len w, ok)
  finish_request_mtu config s (w, err e) =
      (record s { exchange_in_progress = false; exchange_armed = false }, w, err e)

  -- `profile_manager_request_mtu`
  unfoldable pub request_mtu : Option Config → State → W → State × W × Rc
  unfolding finish_request_mtu update_payload_len
  request_mtu config s w =
      when_connected s.conn (s, w, err enotconn)
        λ conn.
          if s.exchange_in_progress
          then (s, w, err ebusy)
          else finish_request_mtu config
              (record s { exchange_armed = true; exchange_in_progress = true })
              (g.exchange_mtu conn w)

  -- `profile_manager_request_data_len` and `profile_manager_request_phy`; they change no state here.
  unfoldable pub request_data_len : State → W → W × Rc
  request_data_len s w =
      when_connected s.conn (w, err enotconn)
        λ conn. if not g.data_len_enabled then (w, err enotsup) else g.data_len_update conn w

  unfoldable pub request_phy : State → W → W × Rc
  request_phy s w =
      when_connected s.conn (w, err enotconn)
        λ conn. if not g.phy_enabled then (w, err enotsup) else g.phy_update conn w

  -- `write_properties & mask`, as a test
  abbrev pub has_property : State → ℕ → Bool
  has_property s mask = not (bit_and s.write_properties mask == 0)

  -- The last part of `profile_manager_send`: a write request from the manager's own buffer.
  unfoldable pub send_pending : ℕ → List ℕ → State → W → State × W × Rc
  send_pending conn bytes s w =
      let request : WriteParams = record {
        armed = true;
        handle = s.write_value_handle;
        offset = 0;
        length = length bytes;
      } in
      let busy = record s {
        pending_write = bytes;
        pending_write_len = length bytes;
        write_params = request;
        write_in_progress = true;
      } in
      let (w', rc) = g.send_request conn request busy.pending_write w in
      elim rc [
        | ok ↦ (busy, w', ok)
        | err e ↦ (record busy { write_in_progress = false }, w', err e)
      ]

  -- `profile_manager_send`
  unfoldable pub send : List ℕ → State → W → State × W × Rc
  unfolding send_pending
  send bytes s w =
      when_connected s.conn (s, w, err enotconn)
        λ conn.
          if not s.ready || not s.write_found || s.write_value_handle == 0
          then (s, w, err eagain)
          else if length bytes == 0
              || ltb send_max_len (length bytes)
              || ltb s.payload_len (length bytes)
          then (s, w, err emsgsize)
          else if has_property s g.write_without_resp
          then (let (w', rc) = g.send_command conn s.write_value_handle bytes w in (s, w', rc))
          else if not (has_property s g.write_with_resp) || s.write_in_progress
          then (s, w, err eacces)
          else send_pending conn bytes s w

  -- `profile_manager_can_enter_data_mode`
  unfoldable pub can_enter_data_mode : State → Bool
  can_enter_data_mode s =
      s.ready
      && s.write_found
      && not (s.write_value_handle == 0)
      && has_property s g.write_without_resp
