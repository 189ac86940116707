-- ===== src/Profile/Handlers.antt =====
-- The callbacks that profile_manager.c hands to the stack. `config` is not NULL in them:
-- `profile_manager_start` begins no discovery without one.
use central_uart.Prelude.{
  ℕ, true, false, not, ◌&&◌, Option, none, some, List, [], ◌==◌, if◌then◌else◌,
}
use central_uart.Chars.{Text}
use central_uart.Errors.{Rc, ok, err}
use central_uart.Uuid.{uuid_str_len, format_uuid_from_bt, uuid_equals}
use central_uart.Settings.{Config}
use central_uart.Profile.{
  service_missing, notify_missing, write_missing, discover_failed, subscribe_failed, write_failed,
  DiscoverParams, SubscribeParams, State, Service, Characteristic, Gatt, Callbacks, Iter, stop,
  continue,
}
use central_uart.Profile.Calls.{report_error, call_ready, call_mtu_updated, update_payload_len}

module _ {U W : Type 0} (g : Gatt U W) (callbacks : Option (Callbacks W)) where
  -- `notify_handler`; data of NULL is `none`.
  unfoldable pub notify_handler : Option (List ℕ) → State → W → State × W × Iter
  notify_handler none s w = (record s { ready = false }, w, stop)
  notify_handler (some bytes) s w = (
    s,
    elim callbacks [
      | none ↦ w
      | some c ↦ elim c.payload_received [ none ↦ w | some f ↦ f bytes w ]
    ],
    continue,
  )

  -- `subscribe_handler`
  unfoldable pub subscribe_handler : ℕ → State → W → State × W
  unfolding report_error
  subscribe_handler status s w =
      if not (status == 0)
      then (record s { ready = false }, report_error g callbacks subscribe_failed w)
      else (record s { ready = true }, call_ready g callbacks w)

  abbrev pub subscribe_request : State → SubscribeParams
  subscribe_request s = record {
    armed = true;
    value_handle = s.notify_value_handle;
    ccc_handle = g.auto_ccc;
    end_handle = s.service_end_handle;
    value = g.ccc_notify;
  }

  -- `subscribe_notify_characteristic`, on the connection `conn`
  unfoldable pub subscribe_notify_characteristic : ℕ → State → W → State × W × Rc
  unfolding report_error
  subscribe_notify_characteristic conn s w =
      let s' = record s { subscribe_params = subscribe_request s } in
      let (w', rc) = g.subscribe conn (subscribe_request s) w in
      elim rc [
        | ok ↦ (s', w', ok)
        | err e ↦ (s', report_error g callbacks subscribe_failed w', err e)
      ]

  -- The UUID of an attribute as normalised text.
  abbrev pub uuid_text : U → Text
  uuid_text u = elim (format_uuid_from_bt g.uuid_to_str (some u) true uuid_str_len) [
    | none ↦ []
    | some t ↦ t
  ]

  -- `characteristic_discover_cb` at the end of the discovery, `attr == NULL`
  unfoldable pub characteristics_done : Config → ℕ → State → W → State × W × Iter
  unfolding subscribe_notify_characteristic
  characteristics_done config conn s w =
      if not s.notify_found
      then (s, report_error g callbacks notify_missing w, stop)
      else if not s.write_found
      then (s, report_error g callbacks write_missing w, stop)
      else if config.auto_subscribe
      then (let (s', w', rc) = subscribe_notify_characteristic conn s w in (s', w', stop))
      else (record s { ready = true }, call_ready g callbacks w, stop)

  -- The first matching characteristic of each role is kept.
  abbrev pub note_notify : Config → Characteristic U → State → State
  note_notify config chrc s =
      if not s.notify_found && uuid_equals (uuid_text chrc.uuid) config.active_profile.notify_uuid
      then record s { notify_found = true; notify_value_handle = chrc.value_handle }
      else s

  abbrev pub note_write : Config → Characteristic U → State → State
  note_write config chrc s =
      if not s.write_found && uuid_equals (uuid_text chrc.uuid) config.active_profile.write_uuid
      then record s {
        write_found = true;
        write_value_handle = chrc.value_handle;
        write_properties = chrc.properties;
      }
      else s

  -- `characteristic_discover_cb`; `type` is `params->type`.
  unfoldable pub characteristic_discover_cb :
      Config → ℕ → Option (Characteristic U) → ℕ → State → W → State × W × Iter
  unfolding characteristics_done
  characteristic_discover_cb config conn none type s w = characteristics_done config conn s w
  characteristic_discover_cb config conn (some chrc) type s w =
      if not (type == g.discover_characteristic)
      then (s, report_error g callbacks discover_failed w, stop)
      else (note_write config chrc (note_notify config chrc s), w, continue)

  abbrev pub characteristic_request : State → DiscoverParams
  characteristic_request s = record {
    armed = true;
    start_handle = s.service_start_handle;
    end_handle = s.service_end_handle;
    type = g.discover_characteristic;
  }

  -- `start_characteristic_discovery`
  unfoldable pub start_characteristic_discovery : ℕ → State → W → State × W × Rc
  unfolding report_error
  start_characteristic_discovery conn s w =
      let s' = record s { characteristic_discover_params = characteristic_request s } in
      let (w', rc) = g.discover conn (characteristic_request s) w in
      elim rc [
        | ok ↦ (s', w', ok)
        | err e ↦ (s', report_error g callbacks discover_failed w', err e)
      ]

  -- `service_discover_cb`
  unfoldable pub service_discover_cb :
      Config → ℕ → Option (Service U) → ℕ → State → W → State × W × Iter
  unfolding start_characteristic_discovery
  service_discover_cb config conn none type s w =
      if not s.service_found
      then (s, report_error g callbacks service_missing w, stop)
      else (let (s', w', rc) = start_characteristic_discovery conn s w in (s', w', stop))
  service_discover_cb config conn (some service) type s w =
      if not (type == g.discover_primary)
      then (s, report_error g callbacks discover_failed w, stop)
      else (
        if uuid_equals (uuid_text service.uuid) config.active_profile.service_uuid
            then record s {
              service_found = true;
              service_start_handle = service.handle;
              service_end_handle = service.end_handle;
            }
            else s,
        w,
        continue,
      )

  -- `exchange_handler`; a status of 0 is also BT_ATT_ERR_SUCCESS.
  unfoldable pub exchange_handler : Option Config → ℕ → State → W → State × W
  unfolding update_payload_len
  exchange_handler config status s w =
      let idle = record s { exchange_in_progress = false } in
      let s' = update_payload_len g callbacks config idle w in
      if status == 0
      then (record s' { exchange_armed = false }, call_mtu_updated g callbacks s'.payload_len w)
      else (record idle { exchange_armed = false }, w)

  -- `write_handler`
  unfoldable pub write_handler : ℕ → State → W → State × W
  unfolding report_error
  write_handler status s w = (
    record s { write_in_progress = false },
    if not (status == 0) then report_error g callbacks write_failed w else w,
  )
