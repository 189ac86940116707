-- ===== src/Profile/Sound.antt =====
-- What holds of the profile manager, whatever the order of calls and callbacks: what its discovery has
-- found, and the buffer of a write request.
use central_uart.Prelude.{
  ℕ, ◌≡◌, ◌≢◌, ◌≤◌, refl, if_both, true, Option, none, some, List, [], ◌∷◌, arith, length,
}
use central_uart.Settings.{Config}
use central_uart.Profile.{send_max_len, State, Service, Characteristic, Gatt, Callbacks}
use central_uart.Profile.Calls.{
  when_connected_both, when_connected_at, update_payload_len, init, set_config, start,
  handle_disconnected, request_mtu, send, has_property, can_enter_data_mode,
}
use central_uart.Profile.Handlers.{
  notify_handler, subscribe_handler, characteristic_discover_cb, service_discover_cb,
  exchange_handler, write_handler,
}
use central_uart.Profile.Machine.{
  Event, started, disconnected, config_set, mtu_requested, sent, notified, subscribed, service_seen,
  characteristic_seen, exchanged, written, step, run,
}

abbrev pub BothFound : State → Type 0
BothFound s = (s.conn ≢ none) × (s.notify_found ≡ true) × (s.write_found ≡ true)

-- What holds between two events.
pub record IsSound (s : State) : Type 0 where
  pub ready_found : s.ready ≡ true → BothFound s
  pub subscribing_found : s.subscribe_params.armed ≡ true → BothFound s
  pub characteristics_found : s.characteristic_discover_params.armed ≡ true → s.service_found ≡ true
  pub busy_armed : s.exchange_in_progress ≡ true → s.exchange_armed ≡ true
  pub write_held :
      s.write_in_progress ≡ true
      → (s.write_params.armed ≡ true)
        × (s.write_params.length ≡ length s.pending_write)
        × (s.pending_write_len ≡ length s.pending_write)
        × (1 ≤ length s.pending_write)
        × (length s.pending_write ≤ send_max_len)

-- What an event keeps of a write request that is under way before and after it: the buffer that the
-- stack reads, and the parameters that point to it.
pub record KeepsWrite (s s' : State) : Type 0 where
  pub same_write :
      s.write_in_progress ≡ true
      → s'.write_in_progress ≡ true
      → (s'.pending_write ≡ s.pending_write)
        × (s'.pending_write_len ≡ s.pending_write_len)
        × (s'.write_params ≡ s.write_params)

module _ {U W : Type 0} (g : Gatt U W) (callbacks : Option (Callbacks W)) (config : Config) where
  start-IsSound :
      (conn : Option ℕ) (s : State) (w : W)
      → IsSound s
      → IsSound (start g callbacks (some config) conn s w).0
  unfolding start update_payload_len
  start-IsSound none s w v = v
  start-IsSound (some conn) s w v = ground arith

  service-IsSound :
      (conn : ℕ) (attr : Option (Service U)) (type : ℕ) (s : State) (w : W)
      → IsSound s
      → IsSound (service_discover_cb g callbacks config conn attr type s w).0
  unfolding service_discover_cb
  service-IsSound conn none type s w v = ground arith
  service-IsSound conn (some service) type s w v = ground arith

  characteristic-IsSound :
      (conn : ℕ) (attr : Option (Characteristic U)) (type : ℕ) (s : State) (w : W)
      → s.conn ≢ none
      → IsSound s
      → IsSound (characteristic_discover_cb g callbacks config conn attr type s w).0
  unfolding characteristic_discover_cb
  characteristic-IsSound conn none type s w linked v = ground arith
  characteristic-IsSound conn (some chrc) type s w linked v = ground arith

  step-IsSound :
      (e : Event U) (s : State) (w : W) → IsSound s → IsSound (step g callbacks config e s w).0
  unfolding step
  step-IsSound (started conn) s w v = start-IsSound conn s w v
  step-IsSound (disconnected conn) s w v =
      unfold handle_disconnected update_payload_len in ground arith
  step-IsSound config_set s w v = unfold set_config in ground arith
  step-IsSound mtu_requested s w v = unfold request_mtu in ground arith
  step-IsSound (sent bytes) s w v = unfold send in ground arith
  step-IsSound (notified bytes) s w v = unfold notify_handler in ground arith
  step-IsSound (subscribed status) s w v = unfold subscribe_handler in ground arith
  step-IsSound (service_seen attr) s w v =
      when_connected_both (λ (x : State × W). IsSound x.0) s.conn (s, w) _ v
        λ conn.
          if_both (λ (x : State × W). IsSound x.0) s.service_discover_params.armed _ (s, w)
            (service-IsSound conn attr s.service_discover_params.type s w v) v
  step-IsSound (characteristic_seen attr) s w v =
      when_connected_at (λ (x : State × W). IsSound x.0) s.conn (s, w) _ v
        λ linked conn.
          if_both (λ (x : State × W). IsSound x.0) s.characteristic_discover_params.armed _ (s, w)
            (characteristic-IsSound conn attr s.characteristic_discover_params.type s w linked v) v
  step-IsSound (exchanged status) s w v = unfold exchange_handler in ground arith
  step-IsSound (written status) s w v = unfold write_handler in ground arith

  start-KeepsWrite :
      (conn : Option ℕ) (s : State) (w : W)
      → KeepsWrite s (start g callbacks (some config) conn s w).0
  unfolding start update_payload_len
  start-KeepsWrite none s w = ground arith
  start-KeepsWrite (some conn) s w = ground arith

  service-KeepsWrite :
      (conn : ℕ) (attr : Option (Service U)) (type : ℕ) (s : State) (w : W)
      → KeepsWrite s (service_discover_cb g callbacks config conn attr type s w).0
  unfolding service_discover_cb
  service-KeepsWrite conn none type s w = ground arith
  service-KeepsWrite conn (some service) type s w = ground arith

  characteristic-KeepsWrite :
      (conn : ℕ) (attr : Option (Characteristic U)) (type : ℕ) (s : State) (w : W)
      → KeepsWrite s (characteristic_discover_cb g callbacks config conn attr type s w).0
  unfolding characteristic_discover_cb
  characteristic-KeepsWrite conn none type s w = ground arith
  characteristic-KeepsWrite conn (some chrc) type s w = ground arith

  idle-KeepsWrite : (s : State) → KeepsWrite s s
  idle-KeepsWrite s = record { same_write = λ _ _. (refl, refl, refl) }

  step-KeepsWrite :
      (e : Event U) (s : State) (w : W) → KeepsWrite s (step g callbacks config e s w).0
  unfolding step
  step-KeepsWrite (started conn) s w = start-KeepsWrite conn s w
  step-KeepsWrite (disconnected conn) s w =
      unfold handle_disconnected update_payload_len in ground arith
  step-KeepsWrite config_set s w = unfold set_config in ground arith
  step-KeepsWrite mtu_requested s w = unfold request_mtu in ground arith
  step-KeepsWrite (sent bytes) s w = unfold send in ground arith
  step-KeepsWrite (notified bytes) s w = unfold notify_handler in ground arith
  step-KeepsWrite (subscribed status) s w = unfold subscribe_handler in ground arith
  step-KeepsWrite (service_seen attr) s w =
      when_connected_both (λ (x : State × W). KeepsWrite s x.0) s.conn (s, w) _ (idle-KeepsWrite s)
        λ conn.
          if_both (λ (x : State × W). KeepsWrite s x.0) s.service_discover_params.armed _ (s, w)
            (service-KeepsWrite conn attr s.service_discover_params.type s w) (idle-KeepsWrite s)
  step-KeepsWrite (characteristic_seen attr) s w =
      when_connected_both (λ (x : State × W). KeepsWrite s x.0) s.conn (s, w) _ (idle-KeepsWrite s)
        λ conn.
          if_both (λ (x : State × W). KeepsWrite s x.0) s.characteristic_discover_params.armed _
            (s, w) (characteristic-KeepsWrite conn attr s.characteristic_discover_params.type s w)
            (idle-KeepsWrite s)
  step-KeepsWrite (exchanged status) s w = unfold exchange_handler in ground arith
  step-KeepsWrite (written status) s w = unfold write_handler in ground arith

  init-IsSound : (w : W) → IsSound (init g callbacks (some config) w)
  unfolding init
  init-IsSound w = ground arith

module _ {U W : Type 0} (g : Gatt U W) (callbacks : Option (Callbacks W)) where
  run-IsSound :
      (es : List (Config × Event U)) (s : State) (w : W)
      → IsSound s
      → IsSound (run g callbacks es s w).0
  unfolding run
  run-IsSound [] s w v = v
  run-IsSound ((config, e) ∷ es) s w v =
      let (s', w') = step g callbacks config e s w in
      run-IsSound es s' w' (step-IsSound g callbacks config e s w v)

  -- After any calls and callbacks since `profile_manager_init`, under any settings at each, the manager
  -- is ready, or may be made ready by the answer to a subscription, only on a connection and if both
  -- characteristics of the profile have been found; the buffer of a write request under way holds 1 to
  -- 256 bytes, as many as the stack was told; and no next event that leaves a request under way changes
  -- that buffer or the parameters that point to it.
  pub run-init-IsSound :
      (config : Config) (es : List (Config × Event U)) (next : Config × Event U) (w : W)
      → let (s, w') = run g callbacks es (init g callbacks (some config) w) w in
        IsSound s × KeepsWrite s (step g callbacks next.0 next.1 s w').0
  run-init-IsSound config es next w =
      let (s, w') = run g callbacks es (init g callbacks (some config) w) w in
      (
        run-IsSound es (init g callbacks (some config) w) w (init-IsSound g callbacks config w),
        step-KeepsWrite g callbacks next.0 next.1 s w',
      )

  -- After any calls and callbacks since `profile_manager_init`, under any settings at each, data mode
  -- may be entered only on a connection, with a ready profile, both characteristics found, a write
  -- handle, and a write characteristic that takes writes without response.
  pub data_mode-needs :
      (config : Config) (es : List (Config × Event U)) (w : W)
      → can_enter_data_mode g callbacks (run g callbacks es (init g callbacks (some config) w) w).0
        ≡ true
      → let s = (run g callbacks es (init g callbacks (some config) w) w).0 in
        (s.conn ≢ none)
        × (s.ready ≡ true)
        × (s.notify_found ≡ true)
        × (s.write_found ≡ true)
        × (s.write_value_handle ≢ 0)
        × (has_property g callbacks s g.write_without_resp ≡ true)
  unfolding can_enter_data_mode
  data_mode-needs config es w h = ground (
    arith,
    run-IsSound es (init g callbacks (some config) w) w (init-IsSound g callbacks config w),
  )
