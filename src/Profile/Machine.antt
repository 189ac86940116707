-- ===== src/Profile/Machine.antt =====
-- The profile manager as a machine that takes calls of the application and callbacks of the stack in
-- any order. The stack calls a handler only through parameters where one is set.
use central_uart.Prelude.{ℕ, Option, some, List, [], ◌∷◌, if◌then◌else◌}
use central_uart.Settings.{Config}
use central_uart.Profile.{State, Service, Characteristic, Gatt, Callbacks}
use central_uart.Profile.Calls.{
  when_connected, set_config, start, handle_disconnected, request_mtu, send,
}
use central_uart.Profile.Handlers.{
  notify_handler, subscribe_handler, characteristic_discover_cb, service_discover_cb,
  exchange_handler, write_handler,
}

pub data Event (U : Type 0) : Type 0 where
  started : Option ℕ → Event U
  disconnected : Option ℕ → Event U
  config_set : Event U
  mtu_requested : Event U
  sent : List ℕ → Event U
  notified : Option (List ℕ) → Event U
  subscribed : ℕ → Event U
  service_seen : Option (Service U) → Event U
  characteristic_seen : Option (Characteristic U) → Event U
  exchanged : ℕ → Event U
  written : ℕ → Event U

module _ {U W : Type 0} (g : Gatt U W) (callbacks : Option (Callbacks W)) (config : Config) where
  abbrev fst₃ : {A : Type 0} → State × W × A → State × W
  fst₃ (s, w, _) = (s, w)

  unfoldable pub step : Event U → State → W → State × W
  step (started conn) s w = fst₃ (start g callbacks (some config) conn s w)
  step (disconnected conn) s w = handle_disconnected g callbacks (some config) conn s w
  step config_set s w = (set_config g callbacks (some config) s w, w)
  step mtu_requested s w = fst₃ (request_mtu g callbacks (some config) s w)
  step (sent bytes) s w = fst₃ (send g callbacks bytes s w)
  step (notified bytes) s w =
      if s.subscribe_params.armed then fst₃ (notify_handler g callbacks bytes s w) else (s, w)
  step (subscribed status) s w =
      if s.subscribe_params.armed then subscribe_handler g callbacks status s w else (s, w)
  step (service_seen attr) s w =
      when_connected s.conn (s, w)
        λ conn.
          if s.service_discover_params.armed
          then fst₃
              (service_discover_cb g callbacks config conn attr s.service_discover_params.type s w)
          else (s, w)
  step (characteristic_seen attr) s w =
      when_connected s.conn (s, w)
        λ conn.
          if s.characteristic_discover_params.armed
          then fst₃ (
              characteristic_discover_cb g callbacks config conn attr
                s.characteristic_discover_params.type s w)
          else (s, w)
  step (exchanged status) s w =
      if s.exchange_armed then exchange_handler g callbacks (some config) status s w else (s, w)
  step (written status) s w =
      if s.write_params.armed then write_handler g callbacks status s w else (s, w)

module _ {U W : Type 0} (g : Gatt U W) (callbacks : Option (Callbacks W)) where
  -- Each event comes with the settings as they are then.
  unfoldable pub run : List (Config × Event U) → State → W → State × W
  run [] s w = (s, w)
  run ((config, e) ∷ es) s w = let (s', w') = step g callbacks config e s w in run es s' w'
