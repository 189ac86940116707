-- ===== src/Tests/ProfileWitnesses.antt =====
-- The theorems on profile_manager.c at concrete input.
use central_uart.Prelude.{◌≤◌, ◌<◌, ◌≡◌, ◌≢◌, refl, true, none, some, List, [], ◌∷◌, length, map}
use central_uart.Chars.{ascii, isspace, isxdigit, toupper, skip_space, trimmed_len, equal}
use central_uart.Errors.{ok}
use central_uart.Uuid.{
  is_hex_text, normalize_uuid16, normalize_trimmed, normalize_uuid, uuid_equals,
  format_uuid_from_bt,
}
use central_uart.Settings.{Config, default_config}
use central_uart.Profile.{send_max_len, State, zero_state}
use central_uart.Profile.Calls.{
  update_payload_len, payload_of, init, reset, start, start_discovery, send, has_property,
  can_enter_data_mode,
}
use central_uart.Profile.Handlers.{
  characteristics_done, subscribe_notify_characteristic, subscribe_handler,
  characteristic_discover_cb, start_characteristic_discovery, service_discover_cb,
}
use central_uart.Profile.Machine.{
  Event, started, sent, subscribed, service_seen, characteristic_seen, step, run,
}
use central_uart.Profile.Send.{IsRequestFree, send-ok, send-in_progress}
use central_uart.Profile.Sound.{IsSound, KeepsWrite, run-init-IsSound, data_mode-needs}
use central_uart.Tests.Fixtures.{gatt, callbacks}
use central_uart.Chars.{Text}

-- A discovery that finds everything.
abbrev discovery_events : List (Event Text)
discovery_events =
    started (some 0)
    ∷ service_seen (some (record { handle = 16; uuid = ascii "0xFFF0"; end_handle = 32 }))
    ∷ service_seen none
    ∷ characteristic_seen
        (some (record { uuid = ascii "0xFFF1"; value_handle = 18; properties = 16 }))
    ∷ characteristic_seen
        (some (record { uuid = ascii "0xFFF2"; value_handle = 21; properties = 4 }))
    ∷ characteristic_seen none
    ∷ subscribed 0
    ∷ []

abbrev discovery : List (Config × Event Text)
discovery = map (λ e. (default_config, e)) discovery_events

abbrev after_discovery : State
after_discovery = (run gatt callbacks discovery (init gatt callbacks (some default_config) []) []).0

after_discovery-enters : can_enter_data_mode gatt callbacks after_discovery ≡ true
unfolding run step start reset start_discovery init update_payload_len payload_of
    service_discover_cb start_characteristic_discovery characteristic_discover_cb
    characteristics_done subscribe_notify_characteristic subscribe_handler can_enter_data_mode
    uuid_equals format_uuid_from_bt normalize_uuid normalize_trimmed normalize_uuid16 is_hex_text
    skip_space trimmed_len isspace isxdigit toupper equal
after_discovery-enters = refl

data_mode-needs_example :
    (after_discovery.conn ≢ none)
    × (after_discovery.ready ≡ true)
    × (after_discovery.notify_found ≡ true)
    × (after_discovery.write_found ≡ true)
    × (after_discovery.write_value_handle ≢ 0)
    × (has_property gatt callbacks after_discovery 4 ≡ true)
data_mode-needs_example =
    data_mode-needs gatt callbacks default_config discovery [] after_discovery-enters

run-init-IsSound_example :
    IsSound after_discovery
    × KeepsWrite after_discovery
        (step gatt callbacks default_config
          (sent (ascii "abc"))
          after_discovery
          (run gatt callbacks discovery (init gatt callbacks (some default_config) []) []).1).0
run-init-IsSound_example =
    run-init-IsSound gatt callbacks default_config discovery (default_config, sent (ascii "abc")) []

-- A manager that may enter data mode, and one that writes with a response.
abbrev linked : State
linked = record zero_state {
  conn = some 0;
  ready = true;
  write_found = true;
  write_value_handle = 21;
  write_properties = 4;
  payload_len = 244;
}

abbrev writing : State
writing = record linked {
  write_properties = 8;
  write_in_progress = true;
  pending_write = ascii "abc";
  pending_write_len = 3;
}

linked-sends : send gatt callbacks (ascii "abc") linked [] ≡ (linked, ascii "abc" ∷ [], ok)
unfolding send
linked-sends = refl

send-ok_example :
    (linked.conn ≢ none)
    × (linked.ready ≡ true)
    × (linked.write_found ≡ true)
    × (linked.write_value_handle ≢ 0)
    × (0 < length (ascii "abc"))
    × (length (ascii "abc") ≤ linked.payload_len)
    × (length (ascii "abc") ≤ send_max_len)
send-ok_example =
    send-ok gatt callbacks (ascii "abc") linked linked [] (ascii "abc" ∷ []) linked-sends

send-in_progress_example :
    IsRequestFree gatt callbacks
      (ascii "xy")
      writing
      []
      (send gatt callbacks (ascii "xy") writing [])
send-in_progress_example = send-in_progress gatt callbacks (ascii "xy") writing [] refl
