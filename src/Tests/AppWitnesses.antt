-- ===== src/Tests/AppWitnesses.antt =====
-- The theorems on main.c at concrete input.
use central_uart.Prelude.{◌≡◌, refl, Bool, not, true, false, ◌&&◌, some, [], ◌++◌, arith, ltb, ◌⊎◌}
use central_uart.Chars.{ascii}
use central_uart.Settings.{default_config}
use central_uart.App.{Kernel, State, data_mode, control_ready}
use central_uart.App.Escape.{
  rx_chunk, is_data_mode, is_connected, refresh_uart_rx_flow_control, handle_data_mode_rx,
  exit_data_mode, escape_guard_work_handler,
}
use central_uart.App.Transparent.{IsCandidate, stream, handle_data_mode_rx-stream}
use central_uart.App.Guard.{Exits, Stays, escape_guard_work_handler-outcome}
use central_uart.App.System.Linking.{close_session}
use central_uart.App.Receiver.{
  ReceiverLaws, refresh_uart_rx_flow_control-receiver, IsLeft, session_end-receiver,
}
use central_uart.App.Callbacks.{
  activate_pending_data_mode, activate_pending_data_mode-enters, profile_payload_received,
  profile_payload_received-planes,
}
use central_uart.Tests.Fixtures.{
  no_stats, ring_capacity, ListRing, list_ring, list_ring-RingLaws, kernel,
}

-- Data mode with two bytes to send and two pluses held back.
abbrev pub running : State ListRing
running = record {
  app_state = data_mode;
  current_conn = some 0;
  host_to_ble_ring = (ascii "ab", omega arith, 0, omega arith);
  ble_to_host_ring = ([], omega arith, 0, omega arith);
  ctrl_tx_ring = ([], omega arith, 0, omega arith);
  stream_stats = no_stats [];
  control_dtr_ready = true;
  control_rx_paused = false;
  data_mode_pending_enter = false;
  data_mode_tx_flush_due = false;
  escape_state = record { active = true; count = 2 };
  last_host_rx_time_ms = 4000;
  scanned_devices = [];
  next_scan_index = 0;
  scan_filter_name = [];
}

running-IsCandidate : IsCandidate running.escape_state
running-IsCandidate e = (omega arith, omega arith)

abbrev received : State ListRing
received = (handle_data_mode_rx list_ring kernel default_config true 244 (ascii "+x+") running []).0

handle_data_mode_rx-stream_example :
    (stream list_ring kernel ring_capacity list_ring-RingLaws received
      ≡ stream list_ring kernel ring_capacity list_ring-RingLaws running ++ ascii "+x+")
    × IsCandidate received.escape_state
handle_data_mode_rx-stream_example =
    handle_data_mode_rx-stream list_ring kernel ring_capacity list_ring-RingLaws default_config true
      244 (ascii "+x+") running [] running-IsCandidate (omega arith)

-- A kernel of which only the receiver of the UART is known, on or off.
abbrev switch : Kernel Bool
switch = record {
  uptime = λ on. (on, 5000);
  uart_ready = λ on. true;
  tx_enable = λ on. on;
  tx_disable = λ on. on;
  rx_enable = λ on. true;
  rx_disable = λ on. false;
  submit_write = λ on. on;
  cancel_retry = λ on. on;
  cancel_coalesce = λ on. on;
  cancel_guard = λ on. on;
  reschedule_retry = λ ms on. on;
  reschedule_coalesce = λ ms on. on;
  reschedule_guard = λ ms on. on;
}

abbrev switch-ReceiverLaws : ReceiverLaws switch
switch-ReceiverLaws = record {
  receiving = λ on. on;
  rx_enable = λ on. refl;
  rx_disable = λ on. refl;
  tx_enable = λ on. refl;
  cancel_retry = λ on. refl;
  cancel_coalesce = λ on. refl;
  cancel_guard = λ on. refl;
}

abbrev full : State ListRing
full = record running { control_rx_paused = true }

abbrev refreshed : State ListRing × Bool
refreshed = refresh_uart_rx_flow_control list_ring switch full false

refresh_uart_rx_flow_control-receiver_example :
    let wanted =
      is_data_mode full.app_state && ltb (list_ring.space full.host_to_ble_ring) rx_chunk in
    (refreshed.0.control_rx_paused ≡ wanted) × (refreshed.1 ≡ not wanted)
refresh_uart_rx_flow_control-receiver_example =
    refresh_uart_rx_flow_control-receiver list_ring switch switch-ReceiverLaws full false refl refl

session_end-receiver_example :
    IsLeft list_ring switch switch-ReceiverLaws false (exit_data_mode list_ring switch full false)
    × IsLeft list_ring switch switch-ReceiverLaws false (close_session list_ring switch full false)
session_end-receiver_example = session_end-receiver list_ring switch switch-ReceiverLaws full false

abbrev escaping : State ListRing
escaping = record running { escape_state = record { active = true; count = 3 } }

escaping-IsCandidate : IsCandidate escaping.escape_state
escaping-IsCandidate e = (omega arith, omega arith)

abbrev guarded : State ListRing
guarded = (escape_guard_work_handler list_ring kernel default_config true 244 escaping []).0

escape_guard_work_handler-outcome_example :
    Exits list_ring kernel ring_capacity list_ring-RingLaws default_config [] escaping guarded
    ⊎ Stays list_ring kernel ring_capacity list_ring-RingLaws escaping guarded
escape_guard_work_handler-outcome_example =
    escape_guard_work_handler-outcome list_ring kernel ring_capacity list_ring-RingLaws
      default_config true 244 escaping [] escaping-IsCandidate (omega arith)

-- Data mode has been asked for, and the last reply is out.
abbrev asked : State ListRing
asked = record running {
  app_state = control_ready;
  data_mode_pending_enter = true;
  escape_state = record { active = false; count = 0 };
}

abbrev entered : State ListRing
entered = (activate_pending_data_mode list_ring kernel asked []).0

entered-mode : is_data_mode entered.app_state ≡ true
unfolding activate_pending_data_mode refresh_uart_rx_flow_control
entered-mode = refl

activate_pending_data_mode-enters_example :
    (asked.data_mode_pending_enter ≡ true)
    × (is_connected asked.current_conn ≡ true)
    × (list_ring.size asked.ctrl_tx_ring ≡ 0)
    × (entered.escape_state.active ≡ false)
    × (entered.data_mode_pending_enter ≡ false)
    × (entered.host_to_ble_ring ≡ asked.host_to_ble_ring)
activate_pending_data_mode-enters_example =
    activate_pending_data_mode-enters list_ring kernel asked [] refl entered-mode

abbrev notified : State ListRing
notified = (profile_payload_received list_ring kernel (ascii "hi") running []).0

profile_payload_received-planes_example :
    (notified.ble_to_host_ring.0 ≡ ascii "hi")
    × ((is_data_mode running.app_state ≡ false) ⊎ (notified.ctrl_tx_ring ≡ running.ctrl_tx_ring))
profile_payload_received-planes_example =
    profile_payload_received-planes list_ring kernel ring_capacity list_ring-RingLaws (ascii "hi")
      running [] (omega arith)
