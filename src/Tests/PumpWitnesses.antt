-- ===== src/Tests/PumpWitnesses.antt =====
-- The theorems on the write pump and on data mode as a whole at concrete input.
use central_uart.Prelude.{ℕ, ◌≡◌, refl, true, some, List, [], ◌∷◌, ◌++◌, arith}
use central_uart.Chars.{Text, ascii}
use central_uart.Errors.{ok}
use central_uart.Settings.{default_config}
use central_uart.Profile
use central_uart.Profile.{Gatt, zero_state}
use central_uart.Profile.Calls.{can_enter_data_mode}
use central_uart.App.{Kernel, State}
use central_uart.App.Link.{LinkLaws}
use central_uart.App.Pump.{may_send, write_loop, ble_write_work_handler}
use central_uart.App.Pump.Order.{Keeps, ble_write_work_handler-Keeps}
use central_uart.App.Pump.Ends.{write_loop-ends}
use central_uart.App.Pump.Drain.{CanSend, IsAccepting, Drained, ble_write_work_handler-Drained}
use central_uart.App.Channel.{
  Event, received, write_work, coalesce_work, events_run, channel, IsRunning, CanRun,
}
use central_uart.App.Channel.Run.{events_run-channel}
use central_uart.Tests.Fixtures.{ListRing, list_ring, list_ring-RingLaws, ring_capacity}
use central_uart.Tests.AppWitnesses.{running}

-- A world that is what the link has accepted.
abbrev pub Sent : Type 0
Sent = List ℕ

abbrev pub kernel : Kernel Sent
kernel = record {
  uptime = λ sent. (sent, 5000);
  uart_ready = λ sent. true;
  tx_enable = λ sent. sent;
  tx_disable = λ sent. sent;
  rx_enable = λ sent. sent;
  rx_disable = λ sent. sent;
  submit_write = λ sent. sent;
  cancel_retry = λ sent. sent;
  cancel_coalesce = λ sent. sent;
  cancel_guard = λ sent. sent;
  reschedule_retry = λ ms sent. sent;
  reschedule_coalesce = λ ms sent. sent;
  reschedule_guard = λ ms sent. sent;
}

-- A stack that accepts every write command.
abbrev pub gatt : Gatt Text Sent
gatt = record {
  discover_primary = 0;
  discover_characteristic = 3;
  first_handle = 1;
  last_handle = 0xffff;
  auto_ccc = 0;
  ccc_notify = 1;
  write_without_resp = 4;
  write_with_resp = 8;
  data_len_enabled = true;
  phy_enabled = true;
  uuid_to_str = λ u. u;
  get_mtu = λ conn sent. 247;
  discover = λ conn params sent. (sent, ok);
  subscribe = λ conn params sent. (sent, ok);
  unsubscribe = λ conn params sent. (sent, ok);
  exchange_mtu = λ conn sent. (sent, ok);
  send_command = λ conn handle bytes sent. (sent ++ bytes, ok);
  send_request = λ conn params bytes sent. (sent, ok);
  data_len_update = λ conn sent. (sent, ok);
  phy_update = λ conn sent. (sent, ok);
}

abbrev link : LinkLaws gatt kernel
link = record {
  accepted = λ sent. sent;
  command = λ conn handle bytes sent. refl;
  uptime = λ sent. refl;
  rx_enable = λ sent. refl;
  rx_disable = λ sent. refl;
  submit_write = λ sent. refl;
  cancel_coalesce = λ sent. refl;
  cancel_guard = λ sent. refl;
  reschedule_retry = λ n sent. refl;
  reschedule_coalesce = λ n sent. refl;
  reschedule_guard = λ n sent. refl;
}

-- A manager that is ready on a connection with an MTU of 23.
abbrev pub manager : Profile.State
manager = record zero_state {
  conn = some 0;
  ready = true;
  write_found = true;
  write_value_handle = 21;
  write_properties = 4;
  payload_len = 20;
}

manager-may : may_send list_ring kernel gatt manager ≡ true
unfolding can_enter_data_mode
manager-may = refl

manager-CanSend : CanSend list_ring kernel gatt ring_capacity list_ring-RingLaws link manager
manager-CanSend = record {
  may = manager-may;
  linked = λ e. (cc);
  sized = record { at_least = omega arith; at_most = omega arith };
}

gatt-IsAccepting : IsAccepting list_ring kernel gatt ring_capacity list_ring-RingLaws link
gatt-IsAccepting conn handle bytes sent = refl

ble_write_work_handler-Keeps_example :
    Keeps list_ring kernel gatt ring_capacity list_ring-RingLaws link manager running []
      (ble_write_work_handler list_ring kernel gatt manager running [])
ble_write_work_handler-Keeps_example =
    ble_write_work_handler-Keeps list_ring kernel gatt ring_capacity list_ring-RingLaws link manager
      running [] refl

-- A failed send has left a claim of one byte open.
abbrev half_claimed : State ListRing
half_claimed = record running { host_to_ble_ring = (ascii "ab", omega arith, 1, omega arith) }

write_loop-ends_example :
    write_loop list_ring kernel gatt 9 manager half_claimed []
    ≡ ble_write_work_handler list_ring kernel gatt manager half_claimed []
write_loop-ends_example =
    write_loop-ends list_ring kernel gatt ring_capacity list_ring-RingLaws link 9 manager
      half_claimed [] (omega arith)

ble_write_work_handler-Drained_example :
    Drained list_ring kernel gatt ring_capacity list_ring-RingLaws link manager running []
      (ble_write_work_handler list_ring kernel gatt manager running [])
ble_write_work_handler-Drained_example =
    ble_write_work_handler-Drained list_ring kernel gatt ring_capacity list_ring-RingLaws link
      manager running [] manager-CanSend gatt-IsAccepting refl refl

-- Three bytes arrive behind the two pluses, the coalescing time ends, and the pump runs.
abbrev events : List Event
events = received (ascii "hi!") ∷ coalesce_work ∷ write_work ∷ []

running-IsRunning :
    IsRunning list_ring kernel gatt ring_capacity list_ring-RingLaws link default_config manager
      running
running-IsRunning = record {
  mode = refl;
  linked = refl;
  settled = refl;
  candidate = λ e. (omega arith, omega arith);
}

events-CanRun :
    CanRun list_ring kernel gatt ring_capacity list_ring-RingLaws link default_config manager events
      running []
events-CanRun = (omega arith, (tt, (tt, tt)))

abbrev done : State ListRing × Sent
done = events_run list_ring kernel gatt default_config manager events running []

events_run-channel_example :
    (channel list_ring kernel gatt ring_capacity list_ring-RingLaws link default_config manager
        done.0 done.1
      ≡ ascii "ab++hi!")
    × IsRunning list_ring kernel gatt ring_capacity list_ring-RingLaws link default_config manager
        done.0
events_run-channel_example =
    events_run-channel list_ring kernel gatt ring_capacity list_ring-RingLaws link default_config
      manager events running [] manager-CanSend gatt-IsAccepting running-IsRunning events-CanRun
