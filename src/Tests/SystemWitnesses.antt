-- ===== src/Tests/SystemWitnesses.antt =====
-- The theorems on scanning, connecting and the serial side of main.c at concrete input.
use central_uart.Prelude.{
  ℕ, ◌≡◌, refl, true, ◌&&◌, none, some, List, [], ◌∷◌, ◌++◌, arith, length, ap, ◌==◌, Bool, take,
  min, ◌∙◌, take-length-take, length-take,
}
use central_uart.Chars.{Text, ascii, equal}
use central_uart.Errors.{ok}
use central_uart.Settings.{default_config}
use central_uart.App.{Address, idle}
use central_uart.App.Scan.{Radio, parse_device_name, parse_connect_mac, clear_scan_cache}
use central_uart.App.Scan.Fields.{encoded, parse_device_name-encoded}
use central_uart.App.Scan.Mac.{parse_connect_mac-hex_pairs}
use central_uart.App.Scan.Reports.{Report, reports_run, IsTable, reports_run-IsTable}
use central_uart.App.Uart.{Driver, Usb, control_line_state, service_uart_tx}
use central_uart.App.Uart.Moving.{DriverLaws}
use central_uart.App.Uart.Sending.{Sends, service_uart_tx-Sends}
use central_uart.App.System.{created, Platform, System}
use central_uart.App.System.Ops.{op_connect}
use central_uart.App.System.Ops.Connect.{Connects, op_connect-Connects}
use central_uart.App.System.Linked.{IsLinked}
use central_uart.App.System.Steps.{
  Event, interrupt, write_work, guard_work, link_up, link_down, profile_event, usb_message,
  steps_run, steps_run-IsLinked,
}
use central_uart.Profile.Machine.{subscribed}
use central_uart.At.Receive.{initial}
use central_uart.Tests.Fixtures.{ListRing, list_ring, list_ring-RingLaws, ring_capacity, addr_types}
use central_uart.Tests.AppWitnesses.{running}
use central_uart.Tests.PumpWitnesses.{Sent, kernel, gatt, manager}

-- Two addresses are equal if their bytes and types are.
abbrev same_address : Address → Address → Bool
same_address a b = a.type == b.type && equal a.val b.val

abbrev radio : Radio Sent
radio = record {
  name_shortened = 8;
  name_complete = 9;
  adv_ind = 0;
  adv_direct_ind = 1;
  scan_rsp = 4;
  ext_adv = 5;
  addr_equal = same_address;
  addr_to_str = λ val. val;
  addr_from_str = λ text. none;
  scan_start = λ sent. (sent, ok);
  scan_stop = λ sent. (sent, ok);
  schedule_scan_stop = λ seconds sent. sent;
  cancel_scan_stop = λ sent. sent;
}

abbrev platform : Platform Text ListRing Sent
platform = record {
  ring = list_ring;
  kernel = kernel;
  gatt = gatt;
  radio = radio;
  conns = record {
    remote_user_term = 0x13;
    create = λ peer param sent. (sent, created 7);
    disconnect = λ conn reason sent. (sent, ok);
    param_update = λ conn param sent. (sent, ok);
    unref = λ conn sent. sent;
    get_dst = λ conn sent. record { type = 0; val = [] };
  };
  storage = record {
    name_steq = equal;
    save_one = λ name value sent. (sent, ok);
    subsys_init = λ sent. (sent, ok);
    load_subtree = λ name sent. ([], ok);
  };
  addr_types = addr_types;
}

-- Flags, then a complete name, then the end.
parse_device_name-encoded_example :
    parse_device_name radio (encoded ((1, 6 ∷ []) ∷ (9, ascii "UART") ∷ []) (0 ∷ 0 ∷ []))
    ≡ ascii "UART"
parse_device_name-encoded_example =
    parse_device_name-encoded radio ((1, 6 ∷ []) ∷ (9, ascii "UART") ∷ []) (0 ∷ 0 ∷ []) refl

parse_connect_mac-hex_pairs_example :
    parse_connect_mac radio (ascii "0xC01122334455")
    ≡ some (0x55 ∷ 0x44 ∷ 0x33 ∷ 0x22 ∷ 0x11 ∷ 0xC0 ∷ [])
parse_connect_mac-hex_pairs_example =
    parse_connect_mac-hex_pairs radio true b'x' (0xC0 ∷ 0x11 ∷ 0x22 ∷ 0x33 ∷ 0x44 ∷ 0x55 ∷ []) refl
      refl refl

abbrev reports : List Report
reports =
    record { addr = record { type = 0; val = 1 ∷ [] }; rssi = 200; type = 0; ad = [] }
    ∷ record {
      addr = record { type = 1; val = 1 ∷ [] };
      rssi = 190;
      type = 4;
      ad = 3 ∷ 9 ∷ 65 ∷ 66 ∷ [];
    }
    ∷ []

==_sym : (a b : ℕ) → (a == b) ≡ (b == a)
==_sym a b = ground arith

equal_sym : (a b : Text) → equal a b ≡ equal b a
unfolding equal
equal_sym [] [] = refl
equal_sym [] (y ∷ b) = refl
equal_sym (x ∷ a) [] = refl
equal_sym (x ∷ a) (y ∷ b) = rw (==_sym x y, equal_sym a b) refl

same_address-sym : (a b : Address) → same_address a b ≡ same_address b a
same_address-sym a b = rw (==_sym a.type b.type, equal_sym a.val b.val) refl

reports_run-IsTable_example :
    IsTable list_ring kernel radio addr_types
      (reports_run list_ring kernel radio addr_types reports (clear_scan_cache running) []).0
reports_run-IsTable_example =
    reports_run-IsTable list_ring kernel radio addr_types reports running [] same_address-sym

-- A driver that takes at most eight bytes at a time.
abbrev driver : Driver Sent
driver = record {
  irq_update = λ sent. (sent, true);
  irq_is_pending = λ sent. (sent, true);
  irq_tx_ready = λ sent. (sent, true);
  irq_rx_ready = λ sent. (sent, true);
  fifo_fill = λ bytes sent. (sent ++ take 8 bytes, some (min 8 (length bytes)));
  fifo_read = λ n sent. (sent, some (ascii "AT\r\n"));
}

take-min : (n : ℕ) (bytes : List ℕ) → take n bytes ≡ take (min n (length bytes)) bytes
take-min n bytes = take-length-take n bytes ∙ ap (λ m. take m bytes) (length-take n bytes)

driver-DriverLaws : DriverLaws driver kernel
driver-DriverLaws = record {
  written = λ sent. sent;
  fill = λ bytes sent. ap (λ l. sent ++ l) (take-min 8 bytes);
  fill-le = λ bytes sent. omega arith;
  uptime = λ sent. refl;
  tx_disable = λ sent. refl;
  rx_enable = λ sent. refl;
  rx_disable = λ sent. refl;
  cancel_retry = λ sent. refl;
  cancel_coalesce = λ sent. refl;
}

service_uart_tx-Sends_example :
    Sends list_ring kernel driver ring_capacity list_ring-RingLaws driver-DriverLaws running []
      (service_uart_tx list_ring kernel driver running [])
service_uart_tx-Sends_example =
    service_uart_tx-Sends list_ring kernel driver ring_capacity list_ring-RingLaws driver-DriverLaws
      running [] refl refl

abbrev start : System ListRing Sent
start = record {
  config = default_config;
  manager = manager;
  app = record running { app_state = idle; current_conn = none };
  hardware = [];
}

op_connect-Connects_example :
    Connects platform start (op_connect platform (ascii "0xC01122334455") 1 start)
op_connect-Connects_example = op_connect-Connects platform (ascii "0xC01122334455") 1 start

abbrev usb : Usb Sent
usb = record {
  can_detect_vbus = true;
  init_device = λ sent. (sent, true);
  enable = λ sent. (sent, ok);
  disable = λ sent. (sent, ok);
  give_usb_ready = λ sent. sent;
  bt_enable = λ sent. (sent, ok);
  wait_ready = λ sent. sent;
  line_ctrl_set = λ sent. sent;
  irq_callback_set = λ sent. sent;
}

-- The terminal opens, a command arrives, a connection comes up and its profile gets ready, and it ends.
abbrev events : List (Event Text)
events =
    usb_message (control_line_state 1)
    ∷ interrupt
    ∷ link_up 7 0
    ∷ profile_event (subscribed 0)
    ∷ interrupt
    ∷ write_work
    ∷ guard_work
    ∷ link_down 7 0x13
    ∷ interrupt
    ∷ []

start-IsLinked : IsLinked start.app
start-IsLinked h = ground arith

steps_run-IsLinked_example : IsLinked (steps_run platform driver usb events (initial, start)).1.app
steps_run-IsLinked_example =
    steps_run-IsLinked platform driver usb events (initial, start) start-IsLinked

abbrev linked : System ListRing Sent
linked = record start { app = running }
