-- ===== src/Lib.antt =====
-- The firmware of apps/nrf52840_ble_at_host: a Bluetooth LE central on an nRF52840 that a computer
-- drives over a serial port with AT commands. Bytes of the serial port go to the AT host
-- (src/at_host.c), which collects lines and payloads and calls the operations that the application
-- registers; the application (src/main.c) scans, connects and hands payloads to the profile manager
-- (src/profile_manager.c), which discovers the service and its two characteristics and writes; the
-- settings (src/settings.c) hold the active profile and the link parameters and keep them in flash;
-- src/app_common.c normalises UUIDs and converts address types. All these files are in
-- apps/nrf52840_ble_at_host.
--
-- Files. Prelude has the shared names, Boolean tests and list lemmas, Chars the C text and <ctype.h>,
-- Errors the errno results.
--   Uuid: ble_host_normalize_uuid, ble_host_uuid_equals and their helpers (app_common.c). The loop
--     that drops the dashes is compact_loop, what stands behind it from_compact.
--   AddrType: the address types and ble_host_is_printable_ascii (app_common.c).
--   Settings: settings.c. g_config is passed in and handed back; settings_handle_set and settings_init
--     (Settings.Load) and the three updates (Settings.Save) carry the names of the source without
--     their ble_host_settings prefix.
--   Profile: profile_manager.c. The record State is g_state; Profile.Calls has the public functions,
--     Profile.Handlers the callbacks that the stack runs, and Profile.Machine composes both as a
--     machine whose events come in any order.
--   At: at_host.c. The record State is g_state less the registered pointers, which are the record
--     Host. At.Scan has the text helpers, At.Reply the output, At.Actions one function for each
--     command with arguments, At.Command process_command, At.Receive the loop of at_host_rx_bytes,
--     At.Notify the at_host_notify functions.
--   App: main.c. The record State holds its static variables. App.Output has what is queued for the
--     computer and at_tx, App.Escape the functions from clear_data_mode_session to
--     escape_guard_work_handler, App.Callbacks the callbacks of the profile manager and the entry to
--     data mode; what the profile manager answers is passed in. App.Pump is ble_write_work_handler
--     with its timers, App.Receiver its flow control on the UART, App.Channel the events of data
--     mode together; App.Calm and App.Link say what of the state and of the link they leave alone.
--     App.Scan has the scan, its table and the text of an address, App.Uart the interrupt of the
--     UART, the events of USB and main.
--   App.System: main.c on the whole state, the record System, with g_config, the profile manager and
--     the rest. System.Ops has the operations that at_ops registers, under their names, System.Linking
--     the connection callbacks. System.Steps composes the whole program as a machine, whose events are
--     rounds of the UART interrupt, the work items, the callbacks of the stack and messages of USB;
--     At.Frame and Profile.Frame carry what the application keeps through the AT host and the profile
--     manager.
--   Tests: a concrete application, stack and flash, and the theorems at concrete input.
--
-- Conventions. A char pointer is the list of the bytes before its NUL, and NULL is none where the
-- source tests for it. Integers are natural numbers: the functions that store a number test its range
-- or cut it down first, and the wrap-around of strtoul is written out for the 32-bit unsigned long of
-- the CPU. snprintk is cut at the size of its buffer. Loops are structural recursion over the input
-- but for four. The digits that decimal prints are ten at most, enough for an unsigned int. The write
-- pump takes one round for each byte that the ring holds, claimed or not, and one more, and the fields
-- of advertising data one for each byte: more rounds change nothing, as App.Pump.Ends and
-- App.Scan.Fields show. The loop of the UART interrupt ends when the driver says so, and
-- control_uart_isr runs for given rounds and tells whether it has ended. write_params.data of the
-- profile manager points to its buffer pending_write: the record WriteParams keeps no copy, and the stack
-- is handed the buffer as it is then.
-- The rest of the program's state is the type W that the operations take and hand back; an operation
-- does not call back into the AT host.
--
-- Outside the repository, and parameters here: the GATT client of Zephyr (Profile.Gatt), its settings
-- subsystem (Settings.Storage), its address constants (AddrType.AddrTypes), bt_uuid_to_str (the field
-- uuid_to_str), its ring buffers (App.Ring, with their documented laws in App.RingLaws), its clock,
-- interrupt enables and work queue (App.Kernel), scanner and addresses (App.Scan.Radio), connections
-- (App.System.Conns), UART driver (App.Uart.Driver, with App.Uart.Moving.DriverLaws) and USB stack
-- (App.Uart.Usb). App.Link.LinkLaws says that a write command that returns 0 has queued its bytes and
-- one that fails none, and that timers do not touch the link; App.Receiver.ReceiverLaws that the two
-- calls of the UART turn its receiver on and off. bt_addr_le_cmp is symmetric. A stack reports an ATT
-- MTU of at least 23 (Profile.Payload.HasAttMtu).
--
-- Not modelled: the set-up of work items and semaphores and the log of main.c, the Python client, the
-- scripts and the build files. Each call, callback and handler is run to its end before the next one:
-- preemption by an interrupt in the middle of one is not modelled.
pub mod Prelude
pub mod Chars
pub mod Errors
pub mod Uuid
pub mod AddrType
pub mod Settings
pub mod Profile
pub mod At
pub mod App
pub mod Tests
