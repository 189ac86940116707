-- ===== src/At.antt =====
-- apps/nrf52840_ble_at_host/src/at_host.c and at_host.h: the AT command host. The context pointer
-- stands for the rest `W` of the program's state; the operations and the output that the application
-- registers are functions on it.
pub mod Scan
pub mod Reply
pub mod Actions
pub mod Command
pub mod Receive
pub mod Notify
pub mod Numbers
pub mod Arguments
pub mod Bounds
pub mod Lines
pub mod Payload
pub mod Chunks
pub mod Frame
use central_uart.Prelude.{ℕ, Bool, Option, List}
use central_uart.Chars.{Text}
use central_uart.Errors.{Rc}
use central_uart.Settings.{Profile}

-- `struct ble_host_status`
pub record Status : Type 0 where
  pub connected : Bool
  pub ready : Bool
  pub mac : Text
  pub conn_count : ℕ
  pub data_len : ℕ

-- `struct ble_stream_stats`
pub record StreamStats : Type 0 where
  pub bytes_host_to_ble : ℕ
  pub bytes_ble_to_host : ℕ
  pub write_ops : ℕ
  pub notify_ops : ℕ
  pub usb_backpressure_count : ℕ
  pub max_host_to_ble_depth : ℕ
  pub max_ble_to_host_depth : ℕ
  pub enter_data_mode_count : ℕ
  pub unexpected_disconnect_count : ℕ

-- `struct at_host_ops`. The queries only read the context. The pointers that the host tests for
-- NULL are options.
pub record Ops (W : Type 0) : Type 0 where
  pub start_scan : ℕ → Option Text → W → W × Rc
  pub connect : Text → ℕ → W → W × Rc
  pub disconnect : ℕ → W → W × Rc
  pub send_payload : ℕ → List ℕ → W → W × Rc
  pub get_status : W → Status
  pub get_profile : W → Profile
  pub set_profile : Text → Text → Text → W → W × Rc
  pub set_mtu : ℕ → W → W × Rc
  pub get_mtu : W → ℕ
  pub request_mtu : ℕ → W → W × Rc
  pub set_conn_params : ℕ → ℕ → ℕ → ℕ → ℕ → W → W × Rc
  pub enter_data_mode : Option (ℕ → W → W × Rc)
  pub get_stream_stats : Option (W → StreamStats)

-- `struct at_host_tx`
pub record Tx (W : Type 0) : Type 0 where
  pub line : Option (Text → W → W)
  pub raw : Option (List ℕ → W → W)

-- What `at_host_init` registers. `ops` is not NULL: every use but two goes through it with no test.
pub record Host (W : Type 0) : Type 0 where
  pub ops : Ops W
  pub tx : Option (Tx W)

-- `struct at_host_state`, less what `Host` holds. `line` is `line_buffer[0..line_length)`, and
-- `payload` is `payload_buffer[0..payload_received)`.
pub record State : Type 0 where
  pub line : List ℕ
  pub line_overflow : Bool
  pub payload_mode : Bool
  pub payload : List ℕ
  pub payload_expected : ℕ
  pub payload_conn_index : ℕ

-- `enum at_error_kind`
pub data ErrorKind : Type 0 where
  invalid_command invalid_parameters function_error : ErrorKind

-- `enum at_command_result`
pub data CommandResult : Type 0 where
  nothing enter_payload : CommandResult
