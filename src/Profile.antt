-- ===== src/Profile.antt =====
-- apps/nrf52840_ble_at_host/src/profile_manager.c: discovery of the active profile, MTU exchange and
-- writes. `g_state` is the record `State`; the Bluetooth stack of Zephyr is the parameter `Gatt U W`
-- over the rest `W` of the program's state, and the callbacks of the application are functions on it.
-- `config` is what `g_state.config` points to at the time of the call, `none` for NULL: the pointer
-- is to `g_config` of settings.c, so that it reads the settings as they are then.
pub mod Calls
pub mod Handlers
pub mod Payload
pub mod Send
pub mod Machine
pub mod Sound
pub mod Sized
pub mod Frame
use central_uart.Prelude.{ℕ, Bool, true, false, Option, none, List, []}
use central_uart.Chars.{Text}
use central_uart.Errors.{Rc}

-- BLE_HOST_SEND_MAX_LEN
abbrev pub send_max_len : ℕ
send_max_len = 256

-- `enum profile_manager_error`
pub data ManagerError : Type 0 where
  service_missing notify_missing write_missing : ManagerError
  discover_failed subscribe_failed write_failed : ManagerError

-- `struct bt_gatt_discover_params`, as far as the source sets it; `armed` is `func != NULL`.
pub record DiscoverParams : Type 0 where
  pub armed : Bool
  pub start_handle : ℕ
  pub end_handle : ℕ
  pub type : ℕ

-- `struct bt_gatt_subscribe_params`; `armed` is that both handlers are set.
pub record SubscribeParams : Type 0 where
  pub armed : Bool
  pub value_handle : ℕ
  pub ccc_handle : ℕ
  pub end_handle : ℕ
  pub value : ℕ

-- `struct bt_gatt_write_params`; `armed` is `func != NULL`, and `data` then points to
-- `g_state.pending_write`: the stack reads the bytes of that buffer, as they are when it sends them.
pub record WriteParams : Type 0 where
  pub armed : Bool
  pub handle : ℕ
  pub offset : ℕ
  pub length : ℕ

-- What memset to 0 leaves.
abbrev pub no_discover : DiscoverParams
no_discover = record { armed = false; start_handle = 0; end_handle = 0; type = 0 }

abbrev pub no_subscribe : SubscribeParams
no_subscribe = record { armed = false; value_handle = 0; ccc_handle = 0; end_handle = 0; value = 0 }

abbrev pub no_write : WriteParams
no_write = record { armed = false; handle = 0; offset = 0; length = 0 }

-- `struct profile_manager_state`, less the pointers that never change. A connection is known by a
-- number. `exchange_armed` is `exchange_params.func != NULL`; `pending_write` holds
-- `pending_write_len` bytes.
pub record State : Type 0 where
  pub conn : Option ℕ
  pub service_discover_params : DiscoverParams
  pub characteristic_discover_params : DiscoverParams
  pub subscribe_params : SubscribeParams
  pub exchange_armed : Bool
  pub write_params : WriteParams
  pub service_start_handle : ℕ
  pub service_end_handle : ℕ
  pub notify_value_handle : ℕ
  pub write_value_handle : ℕ
  pub write_properties : ℕ
  pub ready : Bool
  pub service_found : Bool
  pub notify_found : Bool
  pub write_found : Bool
  pub exchange_in_progress : Bool
  pub write_in_progress : Bool
  pub payload_len : ℕ
  pub pending_write : List ℕ
  pub pending_write_len : ℕ

abbrev pub zero_state : State
zero_state = record {
  conn = none;
  service_discover_params = no_discover;
  characteristic_discover_params = no_discover;
  subscribe_params = no_subscribe;
  exchange_armed = false;
  write_params = no_write;
  service_start_handle = 0;
  service_end_handle = 0;
  notify_value_handle = 0;
  write_value_handle = 0;
  write_properties = 0;
  ready = false;
  service_found = false;
  notify_found = false;
  write_found = false;
  exchange_in_progress = false;
  write_in_progress = false;
  payload_len = 0;
  pending_write = [];
  pending_write_len = 0;
}

-- The attribute of a primary service and of a characteristic, with its `user_data`.
pub record Service (U : Type 0) : Type 0 where
  pub handle : ℕ
  pub uuid : U
  pub end_handle : ℕ

pub record Characteristic (U : Type 0) : Type 0 where
  pub uuid : U
  pub value_handle : ℕ
  pub properties : ℕ

-- The stack: constants of its headers, build options of prj.conf, and its calls.
pub record Gatt (U W : Type 0) : Type 0 where
  pub discover_primary : ℕ
  pub discover_characteristic : ℕ
  pub first_handle : ℕ
  pub last_handle : ℕ
  pub auto_ccc : ℕ
  pub ccc_notify : ℕ
  pub write_without_resp : ℕ
  pub write_with_resp : ℕ
  pub data_len_enabled : Bool
  pub phy_enabled : Bool
  pub uuid_to_str : U → Text
  pub get_mtu : ℕ → W → ℕ
  pub discover : ℕ → DiscoverParams → W → W × Rc
  pub subscribe : ℕ → SubscribeParams → W → W × Rc
  pub unsubscribe : ℕ → SubscribeParams → W → W × Rc
  pub exchange_mtu : ℕ → W → W × Rc
  pub send_command : ℕ → ℕ → List ℕ → W → W × Rc  -- bt_gatt_write_without_response
  -- bt_gatt_write, with what `data` points to when it is called
  pub send_request : ℕ → WriteParams → List ℕ → W → W × Rc
  pub data_len_update : ℕ → W → W × Rc
  pub phy_update : ℕ → W → W × Rc

-- `struct profile_manager_callbacks`
pub record Callbacks (W : Type 0) : Type 0 where
  pub ready : Option (W → W)
  pub payload_received : Option (List ℕ → W → W)
  pub mtu_updated : Option (ℕ → W → W)
  pub error : Option (ManagerError → W → W)

-- What a discovery callback returns: BT_GATT_ITER_STOP or BT_GATT_ITER_CONTINUE.
pub data Iter : Type 0 where
  stop continue : Iter
