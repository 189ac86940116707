-- ===== src/Settings.antt =====
-- apps/nrf52840_ble_at_host/src/settings.c, with the records of app_common.h. `g_config` is passed
-- in and handed back. The settings subsystem of Zephyr is the parameter `Storage W`, `W` being the
-- state of the flash.
pub mod Load
pub mod Save
pub mod Update
use Prim.Native.String.{String}
use central_uart.Prelude.{
  ℕ, zero, suc, ◌+◌, ◌-◌, ◌*◌, ◌/◌, ◌%◌, Bool, true, false, not, ◌&&◌, ◌||◌, Option, none, some,
  List, [], ◌∷◌, ◌++◌, leb, ltb, ◌==◌, if◌then◌else◌, length, take, drop,
}
use central_uart.Chars.{Text, ascii, until_nul, snprintk_s}
use central_uart.Errors.{Rc, ok, err, Errno, einval, enoent}
use central_uart.Uuid.{uuid_str_len, normalize_uuid, normalize}

-- `struct ble_profile`
pub record Profile : Type 0 where
  pub service_uuid : Text
  pub notify_uuid : Text
  pub write_uuid : Text

-- `struct ble_host_config`; the numbers are uint16_t
pub record Config : Type 0 where
  pub active_profile : Profile
  pub mtu : ℕ
  pub conn_interval_min : ℕ
  pub conn_interval_max : ℕ
  pub latency : ℕ
  pub timeout : ℕ
  pub auto_mtu : Bool
  pub auto_subscribe : Bool
  pub prefer_2m_phy : Bool
  pub prefer_dle : Bool
  pub allow_data_mode : Bool
  pub stream_guard_time_ms : ℕ

-- the initial value of `g_config`
abbrev pub default_config : Config
default_config = record {
  active_profile = record {
    service_uuid = ascii "0xFFF0";
    notify_uuid = ascii "0xFFF1";
    write_uuid = ascii "0xFFF2";
  };
  mtu = 259;
  conn_interval_min = 6;
  conn_interval_max = 9;
  latency = 0;
  timeout = 400;
  auto_mtu = true;
  auto_subscribe = true;
  prefer_2m_phy = true;
  prefer_dle = true;
  allow_data_mode = true;
  stream_guard_time_ms = 1000;
}

-- What a `settings_read_cb` returns: a negative error, or the bytes that it wrote.
pub data ReadResult : Type 0 where
  failed : Errno → ReadResult
  got : List ℕ → ReadResult

-- One call of the handler: the name behind the root, the stored length, and the reader, which is
-- given the size of the destination.
pub record Item : Type 0 where
  pub name : Text
  pub len : ℕ
  pub read : ℕ → ReadResult

pub record Storage (W : Type 0) : Type 0 where
  pub name_steq : Text → Text → Bool  -- settings_name_steq(name, key, NULL)
  pub save_one : Text → List ℕ → W → W × Rc  -- settings_save_one
  pub subsys_init : W → W × Rc  -- settings_subsys_init
  pub load_subtree : Text → W → List Item × Rc  -- the values that the load encounters, its result

-- The names of the handler and the keys below SETTINGS_ROOT.
abbrev pub root : Text
root = ascii "ble_at_host"
