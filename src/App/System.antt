-- ===== src/App/System.antt =====
-- main.c as a whole: its state with the settings and the profile manager, and what it calls.
pub mod Ops
pub mod Linking
pub mod Linked
pub mod Steps
pub mod Closing
use central_uart.Prelude.{ℕ, Option, some}
use central_uart.Errors.{Errno, Rc}
use central_uart.AddrType.{AddrTypes}
use central_uart.Settings.{Config, Storage}
use central_uart.Profile
use central_uart.Profile.{Gatt, Callbacks}
use central_uart.At.{Tx}
use central_uart.App.{Address, Ring, Kernel, State}
use central_uart.App.Output.{queue_ctrl_line, queue_ctrl_bytes}
use central_uart.App.Pump.{beside, profile_callbacks}
use central_uart.App.Scan.{Radio}

-- `struct bt_le_conn_param`
pub record ConnParam : Type 0 where
  pub interval_min : ℕ
  pub interval_max : ℕ
  pub latency : ℕ
  pub timeout : ℕ

-- What `bt_conn_le_create` returns: an error, or 0 and the new connection.
pub data Created : Type 0 where
  refused : Errno → Created
  created : ℕ → Created

-- The connections of the Bluetooth stack.
pub record Conns (K : Type 0) : Type 0 where
  pub remote_user_term : ℕ  -- BT_HCI_ERR_REMOTE_USER_TERM_CONN
  pub create : Address → ConnParam → K → K × Created  -- bt_conn_le_create
  pub disconnect : ℕ → ℕ → K → K × Rc  -- bt_conn_disconnect
  pub param_update : ℕ → ConnParam → K → K × Rc  -- bt_conn_le_param_update
  pub unref : ℕ → K → K  -- bt_conn_unref
  pub get_dst : ℕ → K → Address  -- bt_conn_get_dst

-- What main.c runs on.
pub record Platform (U R K : Type 0) : Type 0 where
  pub ring : Ring R
  pub kernel : Kernel K
  pub gatt : Gatt U K
  pub radio : Radio K
  pub conns : Conns K
  pub storage : Storage K
  pub addr_types : AddrTypes

-- The state of the program: `g_config` of settings.c, `g_state` of profile_manager.c, the static
-- variables of main.c, and the rest.
pub record System (R K : Type 0) : Type 0 where
  pub config : Config
  pub manager : Profile.State
  pub app : State R
  pub hardware : K

module _ {R K : Type 0} where
  -- A step of the application alone.
  abbrev pub on_app : (State R × K → State R × K) → System R K → System R K
  on_app f y = let (s, k) = f (y.app, y.hardware) in record y { app = s; hardware = k }

  -- A call of the profile manager, whose callbacks change the application.
  abbrev pub on_manager :
      (Profile.State → State R × K → Profile.State × (State R × K) × Rc)
      → System R K
      → System R K × Rc
  on_manager f y =
      let (pm, (s, k), rc) = f y.manager (y.app, y.hardware) in
      (record y { manager = pm; app = s; hardware = k }, rc)

module _ {U R K : Type 0} (p : Platform U R K) where
  -- The stack and the callbacks as the profile manager sees them.
  abbrev pub app_gatt : Gatt U (State R × K)
  app_gatt = beside p.gatt

  abbrev pub app_callbacks : Option (Callbacks (State R × K))
  app_callbacks = some (profile_callbacks p.ring p.kernel)

  -- `at_tx`: what the AT host sends goes to the ring of the control plane.
  abbrev pub system_tx : Tx (System R K)
  system_tx = record {
    line = some (λ text. on_app (λ (s, k). queue_ctrl_line p.ring p.kernel text s k));
    raw = some (λ bytes. on_app (λ (s, k). queue_ctrl_bytes p.ring p.kernel bytes s k));
  }
