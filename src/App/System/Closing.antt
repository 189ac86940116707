-- ===== src/App/System/Closing.antt =====
-- The end of a connection in main.c: what `disconnected` leaves behind.
use central_uart.Prelude.{ℕ, ◌≡◌, false, Option, none, some, [], ◌≢◌}
use central_uart.Profile
use central_uart.App.{idle, Ring, RingLaws, Kernel, State}
use central_uart.App.System.{System}

module _ {R K : Type 0} (ring : Ring R) (kernel : Kernel K) (capacity : ℕ)
    (laws : RingLaws ring capacity) where
  open laws use {contents, claimed}

  -- No session: idle, nothing left for or from the connection, nothing held back or pending, and the
  -- flag of flow control clear. It says nothing of the receiver itself.
  pub record IsClosed (conn : Option ℕ) (s : State R) : Type 0 where
    pub mode : s.app_state ≡ idle
    pub same_conn : s.current_conn ≡ conn
    pub nothing_to_send : contents s.host_to_ble_ring ≡ []
    pub nothing_received : contents s.ble_to_host_ring ≡ []
    pub settled : claimed s.host_to_ble_ring ≡ 0
    pub no_candidate : s.escape_state.active ≡ false
    pub not_pending : s.data_mode_pending_enter ≡ false
    pub not_paused : s.control_rx_paused ≡ false

-- What the profile manager does with the end of a connection: nothing if it is on another one or on
-- none, and otherwise nothing of the old one is left: no connection, not ready, no request under way.
pub data HasLetGo (conn : ℕ) (before after : Profile.State) : Type 0 where
  elsewhere : before.conn ≢ some conn → after ≡ before → HasLetGo conn before after
  released :
      after.conn ≡ none
      → after.ready ≡ false
      → after.write_in_progress ≡ false
      → after.exchange_in_progress ≡ false
      → after.subscribe_params.armed ≡ false
      → HasLetGo conn before after
