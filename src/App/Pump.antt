-- ===== src/App/Pump.antt =====
-- The write pump of main.c: from the ring to the Bluetooth link.
pub mod Order
pub mod Ends
pub mod Drain
use central_uart.Prelude.{
  ℕ, zero, suc, ◌+◌, ◌-◌, ◌%◌, ◌^◌, Bool, true, false, not, ◌&&◌, none, some, List, ltb, ◌==◌,
  if◌then◌else◌, length, take,
}
use central_uart.Errors.{Errno, Rc, enomem, eagain, ebusy, eacces, ok, err}
use central_uart.Profile.{Gatt, Callbacks, send_max_len}
use central_uart.Profile.Calls.{send, can_enter_data_mode}
use central_uart.Profile
use central_uart.App.{host_ring_size, Ring, Kernel, State}
use central_uart.App.Output
use central_uart.App.Escape.{coalesce_ms, is_data_mode, is_connected, refresh_uart_rx_flow_control}
use central_uart.App.Callbacks.{
  profile_ready, profile_payload_received, profile_mtu_updated, profile_error,
}

-- The errors after which the pump is run again.
abbrev pub is_retried : Errno → Bool
is_retried enomem = true
is_retried eagain = true
is_retried ebusy = true
is_retried eacces = true
is_retried _ = false

-- K_MSEC(2) of the retry
abbrev pub retry_ms : ℕ
retry_ms = 2

-- A stack on the hardware `K` as one on the state of the application and the hardware: its calls
-- leave the variables of the application alone.
abbrev pub beside : {S U K : Type 0} → Gatt U K → Gatt U (S × K)
beside g = record {
  discover_primary = g.discover_primary;
  discover_characteristic = g.discover_characteristic;
  first_handle = g.first_handle;
  last_handle = g.last_handle;
  auto_ccc = g.auto_ccc;
  ccc_notify = g.ccc_notify;
  write_without_resp = g.write_without_resp;
  write_with_resp = g.write_with_resp;
  data_len_enabled = g.data_len_enabled;
  phy_enabled = g.phy_enabled;
  uuid_to_str = g.uuid_to_str;
  get_mtu = λ conn (s, k). g.get_mtu conn k;
  discover = λ conn params (s, k). (let (k', rc) = g.discover conn params k in ((s, k'), rc));
  subscribe = λ conn params (s, k). (let (k', rc) = g.subscribe conn params k in ((s, k'), rc));
  unsubscribe = λ conn params (s, k). (let (k', rc) = g.unsubscribe conn params k in ((s, k'), rc));
  exchange_mtu = λ conn (s, k). (let (k', rc) = g.exchange_mtu conn k in ((s, k'), rc));
  send_command = λ conn handle bytes (s, k).
      (let (k', rc) = g.send_command conn handle bytes k in ((s, k'), rc));
  send_request = λ conn params bytes (s, k).
      (let (k', rc) = g.send_request conn params bytes k in ((s, k'), rc));
  data_len_update = λ conn (s, k). (let (k', rc) = g.data_len_update conn k in ((s, k'), rc));
  phy_update = λ conn (s, k). (let (k', rc) = g.phy_update conn k in ((s, k'), rc));
}

module _ {R K : Type 0} (ring : Ring R) (kernel : Kernel K) where
  -- `profile_callbacks`
  abbrev pub profile_callbacks : Callbacks (State R × K)
  profile_callbacks = record {
    ready = some (λ (s, k). profile_ready ring kernel s k);
    payload_received = some (λ bytes (s, k). profile_payload_received ring kernel bytes s k);
    mtu_updated = some (λ len (s, k). profile_mtu_updated ring kernel len s k);
    error = some (λ e (s, k). profile_error ring kernel e s k);
  }

module _ {U R K : Type 0} (ring : Ring R) (kernel : Kernel K) (gatt : Gatt U K) where
  -- `profile_manager_send` in the application.
  abbrev pub send_bytes : List ℕ → Profile.State → State R × K → Profile.State × (State R × K) × Rc
  send_bytes = send (beside gatt) (some (profile_callbacks ring kernel))

  abbrev pub may_send : Profile.State → Bool
  may_send pm = can_enter_data_mode gatt none pm

  -- What a send that returns 0 changes here.
  abbrev pub count_write : ℕ → State R → State R
  count_write n s = record s {
    host_to_ble_ring = ring.finish n s.host_to_ble_ring;
    stream_stats = record (s.stream_stats) {
      bytes_host_to_ble = (s.stream_stats.bytes_host_to_ble + n) % 2 ^ 32;
      write_ops = (s.stream_stats.write_ops + 1) % 2 ^ 32;
    };
    data_mode_tx_flush_due = false;
  }

  -- The test for bytes that are held back until more of them come.
  abbrev pub waits_for_more : Profile.State → State R → Bool
  waits_for_more pm s =
      is_data_mode s.app_state
      && ltb (ring.size s.host_to_ble_ring) pm.payload_len
      && not s.data_mode_tx_flush_due

  -- The loop of `ble_write_work_handler`; each round that goes on has taken bytes out of the ring.
  unfoldable pub write_loop : ℕ → Profile.State → State R → K → Profile.State × State R × K
  write_loop zero pm s k = (pm, s, k)
  write_loop (suc fuel) pm s k =
      let (r, claimed) = ring.claim pm.payload_len s.host_to_ble_ring in
      let chunk = take send_max_len claimed in
      let s1 = record s { host_to_ble_ring = r } in
      let (pm2, (s2, k2), rc) = send_bytes chunk pm (s1, k) in
      let (s3, k3) = refresh_uart_rx_flow_control ring kernel (count_write (length chunk) s2) k2 in
      let again = write_loop fuel pm2 s3 k3 in
      if not (is_connected s.current_conn && may_send pm)
      then (pm, s, k)
      else if ring.size s.host_to_ble_ring == 0
      then (pm, record s { data_mode_tx_flush_due = false }, k)
      else if waits_for_more pm s
      then (pm, s, kernel.reschedule_coalesce coalesce_ms k)
      else if length chunk == 0
      then (pm, s1, k)
      else elim rc [
        | ok ↦ again
        | err e ↦ (pm2, s2, if is_retried e then kernel.reschedule_retry retry_ms k2 else k2)
      ]

  -- `ble_write_work_handler`: a round for each byte that the ring holds, claimed or not, and one that
  -- finds it empty.
  unfoldable pub ble_write_work_handler : Profile.State → State R → K → Profile.State × State R × K
  unfolding write_loop
  ble_write_work_handler pm s k =
      write_loop (host_ring_size - ring.space s.host_to_ble_ring + 1) pm s k

  -- `ble_write_coalesce_work_handler`
  unfoldable pub ble_write_coalesce_work_handler : State R → K → State R × K
  ble_write_coalesce_work_handler s k =
      (record s { data_mode_tx_flush_due = true }, kernel.submit_write k)

  -- `ble_write_retry_work_handler`
  unfoldable pub ble_write_retry_work_handler : K → K
  ble_write_retry_work_handler k = kernel.submit_write k
