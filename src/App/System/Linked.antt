-- ===== src/App/System/Linked.antt =====
-- Data mode needs a connection: what the operations and the callbacks of main.c keep.
pub mod Operations
pub mod Connection
pub mod Interrupts
pub mod DataMode
pub mod Stack
use central_uart.Prelude.{
  ℕ, ◌≡◌, true, false, not, ◌&&◌, ◌||◌, Option, none, some, List, arith, ltb, ◌==◌, if_both, length,
}
use central_uart.Chars.{Text, ascii}
use central_uart.Errors.{Rc, ok, err, ealready, Rc_cases}
use central_uart.Settings.{Config}
use central_uart.Profile
use central_uart.Profile.{ManagerError, discover_failed, send_max_len}
use central_uart.Profile.Calls.{
  send, start, request_mtu, reset, start_discovery, report_error, when_connected_both,
  service_request, has_property, send_pending, finish_request_mtu,
}
use central_uart.At.Reply.{tx_line, emit_error}
use central_uart.At.Notify.{notify_function_error, notify_mtu}
use central_uart.App.{Ring, Kernel, State}
use central_uart.App.Output.{queue_ctrl_bytes, queue_ctrl_line}
use central_uart.App.Escape.{is_data_mode, is_connected}
use central_uart.App.Callbacks.{profile_mtu_updated, profile_error}
use central_uart.App.System.{Platform, app_gatt, app_callbacks}
use central_uart.App.System.Ops

-- In data mode there is a connection.
abbrev pub IsLinked : {R : Type 0} → State R → Type 0
IsLinked s = is_data_mode s.app_state ≡ true → is_connected s.current_conn ≡ true

pub not_data : {R : Type 0} (s : State R) → is_data_mode s.app_state ≡ false → IsLinked s
not_data s off on = ground arith

module _ {R K : Type 0} (ring : Ring R) (kernel : Kernel K) where
  pub queue-IsLinked :
      (bytes : List ℕ) (s : State R) (k : K)
      → IsLinked s
      → IsLinked (queue_ctrl_bytes ring kernel bytes s k).0
  unfolding queue_ctrl_bytes
  queue-IsLinked bytes s k v =
      if_both (λ (x : State R × K). IsLinked x.0) (length bytes == 0) _ _ v v

  pub line-IsLinked :
      (text : Text) (s : State R) (k : K)
      → IsLinked s
      → IsLinked (queue_ctrl_line ring kernel text s k).0
  unfolding queue_ctrl_line
  line-IsLinked text s k v =
      let (s', k') = queue_ctrl_bytes ring kernel text s k in
      queue-IsLinked (ascii "\r\n") s' k' (queue-IsLinked text s k v)

  pub error-IsLinked :
      (e : ManagerError) (s : State R) (k : K)
      → IsLinked s
      → IsLinked (profile_error ring kernel e s k).0
  unfolding profile_error notify_function_error emit_error tx_line
  error-IsLinked e s k v = line-IsLinked _ _ k (
      if_both IsLinked (is_connected s.current_conn && not (is_data_mode s.app_state)) _ s
        (λ h. ground arith) v)

  pub mtu-IsLinked :
      (len : ℕ) (s : State R) (k : K)
      → IsLinked s
      → IsLinked (profile_mtu_updated ring kernel len s k).0
  unfolding profile_mtu_updated notify_mtu tx_line
  mtu-IsLinked len s k v = line-IsLinked _ s k v

module _ {U R K : Type 0} (p : Platform U R K) where
  pub send-IsLinked :
      (bytes : List ℕ) (pm : Profile.State) (s : State R) (k : K)
      → IsLinked s
      → IsLinked (send (app_gatt p) (app_callbacks p) bytes pm (s, k)).1.0
  unfolding send send_pending
  send-IsLinked bytes pm s k v =
      let P : Profile.State × (State R × K) × Rc → Type 0 = λ x. IsLinked x.1.0 in
      when_connected_both P pm.conn _ _ v (λ conn.
        if_both P (not pm.ready || not pm.write_found || pm.write_value_handle == 0) _ _ v (
          if_both P
            (length bytes == 0
              || ltb send_max_len (length bytes)
              || ltb pm.payload_len (length bytes))
            _ _ v
            (if_both P
              (has_property (app_gatt p) (app_callbacks p) pm (app_gatt p).write_without_resp) _ _ v
              (if_both P
                (not (has_property (app_gatt p) (app_callbacks p) pm (app_gatt p).write_with_resp)
                  || pm.write_in_progress)
                _ _ v (Rc_cases P _ _ _ (λ _. v) (λ e _. v))))))

  finish-IsLinked :
      (c : Option Config) (pm : Profile.State) (s : State R) (k : K) (rc : Rc)
      → IsLinked s
      → IsLinked (finish_request_mtu (app_gatt p) (app_callbacks p) c pm ((s, k), rc)).1.0
  unfolding finish_request_mtu
  finish-IsLinked c pm s k ok v = v
  finish-IsLinked c pm s k (err ealready) v = mtu-IsLinked p.ring p.kernel _ s k v
  finish-IsLinked c pm s k (err e) v = v

  pub mtu_request-IsLinked :
      (c : Option Config) (pm : Profile.State) (s : State R) (k : K)
      → IsLinked s
      → IsLinked (request_mtu (app_gatt p) (app_callbacks p) c pm (s, k)).1.0
  unfolding request_mtu
  mtu_request-IsLinked c pm s k v =
      let P : Profile.State × (State R × K) × Rc → Type 0 = λ x. IsLinked x.1.0 in
      when_connected_both P pm.conn _ _ v
        (λ conn. if_both P pm.exchange_in_progress _ _ v (finish-IsLinked c _ s _ _ v))

  pub reset-IsLinked :
      (c : Option Config) (pm : Profile.State) (w : State R × K)
      → IsLinked w.0
      → IsLinked (reset (app_gatt p) (app_callbacks p) c pm w).1.0
  unfolding reset
  reset-IsLinked c pm w v =
      when_connected_both (λ (x : State R × K). IsLinked x.0) pm.conn _ _ v (λ conn. v)

  told-IsLinked :
      (pm : Profile.State) (s : State R) (k : K) (rc : Rc)
      → IsLinked s
      → IsLinked
          (elim rc as (λ _. Profile.State × (State R × K) × Rc) [
            | ok ↦ (pm, (s, k), ok)
            | err e ↦
                (pm, report_error (app_gatt p) (app_callbacks p) discover_failed (s, k), err e)
          ]).1.0
  unfolding report_error
  told-IsLinked pm s k ok v = v
  told-IsLinked pm s k (err e) v = error-IsLinked p.ring p.kernel discover_failed s k v

  discovery-IsLinked :
      (c : Option Config) (conn : ℕ) (pm : Profile.State) (w : State R × K)
      → IsLinked w.0
      → IsLinked (start_discovery (app_gatt p) (app_callbacks p) c conn pm w).1.0
  unfolding start_discovery
  discovery-IsLinked c conn pm (s, k) v =
      let (k', rc) = p.gatt.discover conn (service_request (app_gatt p) (app_callbacks p)) k in
      told-IsLinked _ s k' rc v

  pub start-IsLinked :
      (c : Option Config) (conn : Option ℕ) (pm : Profile.State) (s : State R) (k : K)
      → IsLinked s
      → IsLinked (start (app_gatt p) (app_callbacks p) c conn pm (s, k)).1.0
  unfolding start
  start-IsLinked none conn pm s k v = v
  start-IsLinked (some c) none pm s k v = v
  start-IsLinked (some c) (some conn) pm s k v =
      let (pm', w) = reset (app_gatt p) (app_callbacks p) (some c) pm (s, k) in
      discovery-IsLinked (some c) conn pm' w (reset-IsLinked (some c) pm (s, k) v)
