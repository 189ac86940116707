-- ===== src/App/System/Linked/Operations.antt =====
-- The operations of the commands in main.c keep data mode on a connection.
use central_uart.Prelude.{
  ℕ, refl, sym, ◌∙◌, ap, not, ◌||◌, Option, none, some, List, arith, ◌==◌, if_both, inl, inr,
  Option-cases,
}
use central_uart.Chars.{Text}
use central_uart.Errors.{Rc, ok, err, Rc_cases}
use central_uart.Settings.{Config}
use central_uart.Profile.Calls.{can_enter_data_mode}
use central_uart.App.{scanning, State}
use central_uart.App.Escape.{is_data_mode, is_connected}
use central_uart.App.Scan.{is_scanning, clear_scan_cache}
use central_uart.App.System.{Platform, System}
use central_uart.App.System.Ops.{
  op_start_scan, op_connect, op_disconnect, op_send_payload, op_request_mtu, op_set_conn_params,
  op_enter_data_mode, reconfigured, is_busy, filter_text,
}
use central_uart.App.System.Ops.Connect.{Connects, linked, rejected, op_connect-Connects}
use central_uart.App.System.Linked.{IsLinked, not_data, send-IsLinked, mtu_request-IsLinked}

module _ {U R K : Type 0} (p : Platform U R K) where
  abbrev Good : System R K × Rc → Type 0
  Good x = IsLinked x.0.app

  pub scan-IsLinked :
      (seconds : ℕ) (name : Option Text) (y : System R K)
      → IsLinked y.app
      → Good (op_start_scan p seconds name y)
  unfolding op_start_scan
  scan-IsLinked seconds name y v = if_both Good (is_connected y.app.current_conn) _ _ v (
      if_both Good (is_busy y.app.app_state) _ _ v (
        if_both Good (is_scanning y.app.app_state) _ _ v
          (started (p.radio.scan_start y.hardware).1)))
    where
      cleared : State R
      cleared = record (clear_scan_cache y.app) { scan_filter_name = filter_text name }

      started :
          (rc : Rc)
          → Good (elim rc as (λ _. System R K × Rc) [
            | err e ↦
                (record y { app = cleared; hardware = (p.radio.scan_start y.hardware).0 }, err e)
            | ok ↦ (
              record y {
                app = record cleared { app_state = scanning };
                hardware = p.radio.schedule_scan_stop seconds (p.radio.scan_start y.hardware).0;
              },
              ok,
            )
          ])
      started ok = not_data (record cleared { app_state = scanning }) refl
      started (err e) = v

  pub connect-IsLinked :
      (mac : Text) (type : ℕ) (y : System R K) → IsLinked y.app → Good (op_connect p mac type y)
  connect-IsLinked mac type y v = go (op_connect p mac type y) (op_connect-Connects p mac type y)
    where
      go : (x : System R K × Rc) → Connects p y x → Good x
      go x (linked conn off free e mode now) = not_data x.0.app (ap is_data_mode mode)
      go x (rejected e same_rc same_conn (inl mode)) =
          λ h. same_conn ∙ v (ap is_data_mode (sym mode) ∙ h)
      go x (rejected e same_rc same_conn (inr (on, mode))) = not_data x.0.app (ap is_data_mode mode)

  pub disconnect-IsLinked :
      (index : ℕ) (y : System R K) → IsLinked y.app → Good (op_disconnect p index y)
  unfolding op_disconnect
  disconnect-IsLinked index y v =
      if_both Good (not (index == 0)) _ _ v (elim (Option-cases y.app.current_conn) [
        | inl absent ↦ rw absent v
        | inr (conn, present) ↦ rw present (λ h. ground arith)
      ])

  pub payload-IsLinked :
      (index : ℕ) (bytes : List ℕ) (y : System R K)
      → IsLinked y.app
      → Good (op_send_payload p index bytes y)
  unfolding op_send_payload
  payload-IsLinked index bytes y v =
      if_both Good (not (index == 0)) _ _ v (send-IsLinked p bytes y.manager y.app y.hardware v)

  pub reconfigured-IsLinked :
      (x : Config × K × Rc) (y : System R K) → IsLinked y.app → Good (reconfigured p x y)
  reconfigured-IsLinked (config, k, ok) y v = v
  reconfigured-IsLinked (config, k, err e) y v = v

  pub request-IsLinked :
      (index : ℕ) (y : System R K) → IsLinked y.app → Good (op_request_mtu p index y)
  unfolding op_request_mtu
  request-IsLinked index y v =
      if_both Good (not (index == 0)) _ _ v
        (mtu_request-IsLinked p (some y.config) y.manager y.app y.hardware v)

  pub params-IsLinked :
      (index lo hi latency timeout : ℕ) (y : System R K)
      → IsLinked y.app
      → Good (op_set_conn_params p index lo hi latency timeout y)
  unfolding op_set_conn_params
  params-IsLinked index lo hi latency timeout y v =
      if_both Good (not (index == 0)) _ _ v (elim (Option-cases y.app.current_conn) [
        | inl absent ↦ rw absent v
        | inr (conn, present) ↦ rw present (Rc_cases Good _ _ _ (λ _. v) (λ e _. v))
      ])

  pub enter-IsLinked :
      (index : ℕ) (y : System R K) → IsLinked y.app → Good (op_enter_data_mode p index y)
  unfolding op_enter_data_mode
  enter-IsLinked index y v = if_both Good (not (index == 0)) _ _ v (
      if_both Good (not (is_connected y.app.current_conn) || not y.config.allow_data_mode) _ _ v (
        if_both Good (is_data_mode y.app.app_state || y.app.data_mode_pending_enter) _ _ v
          (if_both Good (not (can_enter_data_mode p.gatt none y.manager)) _ _ v v)))
