-- ===== src/App/System/Ops/Connect.antt =====
-- Connecting in main.c: what `op_connect` leaves behind on every path.
use central_uart.Prelude.{
  ℕ, ◌≡◌, refl, sym, ap, true, false, some, arith, if_cases, Option-cases, ◌⊎◌, inl, inr,
}
use central_uart.Chars.{Text}
use central_uart.Errors.{Errno, Rc, ok, err, ealready, ebusy, einval, Rc_cases}
use central_uart.AddrType.{addr_type_from_wlt}
use central_uart.App.{idle, connecting, Address}
use central_uart.App.Escape.{is_connected}
use central_uart.App.Scan.{is_scanning, stop_scan_internal, parse_connect_mac}
use central_uart.App.System.{Created, refused, created, Platform, System}
use central_uart.App.System.Ops.{is_busy, conn_param_of, create_conn, connect_peer, op_connect}

module _ {U R K : Type 0} (p : Platform U R K) where
  -- What a call may have done, from `y` to the state and the result.
  pub data Connects (y : System R K) (x : System R K × Rc) : Type 0 where
    linked :
        (conn : ℕ)
        → is_connected y.app.current_conn ≡ false
        → is_busy y.app.app_state ≡ false
        → x.1 ≡ ok
        → x.0.app.app_state ≡ connecting
        → x.0.app.current_conn ≡ some conn
        → Connects y x
    rejected :
        (e : Errno)
        → x.1 ≡ err e
        → is_connected x.0.app.current_conn ≡ is_connected y.app.current_conn
        → (x.0.app.app_state ≡ y.app.app_state)
          ⊎ ((is_scanning y.app.app_state ≡ true) × (x.0.app.app_state ≡ idle))
        → Connects y x

  unchanged : (y : System R K) (e : Errno) → Connects y (y, err e)
  unchanged y e = rejected e refl refl (inl refl)

  -- From a state that differs from `y` at most by the end of a scan.
  abbrev IsReady : System R K → System R K → Type 0
  IsReady y z =
      (z.app.current_conn ≡ y.app.current_conn)
      × ((z.app.app_state ≡ y.app.app_state)
          ⊎ ((is_scanning y.app.app_state ≡ true) × (z.app.app_state ≡ idle)))

  create-Connects :
      (peer : Address) (y z : System R K)
      → IsReady y z
      → is_connected y.app.current_conn ≡ false
      → is_busy y.app.app_state ≡ false
      → Connects y (create_conn p peer z)
  create-Connects peer y z (same_conn, mode) off free =
      go (p.conns.create peer (conn_param_of z.config) z.hardware) refl
    where
      go :
          (r : K × Created)
          → p.conns.create peer (conn_param_of z.config) z.hardware ≡ r
          → Connects y (create_conn p peer z)
      go (k, refused e) same = rw (same, create_conn) (rejected e refl (sym off) mode)
      go (k, created conn) same = rw (same, create_conn) (linked conn off free refl refl refl)

  stop-IsReady :
      (y : System R K)
      → is_connected y.app.current_conn ≡ false
      → is_scanning y.app.app_state ≡ true
      → let (s, k, rc) = stop_scan_internal p.ring p.kernel p.radio false y.app y.hardware in
        (s.current_conn ≡ y.app.current_conn)
        × ((s.app_state ≡ y.app.app_state)
            ⊎ ((is_scanning y.app.app_state ≡ true) × (s.app_state ≡ idle)))
  unfolding stop_scan_internal
  stop-IsReady y off on = ground arith

  peer-Connects :
      (peer : Address) (y : System R K)
      → is_connected y.app.current_conn ≡ false
      → is_busy y.app.app_state ≡ false
      → Connects y (connect_peer p peer y)
  peer-Connects peer y off free =
      let (s, k, rc) = stop_scan_internal p.ring p.kernel p.radio false y.app y.hardware in
      let stopped = record y { app = s; hardware = k } in
      if_cases (Connects y) (is_scanning y.app.app_state) _ _
        (λ on.
          (let ready = stop-IsReady y off on in
            Rc_cases (Connects y) rc _ _ (λ _. create-Connects peer y stopped ready off free)
              (λ e _. rejected e refl (ap is_connected ready.0) ready.1)))
        (λ _. create-Connects peer y y (refl, inl refl) off free)

  -- Whatever the stack answers, `op_connect` either returns 0 with the new connection as the current
  -- one and the program connecting, which it does only where there was none and none was under way, or
  -- returns an error with a connection exactly if there was one, and with the mode as it was or, where
  -- a scan was stopped for the attempt, idle.
  pub op_connect-Connects :
      (mac : Text) (addr_type : ℕ) (y : System R K) → Connects y (op_connect p mac addr_type y)
  unfolding op_connect
  op_connect-Connects mac addr_type y =
      if_cases (Connects y) (is_connected y.app.current_conn) _ _ (λ _. unchanged y ealready)
        (λ off.
          if_cases (Connects y) (is_busy y.app.app_state) _ _ (λ _. unchanged y ebusy)
            (λ free. elim (Option-cases (addr_type_from_wlt p.addr_types addr_type true)) [
              | inl bad ↦ rw bad (unchanged y einval)
              | inr (type, good) ↦ rw good (elim (Option-cases (parse_connect_mac p.radio mac)) [
                | inl bad ↦ rw bad (unchanged y einval)
                | inr (val, read) ↦
                    rw read (peer-Connects (record { type = type; val = val }) y off free)
              ])
            ]))
