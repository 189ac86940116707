-- ===== src/Profile/Frame.antt =====
-- What the stack and the callbacks keep, the handlers of profile_manager.c keep.
use central_uart.Prelude.{ℕ, not, Option, none, some, List, ◌==◌, if_both}
use central_uart.Errors.{Rc, ok, err}
use central_uart.Settings.{Config}
use central_uart.Profile.{
  ManagerError, DiscoverParams, SubscribeParams, State, Service, Characteristic, Gatt, Callbacks,
  discover_failed, subscribe_failed, Iter,
}
use central_uart.Profile.Calls.{report_error, call_ready, call_mtu_updated}
use central_uart.Profile.Handlers.{
  notify_handler, subscribe_handler, subscribe_notify_characteristic, subscribe_request,
  characteristics_done, characteristic_request, characteristic_discover_cb,
  start_characteristic_discovery, service_discover_cb, exchange_handler, write_handler,
}

-- Requests to the stack and the callbacks of the application keep `P`.
pub record IsKept {U W : Type 0} (P : W → Type 0) (g : Gatt U W) (callbacks : Option (Callbacks W))
    : Type 0 where
  pub discover : (conn : ℕ) (params : DiscoverParams) (w : W) → P w → P (g.discover conn params w).0
  pub subscribe :
      (conn : ℕ) (params : SubscribeParams) (w : W) → P w → P (g.subscribe conn params w).0
  pub ready : (w : W) → P w → P (call_ready g callbacks w)
  pub mtu_updated : (n : ℕ) (w : W) → P w → P (call_mtu_updated g callbacks n w)
  pub error : (e : ManagerError) (w : W) → P w → P (report_error g callbacks e w)
  pub received :
      (bytes : Option (List ℕ)) (s : State) (w : W)
      → P w
      → P (notify_handler g callbacks bytes s w).1

module _ {U W : Type 0} (P : W → Type 0) (g : Gatt U W) (callbacks : Option (Callbacks W))
    (kept : IsKept P g callbacks) where
  pub subscribed-IsKept :
      (status : ℕ) (s : State) (w : W) → P w → P (subscribe_handler g callbacks status s w).1
  unfolding subscribe_handler
  subscribed-IsKept status s w v =
      if_both (λ (x : State × W). P x.1) (not (status == 0)) _ _ (kept.error _ w v) (kept.ready w v)

  -- A request whose failure is reported.
  asked-IsKept :
      (s : State) (w : W) (rc : Rc) (e : ManagerError)
      → P w
      → P
          (elim rc as (λ _. State × W × Rc) [
            | ok ↦ (s, w, ok)
            | err c ↦ (s, report_error g callbacks e w, err c)
          ]).1
  asked-IsKept s w ok e v = v
  asked-IsKept s w (err c) e v = kept.error e w v

  subscribe-IsKept :
      (conn : ℕ) (s : State) (w : W)
      → P w
      → P (subscribe_notify_characteristic g callbacks conn s w).1
  unfolding subscribe_notify_characteristic
  subscribe-IsKept conn s w v =
      let (w', rc) = g.subscribe conn (subscribe_request g callbacks s) w in
      asked-IsKept _ w' rc subscribe_failed (kept.subscribe conn _ w v)

  done-IsKept :
      (config : Config) (conn : ℕ) (s : State) (w : W)
      → P w
      → P (characteristics_done g callbacks config conn s w).1
  unfolding characteristics_done
  done-IsKept config conn s w v =
      let Q : State × W × Iter → Type 0 = λ x. P x.1 in
      if_both Q (not s.notify_found) _ _ (kept.error _ w v) (
        if_both Q (not s.write_found) _ _ (kept.error _ w v)
          (if_both Q config.auto_subscribe _ _ (subscribe-IsKept conn s w v) (kept.ready w v)))

  pub characteristic-IsKept :
      (config : Config) (conn : ℕ) (attr : Option (Characteristic U)) (type : ℕ) (s : State) (w : W)
      → P w
      → P (characteristic_discover_cb g callbacks config conn attr type s w).1
  unfolding characteristic_discover_cb
  characteristic-IsKept config conn none type s w v = done-IsKept config conn s w v
  characteristic-IsKept config conn (some chrc) type s w v =
      if_both (λ (x : State × W × Iter). P x.1) (not (type == g.discover_characteristic)) _ _
        (kept.error _ w v) v

  start-IsKept :
      (conn : ℕ) (s : State) (w : W)
      → P w
      → P (start_characteristic_discovery g callbacks conn s w).1
  unfolding start_characteristic_discovery
  start-IsKept conn s w v =
      let (w', rc) = g.discover conn (characteristic_request g callbacks s) w in
      asked-IsKept _ w' rc discover_failed (kept.discover conn _ w v)

  pub service-IsKept :
      (config : Config) (conn : ℕ) (attr : Option (Service U)) (type : ℕ) (s : State) (w : W)
      → P w
      → P (service_discover_cb g callbacks config conn attr type s w).1
  unfolding service_discover_cb
  service-IsKept config conn none type s w v =
      if_both (λ (x : State × W × Iter). P x.1) (not s.service_found) _ _ (kept.error _ w v)
        (start-IsKept conn s w v)
  service-IsKept config conn (some service) type s w v =
      if_both (λ (x : State × W × Iter). P x.1) (not (type == g.discover_primary)) _ _
        (kept.error _ w v) v

  pub exchanged-IsKept :
      (config : Option Config) (status : ℕ) (s : State) (w : W)
      → P w
      → P (exchange_handler g callbacks config status s w).1
  unfolding exchange_handler
  exchanged-IsKept config status s w v =
      if_both (λ (x : State × W). P x.1) (status == 0) _ _ (kept.mtu_updated _ w v) v

  pub written-IsKept :
      (status : ℕ) (s : State) (w : W) → P w → P (write_handler g callbacks status s w).1
  unfolding write_handler
  written-IsKept status s w v = if_both P (not (status == 0)) _ w (kept.error _ w v) v
