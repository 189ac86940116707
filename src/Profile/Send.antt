-- ===== src/Profile/Send.antt =====
-- `profile_manager_send`: when it hands bytes to the stack, and what it never touches.
use central_uart.Prelude.{
  ℕ, ◌≤◌, ◌<◌, ◌≡◌, ◌≢◌, refl, Bool, true, false, not, ◌||◌, Option, none, some, List, arith,
  length, ltb, ◌==◌, if_both, if_cases,
}
use central_uart.Errors.{Errno, Rc, ok, err, enotconn, eagain, emsgsize, eacces}
use central_uart.Profile.{State, Gatt, Callbacks, send_max_len}
use central_uart.Profile.Calls.{when_connected, has_property, send, can_enter_data_mode}
use central_uart.Profile.Payload.{IsSized}

busy_test : (a b : Bool) → b ≡ true → ¬ ((a || b) ≡ false)
busy_test a b p q = ground arith

-- A property of both cases, where that of the present case may use which connection it is.
when_connected_is {ℓ κ} :
    {A : Type ℓ} (P : A → Type κ) (conn : Option ℕ) (absent : A) (present : ℕ → A)
    → P absent
    → ((c : ℕ) → conn ≡ some c → P (present c))
    → P (when_connected conn absent present)
when_connected_is P none absent present a p = a
when_connected_is P (some c) absent present a p = p c refl

module _ {U W : Type 0} (g : Gatt U W) (callbacks : Option (Callbacks W)) where
  -- A send that returns 0 had a connection, a ready profile, a write handle, and between 1 and
  -- `payload_len` bytes, 256 at most.
  pub send-ok :
      (bytes : List ℕ) (s s' : State) (w w' : W)
      → send g callbacks bytes s w ≡ (s', w', ok)
      → (s.conn ≢ none)
        × (s.ready ≡ true)
        × (s.write_found ≡ true)
        × (s.write_value_handle ≢ 0)
        × (0 < length bytes)
        × (length bytes ≤ s.payload_len)
        × (length bytes ≤ send_max_len)
  unfolding send
  send-ok bytes s s' w w' e = ground arith

  -- What a call left behind that began no write request: an error and nothing touched, or one write
  -- command of the bytes on the connection and what it returned. The manager is as it was.
  pub data IsRequestFree (bytes : List ℕ) (s : State) (w : W) : State × W × Rc → Type 0 where
    refused : (e : Errno) → IsRequestFree bytes s w (s, w, err e)
    commanded :
        (conn : ℕ)
        → s.conn ≡ some conn
        → has_property g callbacks s g.write_without_resp ≡ true
        → IsRequestFree bytes s w
            (let (w', rc) = g.send_command conn s.write_value_handle bytes w in (s, w', rc))

  -- While a write request is under way every send is refused with no call of the stack, or is one write
  -- command to a characteristic that takes them, and leaves the manager as it was: no second request is
  -- begun, and the buffer that the stack still reads keeps its bytes.
  pub send-in_progress :
      (bytes : List ℕ) (s : State) (w : W)
      → s.write_in_progress ≡ true
      → IsRequestFree bytes s w (send g callbacks bytes s w)
  unfolding send
  send-in_progress bytes s w busy =
      let P = IsRequestFree bytes s w in
      when_connected_is P s.conn (s, w, err enotconn) _ (refused enotconn)
        λ conn linked.
          if_both P (not s.ready || not s.write_found || s.write_value_handle == 0) _ _
            (refused eagain)
            (if_both P
              (length bytes == 0
                || ltb send_max_len (length bytes)
                || ltb s.payload_len (length bytes))
              _ _ (refused emsgsize)
              (if_cases P (has_property g callbacks s g.write_without_resp) _ _
                (λ takes. commanded conn linked takes)
                λ _.
                  if_cases P
                    (not (has_property g callbacks s g.write_with_resp) || s.write_in_progress) _ _
                    (λ _. refused eacces) (λ free. absurd (busy_test _ _ busy free))))

  -- Where data mode may be entered, every send of 1 to `payload_len` bytes is one write command of
  -- exactly those bytes to the write characteristic, and leaves the manager as it was.
  pub send-data_mode :
      (bytes : List ℕ) (conn : ℕ) (s : State) (w : W)
      → IsSized s
      → can_enter_data_mode g callbacks s ≡ true
      → s.conn ≡ some conn
      → 0 < length bytes
      → length bytes ≤ s.payload_len
      → send g callbacks bytes s w
        ≡ (let (w', rc) = g.send_command conn s.write_value_handle bytes w in (s, w', rc))
  unfolding send can_enter_data_mode
  send-data_mode bytes conn s w sized may linked some_bytes fits = ground arith
