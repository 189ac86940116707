-- ===== src/Profile/Payload.antt =====
-- The payload length: it follows the smaller of the two MTUs and stays in the range of one write.
use central_uart.Prelude.{ℕ, ◌+◌, ◌≤◌, Option, none, some, arith}
use central_uart.Settings.{Config}
use central_uart.Profile.{State, Gatt, Callbacks, send_max_len}
use central_uart.Profile.Calls.{payload_of, preferred_mtu, att_mtu}

pub payload_of_bounds :
    (att preferred : ℕ)
    → 23 ≤ att
    → preferred ≤ 259
    → (20 ≤ payload_of att preferred)
      × (payload_of att preferred + 3 ≤ att)
      × (payload_of att preferred ≤ send_max_len)
unfolding payload_of
payload_of_bounds att preferred h k = ground arith

-- What is documented of ATT: the MTU is never below its default of 23.
abbrev pub HasAttMtu : {U W : Type 0} → Gatt U W → Type 0
HasAttMtu {W = W} g = (conn : ℕ) (w : W) → 23 ≤ g.get_mtu conn w

abbrev pub IsBounded : Option Config → Type 0
IsBounded none = Unit {0}
IsBounded (some c) = c.mtu ≤ 259

pub record IsSized (s : State) : Type 0 where
  pub at_least : 20 ≤ s.payload_len
  pub at_most : s.payload_len ≤ send_max_len

module _ {U W : Type 0} (g : Gatt U W) (callbacks : Option (Callbacks W)) (att : HasAttMtu g) where
  preferred-le : (config : Option Config) → IsBounded config → preferred_mtu config ≤ 259
  preferred-le none b = omega arith
  preferred-le (some c) b = b

  att_mtu-le : (conn : Option ℕ) (w : W) → 23 ≤ att_mtu g callbacks conn w
  att_mtu-le none w = omega arith
  att_mtu-le (some conn) w = att conn w

  pub payload-sized :
      (config : Option Config) (conn : Option ℕ) (w : W)
      → IsBounded config
      → (20 ≤ payload_of (att_mtu g callbacks conn w) (preferred_mtu config))
        × (payload_of (att_mtu g callbacks conn w) (preferred_mtu config) ≤ send_max_len)
  payload-sized config conn w b =
      let (low, fits, high) =
        payload_of_bounds (att_mtu g callbacks conn w) (preferred_mtu config) (att_mtu-le conn w)
          (preferred-le config b) in
      (low, high)
