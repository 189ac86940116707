-- ===== src/AddrType.antt =====
-- The address types and the printable test of apps/nrf52840_ble_at_host/src/app_common.c.
pub mod Laws
use central_uart.Prelude.{
  ℕ, Bool, true, false, ◌||◌, Option, none, some, List, [], ◌∷◌, ◌==◌, ltb, if◌then◌else◌, suc,
  zero,
}

-- Zephyr's BT_ADDR_LE_* constants, of <zephyr/bluetooth/addr.h>.
pub record AddrTypes : Type 0 where
  pub public : ℕ
  pub random : ℕ
  pub public_id : ℕ
  pub random_id : ℕ

pub addr_type_to_wlt : AddrTypes → ℕ → ℕ
addr_type_to_wlt c t =
    if t == c.public
    then 0
    else if t == c.random
    then 1
    else if t == c.public_id
    then 2
    else if t == c.random_id
    then 3
    else 1

-- `given` is `bt_addr_type != NULL`; the result is what is written there, `none` for false.
pub addr_type_from_wlt : AddrTypes → ℕ → Bool → Option ℕ
addr_type_from_wlt c w false = none
addr_type_from_wlt c w true =
    if w == 0
    then some c.public
    else if w == 1
    then some c.random
    else if w == 2
    then some c.public_id
    else if w == 3
    then some c.random_id
    else none

-- The loop over `data[0..len)`; a null pointer is `none`.
printable_loop : List ℕ → Bool
printable_loop [] = true
printable_loop (c ∷ cs) = if ltb c 0x20 || ltb 0x7e c then false else printable_loop cs

unfoldable pub is_printable_ascii : Option (List ℕ) → Bool
unfolding printable_loop
is_printable_ascii none = false
is_printable_ascii (some bytes) = printable_loop bytes
