-- ===== src/Uuid/Case.antt =====
-- Letter case does not matter to `ble_host_normalize_uuid`.
use central_uart.Prelude.{
  ℕ, ◌≡◌, refl, sym, ◌∙◌, ap, Bool, Option, none, some, [], ◌∷◌, map, arith, take, length-map,
  all-map, map-take, map-drop,
}
use central_uart.Chars.{Text, isxdigit, toupper}
use central_uart.Chars.Laws.{
  isxdigit-toupper, map-toupper_idem, map-tolower-toupper, skip_space-map-toupper,
  trimmed_len-map-toupper,
}
use central_uart.Uuid.{
  is_hex_text, has_hex_prefix, normalize_uuid16, normalize_uuid128_from_hex32, compact_loop,
  from_compact, normalize_trimmed, normalize_uuid,
}
use central_uart.Uuid.Compact.{compact_loop-toupper}

has_hex_prefix-toupper : (t : Text) → has_hex_prefix (map toupper t) ≡ has_hex_prefix t
unfolding toupper
has_hex_prefix-toupper [] = refl
has_hex_prefix-toupper (a ∷ []) = refl
has_hex_prefix-toupper (a ∷ b ∷ t) = ground arith

is_hex_text-toupper : (t : Text) (n : ℕ) → is_hex_text (map toupper t) n ≡ is_hex_text t n
unfolding is_hex_text
is_hex_text-toupper t n =
    rw (← map-take toupper n t) (all-map isxdigit isxdigit toupper isxdigit-toupper (take n t))

normalize_uuid16-toupper :
    (t : Text) (n : ℕ) → normalize_uuid16 (map toupper t) n ≡ normalize_uuid16 t n
unfolding normalize_uuid16
normalize_uuid16-toupper t n = simp (
  has_hex_prefix-toupper,
  length-map,
  ← map-drop,
  ← map-take,
  is_hex_text-toupper,
  map-toupper_idem,
)

normalize_uuid128-toupper :
    (h : Text) (n : ℕ)
    → normalize_uuid128_from_hex32 (map toupper h) n ≡ normalize_uuid128_from_hex32 h n
unfolding normalize_uuid128_from_hex32
normalize_uuid128-toupper h n = simp (length-map, is_hex_text-toupper, map-tolower-toupper)

from_compact-upper :
    (o : Option Text) (n : ℕ)
    → from_compact (elim o [ none ↦ none | some r ↦ some (map toupper r) ]) n ≡ from_compact o n
unfolding from_compact
from_compact-upper none n = refl
from_compact-upper (some r) n = simp (length-map, normalize_uuid128-toupper)

from_compact-toupper :
    (t : Text) (n : ℕ)
    → from_compact (compact_loop (map toupper t) []) n ≡ from_compact (compact_loop t []) n
from_compact-toupper t n =
    ap (λ o. from_compact o n) (compact_loop-toupper t [])
    ∙ from_compact-upper (compact_loop t []) n

normalize_trimmed-toupper :
    (t : Text) (len n : ℕ) → normalize_trimmed (map toupper t) len n ≡ normalize_trimmed t len n
unfolding normalize_trimmed
normalize_trimmed-toupper t len n =
    let same : from_compact (compact_loop (take len (map toupper t)) []) n
        ≡ from_compact (compact_loop (take len t) []) n =
      ap (λ s. from_compact (compact_loop s []) n) (sym (map-take toupper len t))
      ∙ from_compact-toupper (take len t) n in
    ground (arith, normalize_uuid16-toupper t n, same)

-- The letter case of the input has no influence: the input in upper case is accepted exactly when
-- the input is, with the same result.
pub normalize_uuid-toupper :
    (t : Text) (given : Bool) (n : ℕ)
    → normalize_uuid (some (map toupper t)) given n ≡ normalize_uuid (some t) given n
unfolding normalize_uuid
normalize_uuid-toupper t given n =
    simp (skip_space-map-toupper, length-map, trimmed_len-map-toupper, normalize_trimmed-toupper)
