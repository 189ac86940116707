-- ===== src/Uuid/Compact.antt =====
-- The loop of `ble_host_normalize_uuid` that collects the hex digits of a 128-bit UUID.
use central_uart.Prelude.{
  ◌+◌, ◌≤◌, ◌≡◌, refl, sym, ap, true, none, some, [], ◌∷◌, ◌++◌, map, arith, length, all,
  length-append, length-map, map-append, all-append, append_assoc, append-nil,
}
use central_uart.Chars.{Text, isxdigit, toupper}
use central_uart.Chars.Laws.{isxdigit-ne-dash, isxdigit-toupper, toupper-eq-dash}
use central_uart.Uuid.{compact_loop}

-- `compact[33]` is never written past index 32, nor with anything but digits.
pub compact_loop_sound :
    (xs c r : Text)
    → all isxdigit c ≡ true
    → length c ≤ 32
    → compact_loop xs c ≡ some r
    → (all isxdigit r ≡ true) × (length r ≤ 32)
unfolding compact_loop
compact_loop_sound [] c r h le e = ground arith
compact_loop_sound (x ∷ xs) c r h le e = ground (
  arith,
  compact_loop_sound xs c r,
  compact_loop_sound xs (c ++ x ∷ []) r,
  all-append isxdigit c (x ∷ []),
  length-append c (x ∷ []),
)

-- Digits are appended as they come.
pub compact_loop_digits :
    (xs ys c : Text)
    → all isxdigit xs ≡ true
    → length c + length xs ≤ 32
    → compact_loop (xs ++ ys) c ≡ compact_loop ys (c ++ xs)
unfolding compact_loop
compact_loop_digits [] ys c h le = ap (compact_loop ys) (sym (append-nil c))
compact_loop_digits (x ∷ xs) ys c h le = ground (
  arith,
  isxdigit-ne-dash x,
  compact_loop_digits xs ys (c ++ x ∷ []),
  length-append c (x ∷ []),
  append_assoc c (x ∷ []) xs,
)

pub compact_loop_dash : (ys c : Text) → compact_loop (b'-' ∷ ys) c ≡ compact_loop ys c
unfolding compact_loop
compact_loop_dash ys c = refl

-- `map toupper` of the input is `map toupper` of the digits found.
pub compact_loop-toupper :
    (xs c : Text)
    → compact_loop (map toupper xs) (map toupper c)
      ≡ (elim (compact_loop xs c) [ none ↦ none | some r ↦ some (map toupper r) ])
unfolding compact_loop
compact_loop-toupper [] c = refl
compact_loop-toupper (x ∷ xs) c = ground (
  arith,
  compact_loop-toupper xs c,
  compact_loop-toupper xs (c ++ x ∷ []),
  toupper-eq-dash x,
  isxdigit-toupper x,
  length-map toupper c,
  map-append toupper c (x ∷ []),
)
