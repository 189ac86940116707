-- ===== src/Uuid.antt =====
-- The UUID texts of apps/nrf52840_ble_at_host/src/app_common.c: `ble_host_normalize_uuid` and its
-- callees, `ble_host_uuid_equals` and `ble_host_format_uuid_from_bt`.
-- A function that fills `output` and returns bool is here a function into `Option Text`: `none` for
-- false, where no byte of `output` is written. A buffer of a null pointer is `none`.
pub mod Compact
pub mod Normal
pub mod Fixed
pub mod Case
pub mod Equality
pub mod Padding
use central_uart.Prelude.{
  ℕ, ◌+◌, ◌-◌, Bool, true, false, not, ◌&&◌, ◌||◌, Option, none, some, List, [], ◌∷◌, ◌++◌, map,
  ltb, leb, ◌==◌, if◌then◌else◌, length, get_or, take, drop, all,
}
use central_uart.Chars.{
  Text, ascii, isxdigit, toupper, tolower, skip_space, trimmed_len, equal, snprintk_s,
}

-- BLE_HOST_UUID_STR_LEN: Zephyr's BT_UUID_STR_LEN, 36 characters and the NUL.
abbrev pub uuid_str_len : ℕ
uuid_str_len = 37

unfoldable pub is_hex_text : Text → ℕ → Bool
is_hex_text text len = all isxdigit (take len text)

-- "0x" or "0X" in front
abbrev pub has_hex_prefix : Text → Bool
has_hex_prefix (a ∷ b ∷ _) = a == b'0' && (b == b'x' || b == b'X')
has_hex_prefix _ = false

unfoldable pub normalize_uuid16 : Text → ℕ → Option Text
normalize_uuid16 text output_len =
    let prefixed = has_hex_prefix text in
    let offset : ℕ = if prefixed then 2 else 0 in
    let len : ℕ = length text - offset in
    if not (len == 4) || not (is_hex_text (drop offset text) len) || ltb output_len 7
    then none
    else some (b'0' ∷ b'x' ∷ map toupper (take 4 (drop offset text)))

-- "%c…-…-…-…-…" over the 32 digits
abbrev pub dashed : Text → Text
dashed h =
    take 8 h
    ++ (b'-'
        ∷ (take 4 (drop 8 h)
            ++ (b'-'
                ∷ (take 4 (drop 12 h) ++ (b'-' ∷ (take 4 (drop 16 h) ++ (b'-' ∷ drop 20 h)))))))

unfoldable pub normalize_uuid128_from_hex32 : Text → ℕ → Option Text
normalize_uuid128_from_hex32 hex32 output_len =
    if not (length hex32 == 32) || not (is_hex_text hex32 32) || ltb output_len 37
    then none
    else some (dashed (map tolower hex32))

-- The `for` loop over the trimmed input; `compact` holds the digits so far, 32 at most.
unfoldable pub compact_loop : Text → Text → Option Text
compact_loop [] compact = some compact
compact_loop (ch ∷ rest) compact =
    let skip = compact_loop rest compact in
    let keep = compact_loop rest (compact ++ ch ∷ []) in
    if ch == b'-' then skip else if not (isxdigit ch) || leb 32 (length compact) then none else keep

-- The branch after the loop.
unfoldable pub from_compact : Option Text → ℕ → Option Text
from_compact none output_len = none
from_compact (some compact) output_len =
    if not (length compact == 32) then none else normalize_uuid128_from_hex32 compact output_len

-- `input` past its leading space, and its length with no trailing space
unfoldable pub normalize_trimmed : Text → ℕ → ℕ → Option Text
normalize_trimmed input len output_len =
    let long = from_compact (compact_loop (take len input) []) output_len in
    if len == 0
    then none
    else if leb len 6
    then (elim (normalize_uuid16 input output_len) [ some u ↦ some u | none ↦ long ])
    else long

-- `ble_host_normalize_uuid(input, output, output_len)`; `output_given` is `output != NULL`.
unfoldable pub normalize_uuid : Option Text → Bool → ℕ → Option Text
normalize_uuid none output_given output_len = none
normalize_uuid (some input) output_given output_len =
    let text = skip_space input in
    let len = trimmed_len text (length text) in
    if not output_given || output_len == 0 then none else normalize_trimmed text len output_len

-- Into a buffer of BLE_HOST_UUID_STR_LEN bytes, as every caller does.
abbrev pub normalize : Text → Option Text
normalize text = normalize_uuid (some text) true uuid_str_len

unfoldable pub uuid_equals : Text → Text → Bool
uuid_equals lhs rhs = elim (normalize lhs) [
  | none ↦ false
  | some l ↦ elim (normalize rhs) [ none ↦ false | some r ↦ equal l r ]
]

-- `uuid_to_str` is Zephyr's `bt_uuid_to_str` into a buffer of BT_UUID_STR_LEN bytes. The result is
-- the new content of `output`, `none` where the function returns with no write.
unfoldable pub format_uuid_from_bt {ℓ} :
    {Uuid : Type ℓ} → (Uuid → Text) → Option Uuid → Bool → ℕ → Option Text
format_uuid_from_bt uuid_to_str none output_given output_len = none
format_uuid_from_bt uuid_to_str (some uuid) output_given output_len =
    let raw = uuid_to_str uuid in
    if not output_given || output_len == 0
    then none
    else elim (normalize_uuid (some raw) true output_len) [
      | some u ↦ some u
      | none ↦ some (snprintk_s output_len raw)
    ]
