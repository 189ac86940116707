-- ===== src/Tests/UuidWitnesses.antt =====
-- The theorems on app_common.c at concrete input.
use mathlib.Core.Option
use central_uart.Prelude.{
  ◌≡◌, ◌<◌, ◌⊎◌, ◌==◌, ◌||◌, refl, true, none, some, ◌++◌, arith, all, length, map, leb,
  if◌then◌else◌,
}
use central_uart.Chars.{Text, ascii, isspace, isxdigit, toupper, tolower, skip_space, trimmed_len}
use central_uart.Uuid.{
  uuid_str_len, is_hex_text, normalize_uuid16, normalize_trimmed, normalize_uuid,
}
use central_uart.Uuid.Fixed.{normalize_uuid_idem, normalize_uuid_fits}
use central_uart.Uuid.Normal.{IsLong}
use central_uart.Uuid.Case.{normalize_uuid-toupper}
use central_uart.Uuid.Padding.{long_padded, short_trailing_space, prefixed}
use central_uart.AddrType.{addr_type_to_wlt, addr_type_from_wlt}
use central_uart.AddrType.Laws.{AreDistinct, addr_type_to-from}
use central_uart.Tests.Fixtures.{addr_types}

short_input : normalize_uuid (some (ascii " fFf0")) true uuid_str_len ≡ some (ascii "0xFFF0")
unfolding normalize_uuid normalize_trimmed normalize_uuid16 is_hex_text skip_space trimmed_len
    isspace isxdigit toupper
short_input = refl

normalize_uuid_idem_example :
    normalize_uuid (some (ascii "0xFFF0")) true uuid_str_len ≡ some (ascii "0xFFF0")
normalize_uuid_idem_example =
    normalize_uuid_idem (some (ascii " fFf0")) true uuid_str_len (ascii "0xFFF0") short_input

normalize_uuid_fits_example :
    (length (ascii "0xFFF0") < uuid_str_len)
    × ((length (ascii "0xFFF0") ≡ 6) ⊎ (length (ascii "0xFFF0") ≡ 36))
normalize_uuid_fits_example =
    normalize_uuid_fits (some (ascii " fFf0")) true uuid_str_len (ascii "0xFFF0") short_input

normalize_uuid-toupper_example :
    normalize_uuid (some (map toupper (ascii "0000fff0-0000-1000-8000-00805f9b34fb"))) true 37
    ≡ normalize_uuid (some (ascii "0000fff0-0000-1000-8000-00805f9b34fb")) true 37
normalize_uuid-toupper_example =
    normalize_uuid-toupper (ascii "0000fff0-0000-1000-8000-00805f9b34fb") true 37

abbrev long_text : Text
long_text = ascii "0000fff0-0000-1000-8000-00805f9b34fb"

long_text_digits : Text
long_text_digits = ascii "0000fff000001000800000805f9b34fb"

long_text-IsLong : IsLong long_text
unfolding isxdigit tolower long_text_digits
long_text-IsLong = record {
  digits = long_text_digits;
  shape = refl;
  count = refl;
  hex = refl;
  lower = refl;
}

spaces : all isspace (ascii "  ") ≡ true
unfolding isspace
spaces = refl

long_padded_example :
    normalize_uuid (some (ascii "  " ++ (long_text ++ ascii "  "))) true 37 ≡ some long_text
long_padded_example =
    long_padded (ascii "  ") (ascii "  ") long_text 37 spaces spaces long_text-IsLong (omega arith)

hex_digits : all isxdigit (ascii "fff0") ≡ true
unfolding isxdigit
hex_digits = refl

capital_mark : (b'X' == b'x' || b'X' == b'X') ≡ true
capital_mark = refl

short_trailing_space_example :
    normalize_uuid (some (ascii "  " ++ (ascii "0Xfff0" ++ ascii "  "))) true uuid_str_len ≡ none
short_trailing_space_example =
    short_trailing_space (ascii "  ") (ascii "0Xfff0") (ascii "  ") true uuid_str_len spaces spaces
      (prefixed capital_mark hex_digits) (omega arith)

all_distinct : AreDistinct addr_types
all_distinct = record {
  d01 = ground arith;
  d02 = ground arith;
  d03 = ground arith;
  d12 = ground arith;
  d13 = ground arith;
  d23 = ground arith;
}

addr_type_to-from_example :
    Option.map (addr_type_to_wlt addr_types) (addr_type_from_wlt addr_types 3 true)
    ≡ (if leb 3 3 then some 3 else none)
addr_type_to-from_example = addr_type_to-from addr_types 3 all_distinct
