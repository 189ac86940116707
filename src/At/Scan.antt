-- ===== src/At/Scan.antt =====
-- The text helpers of at_host.c, with `strtoul` of the C library on the 32-bit CPU and the `%u` of
-- `snprintk`.
use central_uart.Prelude.{
  ℕ, zero, suc, ◌+◌, ◌-◌, ◌*◌, ◌/◌, ◌%◌, ◌^◌, Bool, true, false, not, Option, none, some, List, [],
  ◌∷◌, ltb, ◌==◌, if◌then◌else◌, length, take,
}
use central_uart.Chars.{Text, within, toupper, skip_space, trimmed_len}

unfoldable pub equals_ignore_case : Text → Text → Bool
equals_ignore_case (a ∷ s) (b ∷ t) =
    if not (toupper a == toupper b) then false else equals_ignore_case s t
equals_ignore_case [] [] = true
equals_ignore_case _ _ = false

unfoldable pub starts_with_ignore_case : Text → Text → Bool
starts_with_ignore_case text [] = true
starts_with_ignore_case [] (p ∷ ps) = false
starts_with_ignore_case (c ∷ cs) (p ∷ ps) =
    if not (toupper c == toupper p) then false else starts_with_ignore_case cs ps

-- `trim_whitespace`: the length loop stops at `start`, which is where the skipped text begins.
unfoldable pub trim_whitespace : Text → Text
trim_whitespace text = let rest = skip_space text in take (trimmed_len rest (length rest)) rest

-- The digits at the front, read onto `acc`, and what follows them.
unfoldable pub read_digits : Text → ℕ → ℕ × Text
read_digits [] acc = (acc, [])
read_digits (c ∷ cs) acc =
    if within b'0' b'9' c then read_digits cs (10 * acc + (c - b'0')) else (acc, c ∷ cs)

abbrev pub starts_with_digit : Text → Bool
starts_with_digit [] = false
starts_with_digit (c ∷ _) = within b'0' b'9' c

abbrev pub ulong_max : ℕ
ulong_max = 2 ^ 32 - 1

-- `strtoul(text, &end, 10)` behind the sign: the value and `end`; no digit is `none`.
unfoldable pub strtoul_signed : Bool → Text → Option (ℕ × Text)
strtoul_signed negative text =
    let (v, end) = read_digits text 0 in
    if not (starts_with_digit text)
    then none
    else if ltb ulong_max v
    then some (ulong_max, end)
    else if negative
    then some ((2 ^ 32 - v) % 2 ^ 32, end)
    else some (v, end)

abbrev pub strtoul_sign : Text → Option (ℕ × Text)
strtoul_sign [] = none
strtoul_sign (c ∷ cs) =
    if c == b'-'
    then strtoul_signed true cs
    else if c == b'+'
    then strtoul_signed false cs
    else strtoul_signed false (c ∷ cs)

unfoldable pub strtoul : Text → Option (ℕ × Text)
strtoul text = strtoul_sign (skip_space text)

-- The value if `*end` is the NUL and it is a uint16_t.
unfoldable pub accept_u16 : Option (ℕ × Text) → Option ℕ
accept_u16 none = none
accept_u16 (some (v, c ∷ end)) = none
accept_u16 (some (v, [])) = if ltb 65535 v then none else some v

-- `parse_uint16_value`; the result is what is written to `*value`, `none` for false.
unfoldable pub parse_uint16_value : Text → Option ℕ
parse_uint16_value text = accept_u16 (strtoul text)

-- The text before the first comma, and what follows that comma.
unfoldable pub cut_comma : Text → Text × Option Text
cut_comma [] = ([], none)
cut_comma (c ∷ cs) =
    let (a, rest) = cut_comma cs in if c == b',' then ([], some cs) else (c ∷ a, rest)

-- `split_args` with room for `max_args` texts; their number is `*arg_count`.
unfoldable pub split_args : ℕ → Text → List Text
split_args zero text = []
split_args (suc n) [] = []
split_args (suc n) (c ∷ cs) =
    let (a, rest) = cut_comma (c ∷ cs) in a ∷ (elim rest [ none ↦ [] | some r ↦ split_args n r ])

-- `%u` of a number with at most `f` digits, in front of `rest`.
unfoldable pub digits : ℕ → ℕ → Text → Text
digits zero n rest = rest
digits (suc f) n rest =
    let more = digits f (n / 10) ((b'0' + n % 10) ∷ rest) in
    if ltb n 10 then (b'0' + n) ∷ rest else more

-- `%u`: a uint32_t has ten digits at most.
unfoldable pub decimal : ℕ → Text
decimal n = digits 10 n []

-- `%d` of an int8_t, given as its 8 bits.
unfoldable pub decimal_int8 : ℕ → Text
decimal_int8 b = if ltb b 128 then decimal b else b'-' ∷ decimal (256 - b)
