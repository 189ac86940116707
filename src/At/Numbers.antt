-- ===== src/At/Numbers.antt =====
-- `parse_uint16_value` and the decimal numbers that the host prints.
use central_uart.Prelude.{
  ℕ, zero, suc, ◌+◌, ◌-◌, ◌*◌, ◌/◌, ◌%◌, ◌^◌, ◌≤◌, ◌<◌, ◌≡◌, refl, ◌∙◌, ap, true, false, Option,
  none, some, [], ◌∷◌, arith, dec_lt,
}
use native.Mathlib.Nat.{pow-suc}
use central_uart.Chars.{Text, within, isspace, skip_space}
use central_uart.At.Scan.{
  read_digits, starts_with_digit, strtoul_signed, strtoul, accept_u16, parse_uint16_value, digits,
  decimal,
}

accept_u16-le : (o : Option (ℕ × Text)) (v : ℕ) → accept_u16 o ≡ some v → v ≤ 65535
unfolding accept_u16
accept_u16-le none v e = cc
accept_u16-le (some (x, c ∷ end)) v e = cc
accept_u16-le (some (x, [])) v e = ground arith

-- What is accepted fits a uint16_t.
pub parse_uint16_value-le : (t : Text) (v : ℕ) → parse_uint16_value t ≡ some v → v ≤ 65535
unfolding parse_uint16_value
parse_uint16_value-le t v e = accept_u16-le (strtoul t) v e

read_digit :
    (d : ℕ) (rest : Text) (acc : ℕ)
    → d < 10
    → read_digits ((b'0' + d) ∷ rest) acc ≡ read_digits rest (10 * acc + d)
unfolding read_digits
read_digit d rest acc h = ground arith

-- The digits printed for `n` are read back as `n`.
read_digits-digits :
    (f n : ℕ) (rest : Text) → n < 10 ^ f → read_digits (digits f n rest) 0 ≡ read_digits rest n
unfolding digits
read_digits-digits zero n rest h = ap (read_digits rest) (omega arith)
read_digits-digits (suc f) n rest h = elim (dec_lt n 10) [
  | yes small ↦
      ap (λ t. read_digits t 0) (ground arith)
      ∙ read_digit n rest 0 small
      ∙ ap (read_digits rest) (omega arith)
  | no large ↦
      (let fits : n / 10 < 10 ^ f = (let e : n < 10 ^ f * 10 = rw pow-suc at h in omega arith) in
        ap (λ t. read_digits t 0) (ground arith)
        ∙ read_digits-digits f (n / 10) ((b'0' + n % 10) ∷ rest) fits
        ∙ read_digit (n % 10) rest (n / 10) (omega arith)
        ∙ ap (read_digits rest) (omega arith))
]

digits_start :
    (f n d : ℕ) (rest : Text)
    → within b'0' b'9' d ≡ true
    → starts_with_digit (digits f n (d ∷ rest)) ≡ true
unfolding digits
digits_start zero n d rest h = h
digits_start (suc f) n d rest h = ground (arith, digits_start f (n / 10) (b'0' + n % 10) (d ∷ rest))

digits_suc_start : (f n : ℕ) → starts_with_digit (digits (suc f) n []) ≡ true
unfolding digits
digits_suc_start f n = ground (arith, digits_start f (n / 10) (b'0' + n % 10) [])

decimal_start : (n : ℕ) → starts_with_digit (decimal n) ≡ true
unfolding decimal
decimal_start n = digits_suc_start 9 n

strtoul_digits : (t : Text) → starts_with_digit t ≡ true → strtoul t ≡ strtoul_signed false t
unfolding strtoul skip_space isspace
strtoul_digits [] h = cc
strtoul_digits (c ∷ t) h = ground arith

read_digits-decimal : (n : ℕ) → n < 10 ^ 10 → read_digits (decimal n) 0 ≡ (n, [])
unfolding decimal read_digits
read_digits-decimal n h = read_digits-digits 10 n [] h

-- A uint16_t that is printed in decimal is read back.
pub parse_uint16_value-decimal : (n : ℕ) → n ≤ 65535 → parse_uint16_value (decimal n) ≡ some n
unfolding parse_uint16_value
parse_uint16_value-decimal n h =
    ap accept_u16 (strtoul_digits (decimal n) (decimal_start n) ∙ value) ∙ accepted
  where
    value : strtoul_signed false (decimal n) ≡ some (n, [])
    value = unfold strtoul_signed in ground (arith, decimal_start n, read_digits-decimal n)

    accepted : accept_u16 (some (n, [])) ≡ some n
    accepted = unfold accept_u16 in ground arith

-- A minus sign is accepted, as `strtoul` does: the number is taken from 2^32, so that the negatives
-- of the last 65535 numbers below 2^32 are read as 1 to 65535.
pub parse_uint16_value_negative :
    (m : ℕ)
    → 2 ^ 32 - 65535 ≤ m
    → m < 2 ^ 32
    → parse_uint16_value (b'-' ∷ decimal m) ≡ some (2 ^ 32 - m)
unfolding parse_uint16_value
parse_uint16_value_negative m lo hi = ap accept_u16 (minus (decimal m) ∙ value) ∙ accepted
  where
    minus : (t : Text) → strtoul (b'-' ∷ t) ≡ strtoul_signed true t
    minus t = unfold strtoul skip_space isspace in refl

    value : strtoul_signed true (decimal m) ≡ some (2 ^ 32 - m, [])
    value = unfold strtoul_signed in ground (arith, decimal_start m, read_digits-decimal m)

    accepted : accept_u16 (some (2 ^ 32 - m, [])) ≡ some (2 ^ 32 - m)
    accepted = unfold accept_u16 in ground arith
