-- ===== src/App/Scan/Mac.antt =====
-- The address of AT+CONN in main.c: `parse_connect_mac` reads what prints an address in hexadecimal.
use mathlib.Core.List.{reverse, reverse_aux}
use central_uart.Prelude.{
  ℕ, suc, ◌+◌, ◌*◌, ◌/◌, ◌%◌, ◌<◌, ◌≡◌, refl, sym, ◌∙◌, ap, Bool, true, false, Option, none, ◌||◌,
  some, List, [], ◌∷◌, arith, ltb, ◌==◌, if◌then◌else◌, length, drop, all,
}
use central_uart.Chars.{Text, isxdigit, skip_space}
use central_uart.Chars.Laws.{isspace_of_isxdigit}
use central_uart.App.Scan.{Radio, hex_value, sscanf_2x, mac_loop, parse_connect_mac}

-- The digit of a value below 16.
abbrev pub hex_digit : Bool → ℕ → ℕ
hex_digit upper v = if ltb v 10 then v + b'0' else if upper then v + 55 else v + 87

-- Two digits for each byte.
abbrev pub hex_pairs : Bool → List ℕ → Text
hex_pairs upper [] = []
hex_pairs upper (b ∷ bs) =
    hex_digit upper (b / 16) ∷ (hex_digit upper (b % 16) ∷ hex_pairs upper bs)

abbrev pub is_byte : ℕ → Bool
is_byte b = ltb b 256

hex_digit-isxdigit : (upper : Bool) (v : ℕ) → v < 16 → isxdigit (hex_digit upper v) ≡ true
unfolding isxdigit
hex_digit-isxdigit upper v h = ground arith

hex_value-hex_digit : (upper : Bool) (v : ℕ) → v < 16 → hex_value (hex_digit upper v) ≡ v
hex_value-hex_digit upper v h = ground arith

no_sign : (c : ℕ) → isxdigit c ≡ true → ((c == b'+') ≡ false) × ((c == b'-') ≡ false)
unfolding isxdigit
no_sign c h = (ground arith, ground arith)

sscanf_2x-digits :
    (c d : ℕ) (text : Text)
    → isxdigit c ≡ true
    → isxdigit d ≡ true
    → sscanf_2x (c ∷ (d ∷ text)) ≡ some (16 * hex_value c + hex_value d)
unfolding sscanf_2x skip_space
sscanf_2x-digits c d text p q =
    let (no_plus, no_minus) = no_sign c p in rw (isspace_of_isxdigit c p, no_plus, no_minus, p, q)

sscanf_2x-byte :
    (upper : Bool) (b : ℕ) (text : Text)
    → b < 256
    → sscanf_2x (hex_digit upper (b / 16) ∷ (hex_digit upper (b % 16) ∷ text)) ≡ some b
sscanf_2x-byte upper b text h =
    let high : b / 16 < 16 = omega arith in
    let low : b % 16 < 16 = omega arith in
    sscanf_2x-digits (hex_digit upper (b / 16)) (hex_digit upper (b % 16)) text
      (hex_digit-isxdigit upper (b / 16) high) (hex_digit-isxdigit upper (b % 16) low)
    ∙ ap some (
        omega
          (arith, hex_value-hex_digit upper (b / 16) high, hex_value-hex_digit upper (b % 16) low))

mac_loop-step :
    (n v : ℕ) (text : Text) (read : List ℕ)
    → sscanf_2x text ≡ some v
    → mac_loop (suc n) text read ≡ mac_loop n (drop 2 text) (v % 256 ∷ read)
mac_loop-step n v text read e =
    ap
      (λ o. elim o as (λ _. Option (List ℕ)) [
        | none ↦ none
        | some v ↦ mac_loop n (drop 2 text) (v % 256 ∷ read)
      ])
      e

mac_loop-pairs :
    (upper : Bool) (bytes read : List ℕ)
    → all is_byte bytes ≡ true
    → mac_loop (length bytes) (hex_pairs upper bytes) read ≡ some (reverse_aux bytes read)
mac_loop-pairs upper [] read h = refl
mac_loop-pairs upper (b ∷ bs) read h =
    let small : b < 256 = ground arith in
    let rest : all is_byte bs ≡ true = ground arith in
    let whole : b % 256 ≡ b = omega arith in
    mac_loop-step (length bs) b (hex_pairs upper (b ∷ bs)) read
      (sscanf_2x-byte upper b (hex_pairs upper bs) small)
    ∙ ap (λ c. mac_loop (length bs) (hex_pairs upper bs) (c ∷ read)) whole
    ∙ mac_loop-pairs upper bs (b ∷ read) rest

length-hex_pairs :
    (upper : Bool) (bytes : List ℕ) → length (hex_pairs upper bytes) ≡ 2 * length bytes
length-hex_pairs upper [] = refl
length-hex_pairs upper (b ∷ bs) = omega (arith, length-hex_pairs upper bs)

module _ {K : Type 0} (radio : Radio K) where
  -- Six bytes written as 0x or 0X and two hexadecimal digits of either case for each are read as these
  -- bytes in the opposite order, which is the order of the address, the last byte of the text first.
  pub parse_connect_mac-hex_pairs :
      (upper : Bool) (x : ℕ) (bytes : List ℕ)
      → (x == b'x' || x == b'X') ≡ true
      → length bytes ≡ 6
      → all is_byte bytes ≡ true
      → parse_connect_mac radio (b'0' ∷ (x ∷ hex_pairs upper bytes)) ≡ some (reverse bytes)
  unfolding parse_connect_mac
  parse_connect_mac-hex_pairs upper x bytes mark six small =
      let long : length (hex_pairs upper bytes) ≡ 12 =
        omega (arith, length-hex_pairs upper bytes, six) in
      rw (long, mark)
        (ap (λ n. mac_loop n (hex_pairs upper bytes) []) (sym six)
          ∙ mac_loop-pairs upper bytes [] small)
