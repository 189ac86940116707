-- ===== src/Uuid/Normal.antt =====
-- The two normal forms that `ble_host_normalize_uuid` writes, and that they are its fixed points.
use central_uart.Prelude.{
  ℕ, ◌-◌, ◌≤◌, ◌≡◌, ◌∙◌, ap, subst, ◌⊎◌, inl, inr, Bool, true, not, ◌||◌, Option, none, some, [],
  ◌∷◌, map, arith, ltb, leb, ◌==◌, if◌then◌else◌, Bool-cases, Option-cases, length, take, drop, all,
  take_all, length-drop, length-map, all-map,
}
use central_uart.Chars.{Text, isxdigit, toupper, tolower, skip_space, trimmed_len}
use central_uart.Chars.Laws.{isxdigit-toupper, isxdigit-tolower, map-toupper_idem, map-tolower_idem}
use central_uart.Uuid.{
  is_hex_text, has_hex_prefix, normalize_uuid16, dashed, normalize_uuid128_from_hex32, compact_loop,
  from_compact, normalize_trimmed, normalize_uuid,
}

-- "0x" and four upper-case digits
pub record IsShort (u : Text) : Type 0 where
  pub digits : Text
  pub shape : u ≡ b'0' ∷ b'x' ∷ digits
  pub count : length digits ≡ 4
  pub hex : all isxdigit digits ≡ true
  pub upper : map toupper digits ≡ digits

-- 32 lower-case digits in the grouping 8-4-4-4-12
pub record IsLong (u : Text) : Type 0 where
  pub digits : Text
  pub shape : u ≡ dashed digits
  pub count : length digits ≡ 32
  pub hex : all isxdigit digits ≡ true
  pub lower : map tolower digits ≡ digits

-- Either form, with the room that it takes.
abbrev pub IsNormal : Text → ℕ → Type 0
IsNormal u n = (IsShort u × (7 ≤ n)) ⊎ (IsLong u × (37 ≤ n))

-- The guard of both formatters.
guard_some :
    (a k n m : ℕ) (b : Bool) (x u : Text)
    → (if not (a == k) || not b || ltb n m then none else some x) ≡ some u
    → (a ≡ k) × (b ≡ true) × (m ≤ n) × (u ≡ x)
guard_some a k n m b x u e = ground arith

abbrev offset : Text → ℕ
offset text = if has_hex_prefix text then 2 else 0

normalize_uuid16_hex :
    (text : Text) (n : ℕ) (u : Text)
    → normalize_uuid16 text n ≡ some u
    → (d : Text) × (u ≡ b'0' ∷ b'x' ∷ map toupper d)
      × (length d ≡ 4)
      × (all isxdigit d ≡ true)
      × (7 ≤ n)
unfolding normalize_uuid16 is_hex_text
normalize_uuid16_hex text n u e =
    let d = drop (offset text) text in
    let (count, hex, room, shape) =
      guard_some (length text - offset text) 4 n 7
        (all isxdigit (take (length text - offset text) d)) (b'0' ∷ b'x' ∷ map toupper (take 4 d)) u
        e in
    let whole : take 4 d ≡ d = take_all 4 d (omega (arith, length-drop (offset text) text)) in
    let digits : all isxdigit (take 4 d) ≡ true =
      subst (λ k. all isxdigit (take k d) ≡ true) count hex in
    (take 4 d, shape, omega (arith, ap length whole, length-drop (offset text) text), digits, room)

normalize_uuid128_hex :
    (h : Text) (n : ℕ) (u : Text)
    → normalize_uuid128_from_hex32 h n ≡ some u
    → (u ≡ dashed (map tolower h)) × (length h ≡ 32) × (all isxdigit h ≡ true) × (37 ≤ n)
unfolding normalize_uuid128_from_hex32 is_hex_text
normalize_uuid128_hex h n u e =
    let (count, hex, room, shape) =
      guard_some (length h) 32 n 37 (all isxdigit (take 32 h)) (dashed (map tolower h)) u e in
    (shape, count, subst (λ s. all isxdigit s ≡ true) (take_all 32 h (omega arith)) hex, room)

normalize_uuid16-IsShort :
    (text : Text) (n : ℕ) (u : Text) → normalize_uuid16 text n ≡ some u → IsShort u × (7 ≤ n)
normalize_uuid16-IsShort text n u e =
    let (d, shape, count, hex, room) = normalize_uuid16_hex text n u e in
    (
      record {
        digits = map toupper d;
        shape = shape;
        count = length-map toupper d ∙ count;
        hex = all-map isxdigit isxdigit toupper isxdigit-toupper d ∙ hex;
        upper = map-toupper_idem d;
      },
      room,
    )

from_compact-IsLong :
    (c : Option Text) (n : ℕ) (u : Text) → from_compact c n ≡ some u → IsLong u × (37 ≤ n)
unfolding from_compact
from_compact-IsLong none n u e = cc
from_compact-IsLong (some h) n u e =
    let (shape, count, hex, room) = normalize_uuid128_hex h n u (ground arith) in
    (
      record {
        digits = map tolower h;
        shape = shape;
        count = length-map tolower h ∙ count;
        hex = all-map isxdigit isxdigit tolower isxdigit-tolower h ∙ hex;
        lower = map-tolower_idem h;
      },
      room,
    )

normalize_trimmed-IsNormal :
    (t : Text) (len n : ℕ) (u : Text) → normalize_trimmed t len n ≡ some u → IsNormal u n
unfolding normalize_trimmed
normalize_trimmed-IsNormal t len n u e = elim (Bool-cases (leb len 6)) [
  | inl small ↦ (elim (Option-cases (normalize_uuid16 t n)) [
    | inl failed ↦ inr (from_compact-IsLong (compact_loop (take len t) []) n u (ground arith))
    | inr (v, done) ↦ inl (normalize_uuid16-IsShort t n u (ground arith))
  ])
  | inr large ↦ inr (from_compact-IsLong (compact_loop (take len t) []) n u (ground arith))
]

-- Whatever is accepted is written in one of the two forms, and its NUL fits the buffer.
pub normalize_uuid-IsNormal :
    (input : Option Text) (given : Bool) (n : ℕ) (u : Text)
    → normalize_uuid input given n ≡ some u
    → IsNormal u n
unfolding normalize_uuid
normalize_uuid-IsNormal none given n u e = cc
normalize_uuid-IsNormal (some t) given n u e =
    normalize_trimmed-IsNormal (skip_space t) (trimmed_len (skip_space t) (length (skip_space t))) n
      u (ground arith)
