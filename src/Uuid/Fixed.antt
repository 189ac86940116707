-- ===== src/Uuid/Fixed.antt =====
-- Normal forms are fixed points of `ble_host_normalize_uuid`.
use central_uart.Prelude.{
  ℕ, zero, suc, ◌+◌, ◌-◌, ◌≤◌, ◌<◌, ◌≡◌, sym, ◌∙◌, ap, subst, ◌⊎◌, inl, inr, Bool, true, Option,
  some, [], ◌∷◌, ◌++◌, map, arith, length, take, drop, all, length-append, take-append-drop,
  take_all, length-take, length-drop, all-append, all-take, all-drop, append_assoc, append-nil,
}
use central_uart.Chars.{Text, isspace, isxdigit, toupper, tolower}
use central_uart.Chars.Laws.{visible, all-visible, skip_space-visible, trimmed_len-visible}
use central_uart.Uuid.{
  is_hex_text, normalize_uuid16, dashed, normalize_uuid128_from_hex32, compact_loop, from_compact,
  normalize_trimmed, normalize_uuid,
}
use central_uart.Uuid.Normal.{IsShort, IsLong, IsNormal, normalize_uuid-IsNormal}
use central_uart.Uuid.Compact.{compact_loop_digits, compact_loop_dash}

dash-visible : (s : Text) → all visible s ≡ true → all visible (b'-' ∷ s) ≡ true
unfolding isspace
dash-visible s h = h

prefix-visible : (s : Text) → all visible s ≡ true → all visible (b'0' ∷ b'x' ∷ s) ≡ true
unfolding isspace
prefix-visible s h = h

IsShort-visible : {u : Text} → IsShort u → all visible u ≡ true
IsShort-visible s =
    subst (λ w. all visible w ≡ true) (sym s.shape)
      (prefix-visible s.digits (all-visible s.digits s.hex))

short_fixed :
    (h : Text) (n : ℕ)
    → length h ≡ 4
    → all isxdigit h ≡ true
    → map toupper h ≡ h
    → 7 ≤ n
    → normalize_uuid16 (b'0' ∷ b'x' ∷ h) n ≡ some (b'0' ∷ b'x' ∷ h)
unfolding normalize_uuid16 is_hex_text
short_fixed h n count hex upper room =
    let left : suc (suc (length h)) - 2 ≡ 4 = omega arith in
    rw left (rw (take_all 4 h (omega arith)) (ground arith))

-- A short form comes back unchanged.
normalize_uuid16_fixed : {u : Text} (n : ℕ) → IsShort u → 7 ≤ n → normalize_uuid16 u n ≡ some u
normalize_uuid16_fixed n s room =
    subst (λ w. normalize_uuid16 w n ≡ some w) (sym s.shape)
      (short_fixed s.digits n s.count s.hex s.upper room)

pub length-dashed : (h : Text) → length h ≡ 32 → length (dashed h) ≡ 36
length-dashed h e = simp (length-append, length-take, length-drop) (omega arith)

pub dashed-visible : (h : Text) → all isxdigit h ≡ true → all visible (dashed h) ≡ true
dashed-visible h e = glue 8 h _ v (
    glue 4 (drop 8 h) _ (cut 8)
      (glue 4 (drop 12 h) _ (cut 12) (glue 4 (drop 16 h) _ (cut 16) (cut 20))))
  where
    v : all visible h ≡ true
    v = all-visible h e

    cut : (k : ℕ) → all visible (drop k h) ≡ true
    cut k = all-drop visible k h v

    glue :
        (k : ℕ) (s r : Text)
        → all visible s ≡ true
        → all visible r ≡ true
        → all visible (take k s ++ (b'-' ∷ r)) ≡ true
    glue k s r p q =
        all-append visible (take k s) (b'-' ∷ r) (all-take visible k s p) (dash-visible r q)

-- One group of digits and its dash.
compact_group :
    (a ys c : Text)
    → all isxdigit a ≡ true
    → length c + length a ≤ 32
    → compact_loop (a ++ (b'-' ∷ ys)) c ≡ compact_loop ys (c ++ a)
compact_group a ys c h le = compact_loop_digits a (b'-' ∷ ys) c h le ∙ compact_loop_dash ys (c ++ a)

-- A slice and what follows it.
slice-append-drop : (k n m : ℕ) (h : Text) → k + n ≡ m → take n (drop k h) ++ drop m h ≡ drop k h
slice-append-drop zero n m h e =
    let same : n ≡ m = omega arith in
    subst (λ j. take n h ++ drop j h ≡ h) same (take-append-drop n h)
slice-append-drop (suc k) n zero h e = absurd (omega arith)
slice-append-drop (suc k) n (suc m) [] e = ap (λ s. s ++ []) (take_all n [] (omega arith))
slice-append-drop (suc k) n (suc m) (x ∷ h) e = slice-append-drop k n m h (omega arith)

compact_loop_end : {s h : Text} → s ≡ h → compact_loop [] s ≡ some h
unfolding compact_loop
compact_loop_end q = ap some q

compact_loop-dashed :
    (h : Text) → length h ≡ 32 → all isxdigit h ≡ true → compact_loop (dashed h) [] ≡ some h
compact_loop-dashed h e x =
    compact_group a _ [] (all-take isxdigit 8 h x) (omega (arith, length-take 8 h))
    ∙ compact_group b _ a (part 4 8) (simp (length-take, length-drop) (omega arith))
    ∙ compact_group c _ (a ++ b) (part 4 12)
        (simp (length-append, length-take, length-drop) (omega arith))
    ∙ compact_group d _ ((a ++ b) ++ c) (part 4 16)
        (simp (length-append, length-take, length-drop) (omega arith))
    ∙ rw append-nil at end
    ∙ compact_loop_end whole
  where
    a : Text
    a = take 8 h

    b : Text
    b = take 4 (drop 8 h)

    c : Text
    c = take 4 (drop 12 h)

    d : Text
    d = take 4 (drop 16 h)

    part : (n k : ℕ) → all isxdigit (take n (drop k h)) ≡ true
    part n k = all-take isxdigit n (drop k h) (all-drop isxdigit k h x)

    acc : Text
    acc = ((a ++ b) ++ c) ++ d

    whole : acc ++ drop 20 h ≡ h
    whole = simp (
      append_assoc,
      slice-append-drop 16 4 20 h (omega arith),
      slice-append-drop 12 4 16 h (omega arith),
      slice-append-drop 8 4 12 h (omega arith),
      take-append-drop 8 h,
    )

    end : compact_loop (drop 20 h ++ []) acc ≡ compact_loop [] (acc ++ drop 20 h)
    end =
        compact_loop_digits (drop 20 h) [] acc (all-drop isxdigit 20 h x)
          (simp (length-append, length-take, length-drop) (omega arith))

long_fixed :
    (h : Text) (n : ℕ)
    → length h ≡ 32
    → all isxdigit h ≡ true
    → map tolower h ≡ h
    → 37 ≤ n
    → normalize_uuid128_from_hex32 h n ≡ some (dashed h)
unfolding normalize_uuid128_from_hex32 is_hex_text
long_fixed h n count hex lower room = rw (take_all 32 h (omega arith)) (ground arith)

-- A long form comes back unchanged.
pub normalize_trimmed_long :
    {u : Text} (n : ℕ) → IsLong u → 37 ≤ n → normalize_trimmed u (length u) n ≡ some u
unfolding normalize_trimmed from_compact
normalize_trimmed_long {u} n s room =
    let len : length u ≡ 36 = ap length s.shape ∙ length-dashed s.digits s.count in
    ground (
      arith,
      take_all (length u) u,
      compact_loop-dashed s.digits,
      long_fixed s.digits n,
      ap (λ w. compact_loop w []) s.shape,
    )

normalize_trimmed_short :
    {u : Text} (n : ℕ) → IsShort u → 7 ≤ n → normalize_trimmed u (length u) n ≡ some u
unfolding normalize_trimmed
normalize_trimmed_short {u} n s room =
    let len : length u ≡ suc (suc (length s.digits)) = ap length s.shape in
    ground (arith, normalize_uuid16_fixed n s room)

normalize_uuid-visible :
    (u : Text) (n : ℕ)
    → all visible u ≡ true
    → 0 < n
    → normalize_uuid (some u) true n ≡ normalize_trimmed u (length u) n
unfolding normalize_uuid
normalize_uuid-visible u n v room =
    ground (arith, skip_space-visible u, trimmed_len-visible u (length u))

-- A text in normal form is accepted unchanged wherever it has room.
pub normalize_uuid_fixed :
    {u : Text} (n : ℕ) → IsNormal u n → normalize_uuid (some u) true n ≡ some u
normalize_uuid_fixed {u} n (inl (s, room)) =
    normalize_uuid-visible u n (IsShort-visible s) (omega arith) ∙ normalize_trimmed_short n s room
normalize_uuid_fixed {u} n (inr (s, room)) =
    normalize_uuid-visible u n
      (subst (λ w. all visible w ≡ true) (sym s.shape) (dashed-visible s.digits s.hex))
      (omega arith)
    ∙ normalize_trimmed_long n s room

-- Normalising again changes nothing: if a text normalises to `u` in a buffer of `n` bytes, then so
-- does `u`.
pub normalize_uuid_idem :
    (input : Option Text) (given : Bool) (n : ℕ) (u : Text)
    → normalize_uuid input given n ≡ some u
    → normalize_uuid (some u) true n ≡ some u
normalize_uuid_idem input given n u e =
    normalize_uuid_fixed n (normalize_uuid-IsNormal input given n u e)

-- The text that is written and its NUL fit the buffer, and it has 6 or 36 characters.
pub normalize_uuid_fits :
    (input : Option Text) (given : Bool) (n : ℕ) (u : Text)
    → normalize_uuid input given n ≡ some u
    → (length u < n) × ((length u ≡ 6) ⊎ (length u ≡ 36))
normalize_uuid_fits input given n u e = elim (normalize_uuid-IsNormal input given n u e) [
  | inl (s, room) ↦
      (let len : length u ≡ 6 = omega (arith, ap length s.shape, s.count) in (omega arith, inl len))
  | inr (s, room) ↦
      (let len : length u ≡ 36 = ap length s.shape ∙ length-dashed s.digits s.count in
        (omega arith, inr len))
]
