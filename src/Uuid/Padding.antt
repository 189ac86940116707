-- ===== src/Uuid/Padding.antt =====
-- White space around the input of `ble_host_normalize_uuid`: the trimmed length serves the 128-bit
-- form only, since `normalize_uuid16` takes the length of the whole text again.
use central_uart.Prelude.{
  false, ◌||◌, ◌==◌, ℕ, zero, suc, ◌+◌, ◌≤◌, ◌<◌, ◌≡◌, refl, sym, ◌∙◌, ap, subst, Bool, true, none,
  some, [], ◌∷◌, ◌++◌, arith, length, get_or, take, all, length-append, take_all,
}
use central_uart.Chars.{Text, isspace, isxdigit, skip_space, trimmed_len}
use central_uart.Chars.Laws.{visible, isxdigit-ne-dash, get_or-visible, all-visible}
use central_uart.Uuid.{
  normalize_uuid16, compact_loop, from_compact, normalize_trimmed, normalize_uuid,
}
use central_uart.Uuid.Normal.{IsLong}
use central_uart.Uuid.Fixed.{length-dashed, dashed-visible, normalize_trimmed_long}

skip_space-append : (w t : Text) → all isspace w ≡ true → skip_space (w ++ t) ≡ skip_space t
unfolding skip_space
skip_space-append [] t h = refl
skip_space-append (c ∷ w) t h = ground (arith, skip_space-append w t)

get_or-append : (t w : Text) (k i : ℕ) → i ≡ length t + k → get_or (t ++ w) i 0 ≡ get_or w k 0
get_or-append [] w k i e = ap (λ j. get_or w j 0) e'
  where
    e' : i ≡ k
    e' = omega arith
get_or-append (c ∷ t) w k zero e = absurd (omega arith)
get_or-append (c ∷ t) w k (suc i) e = get_or-append t w k i (omega arith)

get_or-append_left : (t w : Text) (i : ℕ) → i < length t → get_or (t ++ w) i 0 ≡ get_or t i 0
get_or-append_left [] w i h = absurd (omega arith)
get_or-append_left (c ∷ t) w zero h = refl
get_or-append_left (c ∷ t) w (suc i) h = get_or-append_left t w i (omega arith)

get_or-space :
    (w : Text) (k : ℕ) → all isspace w ≡ true → k < length w → isspace (get_or w k 0) ≡ true
get_or-space [] k h lt = absurd (omega arith)
get_or-space (c ∷ w) zero h lt = ground arith
get_or-space (c ∷ w) (suc k) h lt = get_or-space w k (ground arith) (omega arith)

take-length-append : (t w : Text) → take (length t) (t ++ w) ≡ t
take-length-append [] w = refl
take-length-append (c ∷ t) w = ap (◌∷◌ c) (take-length-append t w)

-- The loop passes over the padding `w`.
trimmed_len-append :
    (t w : Text) (k i : ℕ)
    → all isspace w ≡ true
    → k ≤ length w
    → i ≡ length t + k
    → trimmed_len (t ++ w) i ≡ trimmed_len (t ++ w) (length t)
unfolding trimmed_len
trimmed_len-append t w zero i h le e = ap (trimmed_len (t ++ w)) (omega arith)
trimmed_len-append t w (suc k) zero h le e = absurd (omega arith)
trimmed_len-append t w (suc k) (suc i) h le e =
    ground (arith, get_or-append t w k i, get_or-space w k, trimmed_len-append t w k i)

trimmed_len_stop :
    (t w : Text) (k : ℕ) → all visible t ≡ true → k ≡ length t → trimmed_len (t ++ w) k ≡ k
unfolding trimmed_len
trimmed_len_stop t w zero v e = refl
trimmed_len_stop t w (suc k) v e = ground (arith, get_or-append_left t w k, get_or-visible t k)

skip_space_stop : (t w : Text) → all visible t ≡ true → 0 < length t → skip_space (t ++ w) ≡ t ++ w
unfolding skip_space
skip_space_stop [] w v h = absurd (omega arith)
skip_space_stop (c ∷ t) w v h = ground arith

normalize_trimmed_large :
    (t : Text) (len n : ℕ)
    → 6 < len
    → normalize_trimmed t len n ≡ from_compact (compact_loop (take len t) []) n
unfolding normalize_trimmed
normalize_trimmed_large t len n h = ground arith

-- A 128-bit UUID in its normal form is accepted with any white space on both sides, into a buffer of
-- at least 37 bytes.
pub long_padded :
    (before after u : Text) (n : ℕ)
    → all isspace before ≡ true
    → all isspace after ≡ true
    → IsLong u
    → 37 ≤ n
    → normalize_uuid (some (before ++ (u ++ after))) true n ≡ some u
unfolding normalize_uuid
long_padded before after u n hb ha s room =
    rw (skipped, length-append u after, trimmed) (ground (arith, large, whole))
  where
    count : length u ≡ 36
    count = ap length s.shape ∙ length-dashed s.digits s.count

    seen : all visible u ≡ true
    seen = subst (λ w. all visible w ≡ true) (sym s.shape) (dashed-visible s.digits s.hex)

    skipped : skip_space (before ++ (u ++ after)) ≡ u ++ after
    skipped =
        skip_space-append before (u ++ after) hb
        ∙ skip_space_stop u after seen (omega (arith, count))

    trimmed : trimmed_len (u ++ after) (length u + length after) ≡ length u
    trimmed =
        trimmed_len-append u after (length after) (length u + length after) ha (omega arith) refl
        ∙ trimmed_len_stop u after (length u) seen refl

    large :
        normalize_trimmed (u ++ after) (length u) n
        ≡ from_compact (compact_loop (take (length u) (u ++ after)) []) n
    large = normalize_trimmed_large (u ++ after) (length u) n (omega (arith, count))

    whole : from_compact (compact_loop (take (length u) (u ++ after)) []) n ≡ some u
    whole =
        ap (λ w. from_compact (compact_loop w []) n)
          (take-length-append u after ∙ sym (take_all (length u) u (omega arith)))
        ∙ sym (normalize_trimmed_large u (length u) n (omega (arith, count)))
        ∙ normalize_trimmed_long n s room

-- The texts of a 16-bit UUID, which are accepted where nothing follows.
pub data IsShortText : Text → Type 0 where
  bare : {a b c d : ℕ} → all isxdigit (a ∷ b ∷ c ∷ d ∷ []) ≡ true → IsShortText (a ∷ b ∷ c ∷ d ∷ [])
  prefixed :
      {x a b c d : ℕ}
      → (x == b'x' || x == b'X') ≡ true
      → all isxdigit (a ∷ b ∷ c ∷ d ∷ []) ≡ true
      → IsShortText (b'0' ∷ x ∷ a ∷ b ∷ c ∷ d ∷ [])

short-visible : {u : Text} → IsShortText u → all visible u ≡ true
unfolding isspace
short-visible (bare {a} {b} {c} {d} hex) = all-visible (a ∷ b ∷ c ∷ d ∷ []) hex
short-visible (prefixed {x} {a} {b} {c} {d} mark hex) =
    ground (arith, all-visible (a ∷ b ∷ c ∷ d ∷ []) hex)

short-len : {u : Text} → IsShortText u → 0 < length u
short-len (bare hex) = omega arith
short-len (prefixed mark hex) = omega arith

-- The whole text is too long for a 16-bit UUID.
short16_followed :
    (u after : Text) (n : ℕ)
    → IsShortText u
    → 0 < length after
    → normalize_uuid16 (u ++ after) n ≡ none
unfolding normalize_uuid16 isxdigit
short16_followed u after n (bare {a} {b} {c} {d} hex) more = ground arith
short16_followed u after n (prefixed {x} {a} {b} {c} {d} mark hex) more = ground arith

marks : (x : ℕ) → (x == b'x' || x == b'X') ≡ true → (isxdigit x ≡ false) × ((x == b'-') ≡ false)
unfolding isxdigit
marks x h = ground arith

-- Its trimmed part is too short for the other branch.
short_compact : (u : Text) (n : ℕ) → IsShortText u → from_compact (compact_loop u []) n ≡ none
unfolding compact_loop from_compact
short_compact u n (bare {a} {b} {c} {d} hex) =
    ground (arith, isxdigit-ne-dash a, isxdigit-ne-dash b, isxdigit-ne-dash c, isxdigit-ne-dash d)
short_compact u n (prefixed {x} {a} {b} {c} {d} mark hex) = ground (arith, marks x)

short_followed :
    (u after : Text) (n : ℕ)
    → IsShortText u
    → 0 < length after
    → normalize_trimmed (u ++ after) (length u) n ≡ none
unfolding normalize_trimmed
short_followed u after n s more = ground (
  arith,
  short16_followed u after n s more,
  ap (λ t. from_compact (compact_loop t []) n) (take-length-append u after) ∙ short_compact u n s,
)

-- Four hexadecimal digits, with or without 0x or 0X in front and with any white space before them, are
-- refused as soon as any white space follows them, whatever the room for the result.
pub short_trailing_space :
    (before u after : Text) (given : Bool) (n : ℕ)
    → all isspace before ≡ true
    → all isspace after ≡ true
    → IsShortText u
    → 0 < length after
    → normalize_uuid (some (before ++ (u ++ after))) given n ≡ none
unfolding normalize_uuid
short_trailing_space before u after given n hb ha s more =
    rw (skipped, length-append u after, trimmed) (ground (arith, short_followed u after n s more))
  where
    skipped : skip_space (before ++ (u ++ after)) ≡ u ++ after
    skipped =
        skip_space-append before (u ++ after) hb
        ∙ skip_space_stop u after (short-visible s) (short-len s)

    trimmed : trimmed_len (u ++ after) (length u + length after) ≡ length u
    trimmed =
        trimmed_len-append u after (length after) (length u + length after) ha (omega arith) refl
        ∙ trimmed_len_stop u after (length u) (short-visible s) refl
