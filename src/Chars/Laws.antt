-- ===== src/Chars/Laws.antt =====
-- Laws of the character tests and of the trimming loops.
use central_uart.Prelude.{
  ℕ, zero, suc, ◌≤◌, ◌<◌, ◌≡◌, refl, ap₂, sym, ◌↔◌, Bool, true, false, not, [], ◌∷◌, map, arith,
  ◌==◌, length, get_or, all,
}
use central_uart.Chars.{Text, isspace, isxdigit, toupper, tolower, skip_space, trimmed_len, equal}

pub isspace_of_isxdigit : (c : ℕ) → isxdigit c ≡ true → isspace c ≡ false
unfolding isspace isxdigit
isspace_of_isxdigit c h = ground arith

pub isxdigit-ne-dash : (c : ℕ) → isxdigit c ≡ true → (c == b'-') ≡ false
unfolding isxdigit
isxdigit-ne-dash c h = ground arith

pub toupper_idem : (c : ℕ) → toupper (toupper c) ≡ toupper c
unfolding toupper
toupper_idem c = ground arith

pub tolower_idem : (c : ℕ) → tolower (tolower c) ≡ tolower c
unfolding tolower
tolower_idem c = ground arith

pub tolower-toupper : (c : ℕ) → tolower (toupper c) ≡ tolower c
unfolding tolower toupper
tolower-toupper c = ground arith

pub isxdigit-toupper : (c : ℕ) → isxdigit (toupper c) ≡ isxdigit c
unfolding isxdigit toupper
isxdigit-toupper c = ground arith

pub isxdigit-tolower : (c : ℕ) → isxdigit (tolower c) ≡ isxdigit c
unfolding isxdigit tolower
isxdigit-tolower c = ground arith

pub isspace-toupper : (c : ℕ) → isspace (toupper c) ≡ isspace c
unfolding isspace toupper
isspace-toupper c = ground arith

pub toupper-eq-dash : (c : ℕ) → (toupper c == b'-') ≡ (c == b'-')
unfolding toupper
toupper-eq-dash c = ground arith

pub map-toupper_idem : (s : Text) → map toupper (map toupper s) ≡ map toupper s
map-toupper_idem [] = refl
map-toupper_idem (c ∷ s) = ap₂ ◌∷◌ (toupper_idem c) (map-toupper_idem s)

pub map-tolower_idem : (s : Text) → map tolower (map tolower s) ≡ map tolower s
map-tolower_idem [] = refl
map-tolower_idem (c ∷ s) = ap₂ ◌∷◌ (tolower_idem c) (map-tolower_idem s)

pub map-tolower-toupper : (s : Text) → map tolower (map toupper s) ≡ map tolower s
map-tolower-toupper [] = refl
map-tolower-toupper (c ∷ s) = ap₂ ◌∷◌ (tolower-toupper c) (map-tolower-toupper s)

pub skip_space-map-toupper : (s : Text) → skip_space (map toupper s) ≡ map toupper (skip_space s)
unfolding skip_space
skip_space-map-toupper [] = refl
skip_space-map-toupper (c ∷ s) = ground (arith, isspace-toupper c, skip_space-map-toupper s)

toupper-zero : toupper 0 ≡ 0
unfolding toupper
toupper-zero = refl

get_or-toupper : (s : Text) (k : ℕ) → get_or (map toupper s) k 0 ≡ toupper (get_or s k 0)
get_or-toupper [] k = sym toupper-zero
get_or-toupper (c ∷ s) zero = refl
get_or-toupper (c ∷ s) (suc k) = get_or-toupper s k

pub trimmed_len-map-toupper : (s : Text) (k : ℕ) → trimmed_len (map toupper s) k ≡ trimmed_len s k
unfolding trimmed_len
trimmed_len-map-toupper s zero = refl
trimmed_len-map-toupper s (suc k) =
    ground (arith, get_or-toupper s k, isspace-toupper (get_or s k 0), trimmed_len-map-toupper s k)

pub trimmed_len-le : (s : Text) (k : ℕ) → trimmed_len s k ≤ k
unfolding trimmed_len
trimmed_len-le s zero = omega arith
trimmed_len-le s (suc k) = ground (arith, trimmed_len-le s k)

abbrev pub visible : ℕ → Bool
visible c = not (isspace c)

pub get_or-visible :
    (s : Text) (k : ℕ) → all visible s ≡ true → k < length s → isspace (get_or s k 0) ≡ false
get_or-visible [] k h lt = absurd (omega arith)
get_or-visible (c ∷ s) zero h lt = ground arith
get_or-visible (c ∷ s) (suc k) h lt = get_or-visible s k (ground arith) (omega arith)

-- A text with no space is left whole by both loops.
pub skip_space-visible : (s : Text) → all visible s ≡ true → skip_space s ≡ s
unfolding skip_space
skip_space-visible [] h = refl
skip_space-visible (c ∷ s) h = ground arith

pub trimmed_len-visible :
    (s : Text) (k : ℕ) → all visible s ≡ true → k ≤ length s → trimmed_len s k ≡ k
unfolding trimmed_len
trimmed_len-visible s zero h le = refl
trimmed_len-visible s (suc k) h le = ground (arith, get_or-visible s k)

pub all-visible : (s : Text) → all isxdigit s ≡ true → all visible s ≡ true
all-visible [] h = refl
all-visible (c ∷ s) h = ground (arith, isspace_of_isxdigit c, all-visible s)

pub equal_iff : (a b : Text) → (equal a b ≡ true) ↔ (a ≡ b)
unfolding equal
equal_iff (x ∷ a) (y ∷ b) = ground (arith, equal_iff a b)
equal_iff _ _ = ground arith
