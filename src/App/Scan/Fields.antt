-- ===== src/App/Scan/Fields.antt =====
-- The name in advertising data: `parse_device_name` of main.c against the structures that it reads.
use central_uart.Prelude.{
  ℕ, zero, suc, ◌+◌, ◌-◌, ◌≤◌, ◌<◌, ◌≡◌, refl, sym, ◌∙◌, ap, false, ◌||◌, List, [], ◌∷◌, ◌++◌,
  arith, ltb, ◌==◌, if◌then◌else◌, if_ap, min, length, take, drop, length-append, length-drop,
  length-take, drop-length-append, if_both,
}
use central_uart.Chars.{Text, until_nul}
use central_uart.App.Scan.{Radio, name_size, name_loop, parse_device_name}

-- A structure of the advertising data: its type and its value.
abbrev pub Field : Type 0
Field = ℕ × List ℕ

-- The bytes of the structures, with other bytes behind them.
abbrev pub encoded : List Field → List ℕ → List ℕ
encoded [] end = end
encoded ((type, value) ∷ fs) end = (length value + 1) ∷ (type ∷ (value ++ encoded fs end))

-- Nothing, or a length of 0, which ends the data early.
abbrev pub IsEnd : List ℕ → Type 0
IsEnd [] = Unit {0}
IsEnd (c ∷ _) = c ≡ 0

take_front : (n : ℕ) (xs ys : List ℕ) → take (min (length xs) n) (xs ++ ys) ≡ take n xs
take_front zero [] ys = refl
take_front (suc n) [] ys =
    let none_left : min 0 (suc n) ≡ 0 = omega arith in ap (λ m. take m ys) none_left
take_front zero (x ∷ xs) ys =
    let none_left : min (length (x ∷ xs)) 0 ≡ 0 = omega arith in
    ap (λ m. take m (x ∷ xs ++ ys)) none_left
take_front (suc n) (x ∷ xs) ys =
    let one_more : min (length (x ∷ xs)) (suc n) ≡ suc (min (length xs) n) = omega arith in
    ap (λ m. take m (x ∷ xs ++ ys)) one_more ∙ ap (λ l. x ∷ l) (take_front n xs ys)

until_nul-le : (s : Text) → length (until_nul s) ≤ length s
until_nul-le [] = omega arith
until_nul-le (c ∷ cs) = (let h = until_nul-le cs in ground arith)

module _ {K : Type 0} (radio : Radio K) where
  -- The first structure that is a complete or a shortened name, up to 31 bytes and the first NUL.
  abbrev pub first_name : List Field → Text
  first_name [] = []
  first_name ((type, value) ∷ fs) =
      if type == radio.name_complete || type == radio.name_shortened
      then until_nul (take (name_size - 1) value)
      else first_name fs

  name_loop-end : (fuel : ℕ) (end : List ℕ) → IsEnd end → name_loop radio fuel end ≡ []
  unfolding name_loop
  name_loop-end zero end h = refl
  name_loop-end (suc fuel) [] h = refl
  name_loop-end (suc fuel) (c ∷ []) h = refl
  name_loop-end (suc fuel) (c ∷ d ∷ end) h = ground arith

  name_loop-field :
      (fuel type : ℕ) (value ad : List ℕ)
      → name_loop radio (suc fuel) ((length value + 1) ∷ (type ∷ (value ++ ad))) ≡ (
          if type == radio.name_complete || type == radio.name_shortened
          then until_nul (take (name_size - 1) value)
          else name_loop radio fuel ad)
  unfolding name_loop
  name_loop-field fuel type value ad =
      let fits : (length value + 1 == 0 || ltb (length (value ++ ad) + 1) (length value + 1))
          ≡ false =
        ground (arith, length-append value ad) in
      let minus : length value + 1 - 1 ≡ length value = omega arith in
      rw (fits, minus, take_front 31 value ad, drop-length-append value ad)

  name_loop-encoded :
      (fuel : ℕ) (fs : List Field) (end : List ℕ)
      → IsEnd end
      → length (encoded fs end) ≤ fuel
      → name_loop radio fuel (encoded fs end) ≡ first_name fs
  name_loop-encoded fuel [] end h enough = name_loop-end fuel end h
  name_loop-encoded (suc fuel) ((type, value) ∷ fs) end h enough =
      name_loop-field fuel type value (encoded fs end)
      ∙ if_ap (type == radio.name_complete || type == radio.name_shortened) _ _ _ (λ other.
        name_loop-encoded fuel fs end h (omega (arith, length-append value (encoded fs end))))
  name_loop-encoded zero ((type, value) ∷ fs) end h enough = ground arith

  -- Whatever structures the advertising data holds, ended by its end or by a length of 0: the name
  -- found is the value of the first structure of either name type, cut to 31 bytes and at a NUL, and
  -- empty where there is none.
  pub parse_device_name-encoded :
      (fs : List Field) (end : List ℕ)
      → IsEnd end
      → parse_device_name radio (encoded fs end) ≡ first_name fs
  unfolding parse_device_name
  parse_device_name-encoded fs end h =
      name_loop-encoded (length (encoded fs end)) fs end h (omega arith)

  name_loop-fuel :
      (f g : ℕ) (ad : List ℕ)
      → length ad ≤ f
      → length ad ≤ g
      → name_loop radio f ad ≡ name_loop radio g ad
  unfolding name_loop
  name_loop-fuel f g [] p q = name_loop-end f [] tt ∙ sym (name_loop-end g [] tt)
  name_loop-fuel (suc f) (suc g) (c ∷ []) p q = refl
  name_loop-fuel (suc f) (suc g) (c ∷ d ∷ ad) p q =
      if_ap (c == 0 || ltb (length ad + 1) c) _ _ _ (λ fits.
        if_ap (d == radio.name_complete || d == radio.name_shortened) _ _ _ (λ other.
          name_loop-fuel f g (drop (c - 1) ad) (omega (arith, length-drop (c - 1) ad))
            (omega (arith, length-drop (c - 1) ad))))
  name_loop-fuel zero g (c ∷ ad) p q = ground arith
  name_loop-fuel (suc f) zero (c ∷ ad) p q = ground arith

  name_loop-lt : (f : ℕ) (ad : List ℕ) → length (name_loop radio f ad) < name_size
  unfolding name_loop
  name_loop-lt zero ad = omega arith
  name_loop-lt (suc f) [] = omega arith
  name_loop-lt (suc f) (c ∷ []) = omega arith
  name_loop-lt (suc f) (c ∷ d ∷ ad) =
      let P : Text → Type 0 = λ t. length t < name_size in
      let cut = take (min (c - 1) (name_size - 1)) ad in
      if_both P (c == 0 || ltb (length ad + 1) c) _ _ (omega arith) (
        if_both P (d == radio.name_complete || d == radio.name_shortened) _ _
          (omega (arith, until_nul-le cut, length-take (min (c - 1) (name_size - 1)) ad))
          (name_loop-lt f (drop (c - 1) ad)))

  -- The loop over the fields ends by itself on any bytes, well formed or not: more rounds than there
  -- are bytes change nothing; and the name always fits its buffer of 32 with its NUL.
  pub name_loop-ends :
      (fuel : ℕ) (ad : List ℕ)
      → length ad ≤ fuel
      → (name_loop radio fuel ad ≡ parse_device_name radio ad)
        × (length (parse_device_name radio ad) < name_size)
  unfolding parse_device_name
  name_loop-ends fuel ad enough =
      (name_loop-fuel fuel (length ad) ad enough (omega arith), name_loop-lt (length ad) ad)
