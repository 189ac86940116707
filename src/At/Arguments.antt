-- ===== src/At/Arguments.antt =====
-- `split_args` against joining by commas.
use central_uart.Prelude.{
  ℕ, zero, suc, ◌<◌, ◌≡◌, refl, sym, ◌∙◌, ap, Bool, true, not, Option, none, some, List, [], ◌∷◌,
  ◌++◌, arith, ◌==◌, length, all, take, length-append,
}
use central_uart.Chars.{Text}
use central_uart.At.Scan.{cut_comma, split_args}

abbrev pub no_comma : ℕ → Bool
no_comma c = not (c == b',')

abbrev pub join : List Text → Text
join [] = []
join (a ∷ []) = a
join (a ∷ b ∷ args) = a ++ (b',' ∷ join (b ∷ args))

-- Texts without commas, the last of them not empty.
abbrev pub CanSplit : List Text → Type 0
CanSplit [] = Unit {0}
CanSplit (a ∷ []) = (all no_comma a ≡ true) × (0 < length a)
CanSplit (a ∷ b ∷ args) = (all no_comma a ≡ true) × CanSplit (b ∷ args)

cut_comma_last : (a : Text) → all no_comma a ≡ true → cut_comma a ≡ (a, none)
unfolding cut_comma
cut_comma_last [] h = refl
cut_comma_last (c ∷ a) h = ground (arith, cut_comma_last a)

cut_comma-append :
    (a rest : Text) → all no_comma a ≡ true → cut_comma (a ++ (b',' ∷ rest)) ≡ (a, some rest)
unfolding cut_comma
cut_comma-append [] rest h = refl
cut_comma-append (c ∷ a) rest h = ground (arith, cut_comma-append a rest)

abbrev split_more : ℕ → Text × Option Text → List Text
split_more n (a, none) = a ∷ []
split_more n (a, some rest) = a ∷ split_args n rest

split_args-suc :
    (n : ℕ) (t : Text) → 0 < length t → split_args (suc n) t ≡ split_more n (cut_comma t)
unfolding split_args
split_args-suc n [] h = absurd (omega arith)
split_args-suc n (c ∷ t) h = more (cut_comma (c ∷ t))
  where
    more :
        (x : Text × Option Text)
        → (x.0 ∷ (elim (x.1) [ none ↦ [] | some r ↦ split_args n r ])) ≡ split_more n x
    more (a, none) = refl
    more (a, some r) = refl

split_args-zero : (t : Text) → split_args zero t ≡ []
unfolding split_args
split_args-zero t = refl

split_args-nil : (n : ℕ) → split_args (suc n) [] ≡ []
unfolding split_args
split_args-nil n = refl

take-nil : (n : ℕ) → take {A = Text} n [] ≡ []
take-nil zero = refl
take-nil (suc n) = refl

-- Arguments without commas, the last of them not empty, come back as they were joined, the first `n`
-- of them where there are more: what stands behind the `n`-th is dropped and not counted.
pub split_args-join :
    (n : ℕ) (args : List Text) → CanSplit args → split_args n (join args) ≡ take n args
split_args-join zero args h = split_args-zero (join args)
split_args-join (suc n) [] h = split_args-nil n
split_args-join (suc n) (a ∷ []) h =
    split_args-suc n a h.1
    ∙ ap (split_more n) (cut_comma_last a h.0)
    ∙ ap (◌∷◌ a) (sym (take-nil n))
split_args-join (suc n) (a ∷ b ∷ args) h =
    split_args-suc n (a ++ (b',' ∷ join (b ∷ args)))
      (omega (arith, length-append a (b',' ∷ join (b ∷ args))))
    ∙ ap (split_more n) (cut_comma-append a (join (b ∷ args)) h.0)
    ∙ ap (◌∷◌ a) (split_args-join n (b ∷ args) h.1)
