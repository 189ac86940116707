-- ===== src/App/Scan/Filter.antt =====
-- The filter of the scan in main.c.
use central_uart.Prelude.{
  ℕ, ◌≡◌, ◌↔◌, refl, sym, subst, ◌∙◌, ap, true, some, [], ◌∷◌, ◌++◌, arith, length, take, drop,
  length-append, take_all, take-append-drop,
}
use central_uart.Chars.{Text, equal}
use central_uart.Chars.Laws.{equal_iff}
use central_uart.App.Scan.{matches_scan_filter}

take-length-append : (xs ys : Text) → take (length xs) (xs ++ ys) ≡ xs
take-length-append [] ys = refl
take-length-append (x ∷ xs) ys = ap (λ l. x ∷ l) (take-length-append xs ys)

same_front :
    (filter name : Text)
    → equal (take (length filter) name) (take (length filter) filter) ≡ true
    → take (length filter) name ≡ filter
same_front filter name h =
    (equal_iff (take (length filter) name) (take (length filter) filter)).0 h
    ∙ take_all (length filter) filter (omega arith)

same_front-equal :
    (filter rest : Text)
    → equal (take (length filter) (filter ++ rest)) (take (length filter) filter) ≡ true
same_front-equal filter rest =
    (equal_iff (take (length filter) (filter ++ rest)) (take (length filter) filter)).1
      (take-length-append filter rest ∙ sym (take_all (length filter) filter (omega arith)))

-- A name passes the filter exactly if it begins with the text of the filter.
pub matches_scan_filter-prefix :
    (filter name : Text)
    → (matches_scan_filter filter (some name) ≡ true) ↔ ((rest : Text) × (name ≡ filter ++ rest))
unfolding matches_scan_filter
matches_scan_filter-prefix filter name = (to filter, from)
  where
    to :
        (filter : Text)
        → matches_scan_filter filter (some name) ≡ true
        → (rest : Text) × (name ≡ filter ++ rest)
    to [] h = (name, refl)
    to (c ∷ cs) h =
        let n : ℕ = length (c ∷ cs) in
        let front = same_front (c ∷ cs) name (ground arith) in
        (drop n name, sym (take-append-drop n name) ∙ ap (λ l. l ++ drop n name) front)

    from : (rest : Text) × (name ≡ filter ++ rest) → matches_scan_filter filter (some name) ≡ true
    from (rest, e) =
        subst (λ t. matches_scan_filter filter (some t) ≡ true) (sym e)
          (ground (arith, length-append filter rest, same_front-equal filter rest))
