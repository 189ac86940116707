-- ===== src/At/Lines.antt =====
-- How the bytes between two line ends become one command.
use central_uart.Prelude.{
  ℕ, ◌+◌, ◌≤◌, ◌<◌, ◌≡◌, refl, sym, ◌∙◌, ap, Bool, true, false, not, List, [], ◌∷◌, ◌++◌, arith,
  ltb, if◌then◌else◌, length, all, length-append, append_assoc, append-nil, dec_lt,
}
use central_uart.At.{Host, State, invalid_command}
use central_uart.At.Reply.{emit_error}
use central_uart.At.Command.{process_command}
use central_uart.At.Receive.{
  line_size, is_line_end, end_line, line_byte, rx_byte, rx_loop, rx_bytes,
}

-- A byte that belongs to a line.
abbrev pub in_line : ℕ → Bool
in_line ch = not (is_line_end ch)

line_byte-room :
    (ch : ℕ) (s : State)
    → length s.line + 1 < line_size
    → line_byte ch s ≡ record s { line = s.line ++ ch ∷ [] }
unfolding line_byte
line_byte-room ch s room = ground arith

module _ {W : Type 0} (h : Host W) where
  pub rx_loop-append :
      (xs ys : List ℕ) (x : Bool × State × W)
      → rx_loop h (xs ++ ys) x ≡ rx_loop h ys (rx_loop h xs x)
  unfolding rx_loop
  rx_loop-append [] ys x = refl
  rx_loop-append (c ∷ xs) ys x = rx_loop-append xs ys (rx_byte h c x)

  rx_byte-line :
      (ch : ℕ) (skip : Bool) (s : State) (w : W)
      → s.payload_mode ≡ false
      → in_line ch ≡ true
      → rx_byte h ch (skip, s, w) ≡ (skip, line_byte ch s, w)
  unfolding rx_byte
  rx_byte-line ch skip s w m p = ground arith

  rx_loop-line :
      (l : List ℕ) (skip : Bool) (s : State) (w : W)
      → s.payload_mode ≡ false
      → all in_line l ≡ true
      → length s.line + length l < line_size
      → rx_loop h l (skip, s, w) ≡ (skip, record s { line = s.line ++ l }, w)
  unfolding rx_loop
  rx_loop-line [] skip s w m p fits = ground (arith, append-nil s.line)
  rx_loop-line (c ∷ l) skip s w m p fits =
      ap (rx_loop h l) (
        rx_byte-line c skip s w m (ground arith)
        ∙ ap (λ t. (skip, t, w)) (line_byte-room c s (omega arith)))
      ∙ rx_loop-line l skip (record s { line = s.line ++ c ∷ [] }) w m (ground arith)
          (omega (arith, length-append s.line (c ∷ [])))
      ∙ ap (λ t. (skip, record s { line = t }, w)) (append_assoc s.line (c ∷ []) l)

  -- The state of a line that has overflowed.
  abbrev overflowed : State → List ℕ → State
  overflowed s kept = record s { line = kept; line_overflow = true }

  rx_loop-overflowed :
      (l : List ℕ) (skip : Bool) (s : State) (w : W)
      → s.payload_mode ≡ false
      → all in_line l ≡ true
      → line_size ≤ length s.line + 1
      → s.line_overflow ≡ true
      → rx_loop h l (skip, s, w) ≡ (skip, s, w)
  unfolding rx_loop line_byte
  rx_loop-overflowed [] skip s w m p full o = refl
  rx_loop-overflowed (c ∷ l) skip s w m p full o =
      ap (rx_loop h l) (rx_byte-line c skip s w m (ground arith) ∙ ground arith)
      ∙ rx_loop-overflowed l skip s w m (ground arith) full o

  rx_loop-long :
      (l : List ℕ) (skip : Bool) (s : State) (w : W)
      → s.payload_mode ≡ false
      → all in_line l ≡ true
      → length s.line < line_size
      → line_size ≤ length s.line + length l
      → (kept : List ℕ) × (rx_loop h l (skip, s, w) ≡ (skip, overflowed s kept, w))
  unfolding rx_loop line_byte
  rx_loop-long [] skip s w m p fits long = absurd (omega arith)
  rx_loop-long (c ∷ l) skip s w m p fits long = elim (dec_lt (length s.line + 1) line_size) [
    | no full ↦ (
      s.line,
      ap (rx_loop h l) (rx_byte-line c skip s w m (ground arith) ∙ ground arith)
          ∙ rx_loop-overflowed l skip (overflowed s s.line) w m (ground arith) (omega arith) refl,
    )
    | yes room ↦
        (let (kept, e) =
            rx_loop-long l skip (record s { line = s.line ++ c ∷ [] }) w m (ground arith)
              (omega (arith, length-append s.line (c ∷ [])))
              (omega (arith, length-append s.line (c ∷ []))) in
          (kept, ap (rx_loop h l) (rx_byte-line c skip s w m (ground arith) ∙ ground arith) ∙ e))
  ]

  -- What becomes of a line `l` once its end is seen.
  abbrev pub line_outcome : List ℕ → State → W → State × W
  line_outcome l s w =
      if ltb (length l) line_size
      then (let (s', w', result) = process_command h l (record s { line = l }) w in
          (record s' { line = []; line_overflow = false }, w'))
      else (record s { line = []; line_overflow = false }, emit_error h.tx invalid_command w)

  abbrev without_skip : Bool × State × W → State × W
  without_skip (skip, s, w) = (s, w)

  outcome_short :
      (l : List ℕ) (s : State) (w : W)
      → length l < line_size
      → line_outcome l s w ≡ (
          let (s', w', result) = process_command h l (record s { line = l }) w in
          (record s' { line = []; line_overflow = false }, w'))
  outcome_short l s w fits = ground arith

  outcome_long :
      (l : List ℕ) (s : State) (w : W)
      → line_size ≤ length l
      → line_outcome l s w
        ≡ (record s { line = []; line_overflow = false }, emit_error h.tx invalid_command w)
  outcome_long l s w long = ground arith

  end_short :
      (e : ℕ) (skip : Bool) (s : State) (w : W)
      → is_line_end e ≡ true
      → s.payload_mode ≡ false
      → s.line_overflow ≡ false
      → 0 < length s.line
      → without_skip (rx_loop h (e ∷ []) (skip, s, w)) ≡ (
          let (s', w', result) = process_command h s.line s w in
          (record s' { line = []; line_overflow = false }, w'))
  unfolding rx_loop rx_byte end_line
  end_short e skip s w q m clean some_bytes = ground arith

  end_long :
      (e : ℕ) (skip : Bool) (s : State) (w : W)
      → is_line_end e ≡ true
      → s.payload_mode ≡ false
      → s.line_overflow ≡ true
      → without_skip (rx_loop h (e ∷ []) (skip, s, w))
        ≡ (record s { line = []; line_overflow = false }, emit_error h.tx invalid_command w)
  unfolding rx_loop rx_byte end_line
  end_long e skip s w q m full = ground arith

  -- Outside payload mode, at the start of a line: a line of 1 to 159 bytes and its end run one command
  -- on exactly that line, and a longer one gives exactly one +ERR=Invalid Command and runs none.
  pub rx_bytes-line :
      (l : List ℕ) (e : ℕ) (s : State) (w : W)
      → all in_line l ≡ true
      → is_line_end e ≡ true
      → 0 < length l
      → s.payload_mode ≡ false
      → s.line ≡ []
      → s.line_overflow ≡ false
      → rx_bytes h (l ++ e ∷ []) s w ≡ line_outcome l s w
  unfolding rx_bytes
  rx_bytes-line l e s w p q some_bytes m empty clean = elim (dec_lt (length l) line_size) [
    | yes fits ↦
        (let t : State = record s { line = s.line ++ l } in
          let same : t ≡ record s { line = l } = ap (λ k. record s { line = k ++ l }) empty in
          ap without_skip (
            rx_loop-append l (e ∷ []) (false, s, w)
            ∙ ap (rx_loop h (e ∷ [])) (
                rx_loop-line l false s w m p (omega (arith, ap length empty))
                ∙ ap (λ k. (false, k, w)) same))
          ∙ end_short e false (record s { line = l }) w q m clean some_bytes
          ∙ sym (outcome_short l s w fits))
    | no long ↦
        (let (kept, r) =
            rx_loop-long l false s w m p (omega (arith, ap length empty)) (omega arith) in
          ap without_skip (rx_loop-append l (e ∷ []) (false, s, w) ∙ ap (rx_loop h (e ∷ [])) r)
          ∙ end_long e false (overflowed s kept) w q m refl
          ∙ sym (outcome_long l s w (omega arith)))
  ]
