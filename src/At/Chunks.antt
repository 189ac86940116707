-- ===== src/At/Chunks.antt =====
-- `at_host_rx_bytes` is called for each chunk that the UART delivers. Where the chunks are cut matters
-- only behind AT+SEND: the rest of its line end is skipped within the same call and no other.
use central_uart.Prelude.{
  ℕ, ◌<◌, ◌≡◌, refl, ◌∙◌, ap, Bool, true, false, ◌&&◌, List, [], ◌∷◌, ◌++◌, arith, length,
}
use central_uart.Chars.{Text}
use central_uart.At.{Host, State}
use central_uart.At.Command.{process_command, process_command_cases}
use central_uart.At.Actions.{command_send}
use central_uart.At.Receive.{
  is_line_end, is_enter, end_line, payload_byte, rx_byte, rx_loop, rx_bytes,
}
use central_uart.At.Lines.{rx_loop-append}

abbrev pub begins_with_line_end : List ℕ → Bool
begins_with_line_end [] = false
begins_with_line_end (c ∷ _) = is_line_end c

module _ {W : Type 0} (h : Host W) where
  command_send-enter :
      (args : List Text) (s : State) (w : W)
      → is_enter (command_send h args s w).2 ≡ true
      → ((command_send h args s w).0.payload_mode ≡ true)
        × ((command_send h args s w).0.payload ≡ [])
  unfolding command_send
  command_send-enter args s w e = ground arith

  process_command-enter :
      (line : List ℕ) (s : State) (w : W)
      → is_enter (process_command h line s w).2 ≡ true
      → ((process_command h line s w).0.payload_mode ≡ true)
        × ((process_command h line s w).0.payload ≡ [])
  process_command-enter line s w =
      process_command_cases h
        (λ a.
          (w : W)
          → is_enter (a w).2 ≡ true
          → ((a w).0.payload_mode ≡ true) × ((a w).0.payload ≡ []))
        line s (λ f w e. cc) (λ args w. command_send-enter args s w) w

  rx_byte-skip :
      (ch : ℕ) (skip : Bool) (s : State) (w : W)
      → (skip ≡ true → (s.payload_mode ≡ true))
      → (rx_byte h ch (skip, s, w)).0 ≡ true
      → (rx_byte h ch (skip, s, w)).1.payload_mode ≡ true
  unfolding rx_byte end_line
  rx_byte-skip ch skip s w v = ground (arith, process_command-enter s.line s w)

  rx_loop-skip :
      (xs : List ℕ) (skip : Bool) (s : State) (w : W)
      → (skip ≡ true → (s.payload_mode ≡ true))
      → (rx_loop h xs (skip, s, w)).0 ≡ true
      → (rx_loop h xs (skip, s, w)).1.payload_mode ≡ true
  unfolding rx_loop
  rx_loop-skip [] skip s w v e = v e
  rx_loop-skip (c ∷ xs) skip s w v e =
      let (skip', s', w') = rx_byte h c (skip, s, w) in
      rx_loop-skip xs skip' s' w' (rx_byte-skip c skip s w v) e

  abbrev pub without_skip : Bool × State × W → State × W
  without_skip (skip, s, w) = (s, w)

  -- The flag has no influence on a chunk that does not begin with a line end.
  skip_irrelevant :
      (ys : List ℕ) (s : State) (w : W)
      → s.payload_mode ≡ true
      → begins_with_line_end ys ≡ false
      → without_skip (rx_loop h ys (true, s, w)) ≡ without_skip (rx_loop h ys (false, s, w))
  unfolding rx_loop rx_byte
  skip_irrelevant [] s w m b = refl
  skip_irrelevant (c ∷ ys) s w m b = ap (λ x. without_skip (rx_loop h ys x)) (ground arith)

  -- Two chunks have the effect of one, unless the first ends while the line end of an accepted AT+SEND
  -- is being skipped and the second begins with a line end.
  pub rx_bytes-append :
      (xs ys : List ℕ) (s : State) (w : W)
      → ((rx_loop h xs (false, s, w)).0 && begins_with_line_end ys) ≡ false
      → rx_bytes h (xs ++ ys) s w ≡ (let (s', w') = rx_bytes h xs s w in rx_bytes h ys s' w')
  unfolding rx_bytes
  rx_bytes-append xs ys s w apart =
      ap without_skip (rx_loop-append h xs ys (false, s, w))
      ∙ resume (rx_loop h xs (false, s, w)) (rx_loop-skip xs false s w (λ e. cc)) apart
    where
      resume :
          (x : Bool × State × W)
          → (x.0 ≡ true → (x.1.payload_mode ≡ true))
          → (x.0 && begins_with_line_end ys) ≡ false
          → without_skip (rx_loop h ys x) ≡ without_skip (rx_loop h ys (false, x.1, x.2))
      resume (false, s', w') v b = refl
      resume (true, s', w') v b = skip_irrelevant ys s' w' (v refl) b

  cut_line_end :
      (x : Bool × State × W) (e : ℕ)
      → is_line_end e ≡ true
      → x.0 ≡ true
      → x.1.payload_mode ≡ true
      → x.1.payload ≡ []
      → 1 < x.1.payload_expected
      → (without_skip (rx_loop h (e ∷ []) x) ≡ without_skip x)
        × (rx_bytes h (e ∷ []) x.1 x.2 ≡ (record (x.1) { payload = e ∷ [] }, x.2))
  unfolding rx_bytes rx_loop rx_byte payload_byte
  cut_line_end (skip, s, w) e end on m empty more =
      (ground arith, ground (arith, ap length empty, ap (λ k. k ++ e ∷ []) empty))

  -- Where a call ends while the line end of an accepted AT+SEND of more than one byte is being
  -- skipped: a further line end byte within that call is dropped, and the same byte at the start of
  -- the next call is taken as the first byte of the payload.
  pub rx_bytes_cut_line_end :
      (xs : List ℕ) (e : ℕ) (s : State) (w : W)
      → is_line_end e ≡ true
      → (rx_loop h xs (false, s, w)).0 ≡ true
      → (rx_bytes h xs s w).0.payload ≡ []
      → 1 < (rx_bytes h xs s w).0.payload_expected
      → (rx_bytes h (xs ++ e ∷ []) s w ≡ rx_bytes h xs s w)
        × (rx_bytes h (e ∷ []) (rx_bytes h xs s w).0 (rx_bytes h xs s w).1
            ≡ (record ((rx_bytes h xs s w).0) { payload = e ∷ [] }, (rx_bytes h xs s w).1))
  unfolding rx_bytes
  rx_bytes_cut_line_end xs e s w end skip empty more =
      let (dropped, taken) =
        cut_line_end (rx_loop h xs (false, s, w)) e end skip
          (rx_loop-skip xs false s w (λ q. cc) skip) empty more in
      (ap without_skip (rx_loop-append h xs (e ∷ []) (false, s, w)) ∙ dropped, taken)
