-- ===== src/At/Bounds.antt =====
-- The two buffers of at_host.c are never written past their ends.
use central_uart.Prelude.{
  ℕ, ◌≤◌, ◌<◌, ◌≡◌, Bool, true, false, List, [], ◌∷◌, arith, length, length-append, inl, inr, some,
  Option-cases,
}
use central_uart.Chars.{Text}
use central_uart.Profile.{send_max_len}
use central_uart.At.{Host, State}
use central_uart.At.Command.{process_command_cases, process_command}
use central_uart.At.Actions.{parse_up_to, send_numbers, command_send}
use central_uart.At.Receive.{
  line_size, initial, process_send_payload, payload_byte, end_line, line_byte, rx_byte, rx_loop,
  rx_bytes,
}

-- Both buffers are within their bounds: the line leaves room for its NUL, and a payload under way is
-- short of an expected length of at most 256.
pub record IsValid (s : State) : Type 0 where
  pub line_fits : length s.line < line_size
  pub payload_fits :
      s.payload_mode ≡ true
      → (length s.payload < s.payload_expected) × (s.payload_expected ≤ send_max_len)

pub initial-IsValid : IsValid initial
initial-IsValid = ground arith

send_numbers_bounds :
    (args : List Text) (i n : ℕ)
    → send_numbers args ≡ some (i, n)
    → (i ≤ 255) × (0 < n) × (n ≤ send_max_len)
unfolding send_numbers parse_up_to
send_numbers_bounds (a ∷ b ∷ []) i n e = ground arith
send_numbers_bounds _ i n e = cc

module _ {W : Type 0} (h : Host W) where
  command_send-IsValid :
      (args : List Text) (s : State) (w : W) → IsValid s → IsValid (command_send h args s w).0
  unfolding command_send
  command_send-IsValid args s w v = elim (Option-cases (send_numbers args)) [
    | inl e ↦ rw (e, command_send) v
    | inr ((i, n), e) ↦
        rw (e, command_send)
          (let (a, b, c) = send_numbers_bounds args i n e in
            record { line_fits = v.line_fits; payload_fits = λ m. (b, c) })
  ]

  process_command-IsValid :
      (line : List ℕ) (s : State) (w : W) → IsValid s → IsValid (process_command h line s w).0
  process_command-IsValid line s w v =
      process_command_cases h (λ r. (w : W) → IsValid (r w).0) line s (λ f w. v)
        (λ args w. command_send-IsValid args s w v) w

  end_line-IsValid : (s : State) (w : W) → IsValid s → IsValid (end_line h s w).0
  unfolding end_line
  end_line-IsValid s w v = ground (arith, process_command-IsValid s.line s w v)

  payload_byte-IsValid :
      (ch : ℕ) (s : State) (w : W)
      → s.payload_mode ≡ true
      → IsValid s
      → IsValid (payload_byte h ch s w).0
  unfolding payload_byte process_send_payload
  payload_byte-IsValid ch s w m v = ground (arith, length-append s.payload (ch ∷ []))

  line_byte-IsValid : (ch : ℕ) (s : State) → IsValid s → IsValid (line_byte ch s)
  unfolding line_byte
  line_byte-IsValid ch s v = ground (arith, length-append s.line (ch ∷ []))

  rx_byte-IsValid :
      (ch : ℕ) (skip : Bool) (s : State) (w : W) → IsValid s → IsValid (rx_byte h ch (skip, s, w)).1
  unfolding rx_byte
  rx_byte-IsValid ch skip s w v =
      ground (arith, payload_byte-IsValid ch s w, end_line-IsValid s w v, line_byte-IsValid ch s v)

  rx_loop-IsValid :
      (bytes : List ℕ) (skip : Bool) (s : State) (w : W)
      → IsValid s
      → IsValid (rx_loop h bytes (skip, s, w)).1
  unfolding rx_loop
  rx_loop-IsValid [] skip s w v = v
  rx_loop-IsValid (ch ∷ bytes) skip s w v =
      let (skip', s', w') = rx_byte h ch (skip, s, w) in
      rx_loop-IsValid bytes skip' s' w' (rx_byte-IsValid ch skip s w v)

  -- No input writes past `line_buffer` or `payload_buffer`: any bytes, in any state that is within
  -- its bounds, lead to such a state.
  pub rx_bytes-IsValid :
      (bytes : List ℕ) (s : State) (w : W) → IsValid s → IsValid (rx_bytes h bytes s w).0
  unfolding rx_bytes
  rx_bytes-IsValid bytes s w v = rx_loop-IsValid bytes false s w v
