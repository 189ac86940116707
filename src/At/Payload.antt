-- ===== src/At/Payload.antt =====
-- The payload behind AT+SEND: what is handed to the application.
use central_uart.Prelude.{
  ℕ, ◌+◌, ◌<◌, ◌≡◌, ◌∙◌, ap, Bool, true, false, List, [], ◌∷◌, ◌++◌, arith, length, length-append,
  append_assoc,
}
use central_uart.At.{Host, State}
use central_uart.At.Reply.{reply}
use central_uart.At.Receive.{process_send_payload, payload_byte, rx_byte, rx_loop, rx_bytes}

module _ {W : Type 0} (h : Host W) where
  rx_byte-payload :
      (ch : ℕ) (s : State) (w : W)
      → s.payload_mode ≡ true
      → rx_byte h ch (false, s, w) ≡ (let (s', w') = payload_byte h ch s w in (false, s', w'))
  unfolding rx_byte
  rx_byte-payload ch s w m = ground arith

  payload_byte-more :
      (ch : ℕ) (s : State) (w : W)
      → length s.payload + 1 < s.payload_expected
      → payload_byte h ch s w ≡ (record s { payload = s.payload ++ ch ∷ [] }, w)
  unfolding payload_byte
  payload_byte-more ch s w more = ground (arith, length-append s.payload (ch ∷ []))

  payload_byte-last :
      (ch : ℕ) (s : State) (w : W)
      → length s.payload + 1 ≡ s.payload_expected
      → payload_byte h ch s w
        ≡ process_send_payload h (record s { payload = s.payload ++ ch ∷ [] }) w
  unfolding payload_byte
  payload_byte-last ch s w last = ground (arith, length-append s.payload (ch ∷ []))

  abbrev no_skip : State × W → Bool × State × W
  no_skip (s, w) = (false, s, w)

  rx_loop-payload :
      (c : ℕ) (bytes : List ℕ) (s : State) (w : W)
      → s.payload_mode ≡ true
      → length s.payload + length (c ∷ bytes) ≡ s.payload_expected
      → rx_loop h (c ∷ bytes) (false, s, w)
        ≡ no_skip (process_send_payload h (record s { payload = s.payload ++ c ∷ bytes }) w)
  unfolding rx_loop
  rx_loop-payload c [] s w m e =
      rx_byte-payload c s w m ∙ ap no_skip (payload_byte-last c s w (omega arith))
  rx_loop-payload c (d ∷ bytes) s w m e =
      ap (rx_loop h (d ∷ bytes))
        (rx_byte-payload c s w m ∙ ap no_skip (payload_byte-more c s w (omega arith)))
      ∙ rx_loop-payload d bytes (record s { payload = s.payload ++ c ∷ [] }) w m
          (omega (arith, length-append s.payload (c ∷ [])))
      ∙ ap (λ k. no_skip (process_send_payload h (record s { payload = k }) w))
          (append_assoc s.payload (c ∷ []) (d ∷ bytes))

  -- In payload mode with nothing received, as many bytes as are expected, of any values, are handed to
  -- the application as they are, in one call for the connection that was named; its result is replied,
  -- and the host is back in command mode.
  pub rx_bytes-payload :
      (bytes : List ℕ) (s : State) (w : W)
      → s.payload_mode ≡ true
      → s.payload ≡ []
      → length bytes ≡ s.payload_expected
      → 0 < length bytes
      → rx_bytes h bytes s w ≡ (
        record s { payload_mode = false; payload_expected = 0; payload = [] },
        reply h.tx (h.ops.send_payload s.payload_conn_index bytes w),
      )
  unfolding rx_bytes process_send_payload
  rx_bytes-payload [] s w m empty e some_bytes = absurd (omega arith)
  rx_bytes-payload (c ∷ bytes) s w m empty e some_bytes =
      ap (λ (x : Bool × State × W). let (skip, s', w') = x in (s', w'))
        (rx_loop-payload c bytes s w m (omega (arith, ap length empty, e)))
      ∙ ap (λ k. process_send_payload h (record s { payload = k }) w)
          (ap (λ k. k ++ c ∷ bytes) empty)
