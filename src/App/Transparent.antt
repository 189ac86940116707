-- ===== src/App/Transparent.antt =====
-- Data mode is transparent: no byte from the computer is lost, doubled or reordered while there is
-- room, whatever the clock says; what may be an escape sequence is only held back.
use central_uart.Prelude.{
  ℕ, zero, suc, ◌+◌, ◌≤◌, ◌<◌, ◌≡◌, refl, sym, subst, ◌∙◌, ap, ap₂, Bool, true, false, List, [],
  ◌∷◌, ◌++◌, arith, min, if◌then◌else◌, length, take, take_all, length-append, append-nil,
  append_assoc, Bool-cases, inl, inr, ltb, ◌==◌, ◌&&◌,
}
use central_uart.Settings.{Config}
use central_uart.App.{EscapeState, Ring, RingLaws, Kernel, State}
use central_uart.App.Escape.{
  pluses, schedule_data_mode_ble_tx, refresh_uart_rx_flow_control, flush_escape_candidate, flushed,
  hold_plus, plain_byte, data_byte, data_loop, handle_data_mode_rx,
}

-- The pluses that are held back.
abbrev pub held : EscapeState → List ℕ
held e = if e.active then take e.count pluses else []

-- A candidate has 1 to 3 pluses.
abbrev pub IsCandidate : EscapeState → Type 0
IsCandidate e = e.active ≡ true → (1 ≤ e.count) × (e.count ≤ 3)

take_plus : (n : ℕ) → n < 3 → take (n + 1) pluses ≡ take n pluses ++ b'+' ∷ []
take_plus zero h = refl
take_plus (suc zero) h = refl
take_plus (suc (suc zero)) h = refl
take_plus (suc (suc (suc n))) h = absurd (omega arith)

module _ {R W : Type 0} (ring : Ring R) (kernel : Kernel W) (capacity : ℕ)
    (laws : RingLaws ring capacity) where
  -- What has been received and not yet sent: the ring, then the pluses held back.
  abbrev pub stream : State R → List ℕ
  stream s = laws.contents s.host_to_ble_ring ++ held s.escape_state

  pub put_all :
      (bytes : List ℕ) (r : R)
      → length (laws.contents r) + length bytes ≤ capacity
      → laws.contents (ring.put bytes r).0 ≡ laws.contents r ++ bytes
  put_all bytes r room =
      laws.put-contents bytes r
      ∙ ap (λ l. laws.contents r ++ l)
          (take_all (min (length bytes) (ring.space r)) bytes
            (omega (arith, laws.space-contents r)))

  schedule-keeps :
      (may_send : Bool) (payload_len : ℕ) (s : State R) (w : W)
      → let s' = (schedule_data_mode_ble_tx ring kernel may_send payload_len s w).0 in
        (s'.host_to_ble_ring ≡ s.host_to_ble_ring) × (s'.escape_state ≡ s.escape_state)
  unfolding schedule_data_mode_ble_tx
  schedule-keeps may_send payload_len s w = (ground arith, ground arith)

  pub refresh-keeps :
      (s : State R) (w : W)
      → let s' = (refresh_uart_rx_flow_control ring kernel s w).0 in
        (s'.host_to_ble_ring ≡ s.host_to_ble_ring) × (s'.escape_state ≡ s.escape_state)
  unfolding refresh_uart_rx_flow_control
  refresh-keeps s w = (ground arith, ground arith)

  flush-active :
      (may_send : Bool) (payload_len : ℕ) (s : State R) (w : W)
      → s.escape_state.active ≡ true
      → 1 ≤ s.escape_state.count
      → flush_escape_candidate ring kernel may_send payload_len s w
        ≡ schedule_data_mode_ble_tx ring kernel may_send payload_len
            (flushed ring kernel s w)
            (kernel.uptime w).0
  unfolding flush_escape_candidate
  flush-active may_send payload_len s w on low = ground arith

  pub flush-keeps :
      (may_send : Bool) (payload_len : ℕ) (s : State R) (w : W)
      → s.escape_state.active ≡ true
      → (1 ≤ s.escape_state.count) × (s.escape_state.count ≤ 3)
      → length (stream s) ≤ capacity
      → let s' = (flush_escape_candidate ring kernel may_send payload_len s w).0 in
        (laws.contents s'.host_to_ble_ring ≡ stream s) × (s'.escape_state.active ≡ false)
  flush-keeps may_send payload_len s w on (low, high) room =
      let w' = (kernel.uptime w).0 in
      let (same_ring, same_escape) =
        schedule-keeps may_send payload_len (flushed ring kernel s w) w' in
      let flush = flush-active may_send payload_len s w on low in
      let holds : held s.escape_state ≡ take s.escape_state.count pluses = rw on in
      let bound : length (laws.contents s.host_to_ble_ring)
            + length (take s.escape_state.count pluses)
          ≤ capacity =
        omega (
          arith,
          length-append (laws.contents s.host_to_ble_ring) (held s.escape_state),
          ap length holds,
          room,
        ) in
      (
        ap (λ x. laws.contents (x.0).host_to_ble_ring) flush
            ∙ ap laws.contents same_ring
            ∙ put_all (take s.escape_state.count pluses) s.host_to_ble_ring bound
            ∙ ap (λ l. laws.contents s.host_to_ble_ring ++ l) (sym holds),
        ap (λ x. (x.0).escape_state.active) flush ∙ ap (λ e. e.active) same_escape,
      )

  -- One more byte behind `before`.
  abbrev Takes : List ℕ → ℕ → State R → Type 0
  Takes before ch s = (stream s ≡ before ++ ch ∷ []) × IsCandidate s.escape_state

  plain-Takes :
      (guard ch now : ℕ) (s : State R) (w : W)
      → s.escape_state.active ≡ false
      → length (laws.contents s.host_to_ble_ring) + 1 ≤ capacity
      → Takes (laws.contents s.host_to_ble_ring) ch (plain_byte ring kernel guard ch now s w).0
  unfolding plain_byte
  plain-Takes guard ch now s w off room =
      let put = put_all (ch ∷ []) s.host_to_ble_ring room in
      (ground (arith, put, append-nil (laws.contents s.host_to_ble_ring ++ ch ∷ [])), ground arith)

  pub stream_off :
      (s : State R) → s.escape_state.active ≡ false → stream s ≡ laws.contents s.host_to_ble_ring
  stream_off s off =
      ap
        (λ b.
          laws.contents s.host_to_ble_ring ++ (if b then take s.escape_state.count pluses else []))
        off
      ∙ append-nil (laws.contents s.host_to_ble_ring)

  stream_on :
      (s : State R)
      → s.escape_state.active ≡ true
      → stream s ≡ laws.contents s.host_to_ble_ring ++ take s.escape_state.count pluses
  stream_on s on =
      ap
        (λ b.
          laws.contents s.host_to_ble_ring ++ (if b then take s.escape_state.count pluses else []))
        on

  hold-Takes :
      (guard ch now : ℕ) (s : State R) (w : W)
      → s.escape_state.active ≡ true
      → (ch ≡ b'+') × (s.escape_state.count < 3)
      → Takes (stream s) ch (hold_plus ring kernel guard (s.escape_state.count + 1) now s w).0
  hold-Takes guard ch now s w on (plus, more) = (
    ap (λ l. laws.contents s.host_to_ble_ring ++ l) (take_plus s.escape_state.count more)
        ∙ sym (
            append_assoc (laws.contents s.host_to_ble_ring) (take s.escape_state.count pluses)
              (b'+' ∷ []))
        ∙ ap₂ (λ l c. l ++ c ∷ []) (sym (stream_on s on)) (sym plus),
    λ e. (omega arith, omega arith),
  )

  data_byte-off :
      (guard : ℕ) (may_send : Bool) (payload_len ch : ℕ) (s : State R) (w : W)
      → s.escape_state.active ≡ false
      → data_byte ring kernel guard may_send payload_len ch s w
        ≡ (let (w0, now) = kernel.uptime w in plain_byte ring kernel guard ch now s w0)
  unfolding data_byte
  data_byte-off guard may_send payload_len ch s w off = rw off

  data_byte-more :
      (guard : ℕ) (may_send : Bool) (payload_len ch : ℕ) (s : State R) (w : W)
      → s.escape_state.active ≡ true
      → (ch == b'+' && ltb s.escape_state.count 3) ≡ true
      → data_byte ring kernel guard may_send payload_len ch s w ≡ (
          let (w0, now) = kernel.uptime w in
          hold_plus ring kernel guard (s.escape_state.count + 1) now s (kernel.cancel_guard w0))
  unfolding data_byte
  data_byte-more guard may_send payload_len ch s w on more = rw (on, more)

  data_byte-last :
      (guard : ℕ) (may_send : Bool) (payload_len ch : ℕ) (s : State R) (w : W)
      → s.escape_state.active ≡ true
      → (ch == b'+' && ltb s.escape_state.count 3) ≡ false
      → data_byte ring kernel guard may_send payload_len ch s w ≡ (
          let (w0, now) = kernel.uptime w in
          let (s', w') =
            flush_escape_candidate ring kernel may_send payload_len s (kernel.cancel_guard w0) in
          plain_byte ring kernel guard ch now s' w')
  unfolding data_byte
  data_byte-last guard may_send payload_len ch s w on last = rw (on, last)

  abbrev pub TakesFirst : List ℕ → ℕ → State R × W → Type 0
  TakesFirst before ch x = Takes before ch x.0

  data_byte-Takes :
      (guard : ℕ) (may_send : Bool) (payload_len ch : ℕ) (s : State R) (w : W)
      → IsCandidate s.escape_state
      → length (stream s) + 1 ≤ capacity
      → TakesFirst (stream s) ch (data_byte ring kernel guard may_send payload_len ch s w)
  data_byte-Takes guard may_send payload_len ch s w v room =
      let (w0, now) = kernel.uptime w in
      elim (Bool-cases s.escape_state.active) [
        | inr off ↦
            subst (TakesFirst (stream s) ch)
              (sym (data_byte-off guard may_send payload_len ch s w off))
              (subst (λ l. Takes l ch (plain_byte ring kernel guard ch now s w0).0)
                (sym (stream_off s off))
                (plain-Takes guard ch now s w0 off (omega (arith, ap length (stream_off s off)))))
        | inl on ↦ elim (Bool-cases (ch == b'+' && ltb s.escape_state.count 3)) [
          | inl more ↦
              subst (TakesFirst (stream s) ch)
                (sym (data_byte-more guard may_send payload_len ch s w on more))
                (hold-Takes guard ch now s (kernel.cancel_guard w0) on (ground arith))
          | inr last ↦
              (let w1 = kernel.cancel_guard w0 in
                let (s', w') = flush_escape_candidate ring kernel may_send payload_len s w1 in
                let (same, off) = flush-keeps may_send payload_len s w1 on (v on) (omega arith) in
                subst (TakesFirst (stream s) ch)
                  (sym (data_byte-last guard may_send payload_len ch s w on last))
                  (subst (λ l. Takes l ch (plain_byte ring kernel guard ch now s' w').0) same
                    (plain-Takes guard ch now s' w' off (omega (arith, ap length same)))))
        ]
      ]

  data_loop-lem :
      (guard : ℕ) (may_send : Bool) (payload_len : ℕ) (bytes : List ℕ) (s : State R) (w : W)
      → IsCandidate s.escape_state
      → length (stream s) + length bytes ≤ capacity
      → let s' = (data_loop ring kernel guard may_send payload_len bytes s w).0 in
        (stream s' ≡ stream s ++ bytes) × IsCandidate s'.escape_state
  unfolding data_loop
  data_loop-lem guard may_send payload_len [] s w v room = (sym (append-nil (stream s)), v)
  data_loop-lem guard may_send payload_len (ch ∷ bytes) s w v room =
      let (s', w') = data_byte ring kernel guard may_send payload_len ch s w in
      let (more, v') = data_byte-Takes guard may_send payload_len ch s w v (omega arith) in
      let (rest, v'') =
        data_loop-lem guard may_send payload_len bytes s' w' v'
          (omega (arith, ap length more, length-append (stream s) (ch ∷ []))) in
      (rest ∙ ap (λ l. l ++ bytes) more ∙ append_assoc (stream s) (ch ∷ []) bytes, v'')

  -- While the ring has room for the bytes and for the pluses held back: what data mode has received
  -- and not sent, the ring followed by the pluses held back, grows by exactly these bytes in their
  -- order, whatever the clock says; and 1 to 3 pluses are held back, if any.
  pub handle_data_mode_rx-stream :
      (config : Config) (may_send : Bool) (payload_len : ℕ) (bytes : List ℕ) (s : State R) (w : W)
      → IsCandidate s.escape_state
      → length (stream s) + length bytes ≤ capacity
      → let s' = (handle_data_mode_rx ring kernel config may_send payload_len bytes s w).0 in
        (stream s' ≡ stream s ++ bytes) × IsCandidate s'.escape_state
  unfolding handle_data_mode_rx
  handle_data_mode_rx-stream config may_send payload_len bytes s w v room =
      let guard = config.stream_guard_time_ms in
      let (s1, w1) = data_loop ring kernel guard may_send payload_len bytes s w in
      let (s2, w2) = schedule_data_mode_ble_tx ring kernel may_send payload_len s1 w1 in
      let (same, v1) = data_loop-lem guard may_send payload_len bytes s w v room in
      let (r1, e1) = schedule-keeps may_send payload_len s1 w1 in
      let (r2, e2) = refresh-keeps s2 w2 in
      (
        ap₂ (λ r e. laws.contents r ++ held e) (r2 ∙ r1) (e2 ∙ e1) ∙ same,
        subst IsCandidate (sym (e2 ∙ e1)) v1,
      )
