-- ===== src/App/Channel/Run.antt =====
-- Runs of data mode: the timers and the guard time, then any sequence of events.
use central_uart.Prelude.{
  ℕ, ◌≤◌, ◌≡◌, refl, sym, subst, ◌∙◌, ap, ap₂, Bool, true, false, List, [], ◌∷◌, ◌++◌, arith,
  append-nil, append_assoc, length, ◌⊎◌, inl, inr, if_both, if_cases, not, ltb, ◌==◌,
}
use central_uart.Settings.{Config}
use central_uart.Profile
use central_uart.Profile.{Gatt}
use central_uart.App.{Ring, RingLaws, Kernel, State}
use central_uart.App.Escape.{
  is_data_mode, is_connected, flush_escape_candidate, elapsed, escape_guard_work_handler,
}
use central_uart.App.Transparent.{IsCandidate, stream, stream_off, flush-keeps}
use central_uart.App.Calm.{IsCalm, flush-IsCalm}
use central_uart.App.Guard.{control_mode, exit-HasLeft}
use central_uart.App.Pump.{may_send, ble_write_coalesce_work_handler, ble_write_retry_work_handler}
use central_uart.App.Pump.Drain.{CanSend, IsAccepting}
use central_uart.App.Link.{LinkLaws, flush-accepted}
use central_uart.App.Channel.{
  Event, received, write_work, coalesce_work, retry_work, guard_work, input_of, event_step,
  events_run, CanTake, CanRun, channel, IsRunning, Advances, calm-IsRunning, received-Advances,
  write-Advances,
}

no_candidate : {b : Bool} {T : Type 0} → b ≡ false → b ≡ true → T
no_candidate p q = ground arith

module _ {U R K : Type 0} (ring : Ring R) (kernel : Kernel K) (gatt : Gatt U K) (capacity : ℕ)
    (laws : RingLaws ring capacity) (link : LinkLaws gatt kernel) where
  open laws use {contents, claimed}
  open link use {accepted}

  -- What stays in data mode, with nothing received, sent or lost.
  abbrev IsQuiet : State R → K → State R × K → Type 0
  IsQuiet s k x =
      IsCalm ring kernel capacity laws s x.0
      × (accepted x.1 ≡ accepted k)
      × IsCandidate x.0.escape_state
      × (stream ring kernel capacity laws x.0 ≡ stream ring kernel capacity laws s)

  abbrev LeavesOrQuiet : State R → K → State R × K → Type 0
  LeavesOrQuiet s k x = (is_data_mode x.0.app_state ≡ false) ⊎ IsQuiet s k x

  same-IsQuiet :
      (s : State R) (k k' : K)
      → IsCandidate s.escape_state
      → accepted k' ≡ accepted k
      → IsQuiet s k (s, k')
  same-IsQuiet s k k' v e =
      (record { same_claims = refl; same_mode = refl; same_link = refl }, e, v, refl)

  flush-IsQuiet :
      (may : Bool) (payload_len : ℕ) (s : State R) (k : K)
      → IsCandidate s.escape_state
      → s.escape_state.active ≡ true
      → length (stream ring kernel capacity laws s) ≤ capacity
      → IsQuiet s k (flush_escape_candidate ring kernel may payload_len s k)
  flush-IsQuiet may payload_len s k v on room =
      let (same, off) = flush-keeps ring kernel capacity laws may payload_len s k on (v on) room in
      (
        flush-IsCalm ring kernel capacity laws may payload_len s k,
        flush-accepted ring kernel gatt link may payload_len s k,
        no_candidate off,
        stream_off ring kernel capacity laws
              (flush_escape_candidate ring kernel may payload_len s k).0 off
            ∙ same,
      )

  guard-cases :
      (config : Config) (may : Bool) (payload_len : ℕ) (s : State R) (k : K)
      → IsCandidate s.escape_state
      → length (stream ring kernel capacity laws s) ≤ capacity
      → LeavesOrQuiet s k (escape_guard_work_handler ring kernel config may payload_len s k)
  unfolding escape_guard_work_handler
  guard-cases config may payload_len s k v room =
      let P : State R × K → Type 0 = LeavesOrQuiet s k in
      let guard = config.stream_guard_time_ms in
      let (k', now) = kernel.uptime k in
      if_cases P (not s.escape_state.active) _ _ (λ off. inr (same-IsQuiet s k k v refl))
        (λ on.
          if_both P (s.escape_state.count == 3) _ _
            (if_both P (ltb (elapsed now s.last_host_rx_time_ms) guard) _ _
              (inr (same-IsQuiet s k _ v (link.reschedule_guard guard k' ∙ link.uptime k)))
              (inl (
                ap is_data_mode (exit-HasLeft ring kernel s k').mode
                ∙ control_mode (is_connected s.current_conn))))
            (inr (flush-IsQuiet may payload_len s k v (ground arith) room)))

module _ {U R K : Type 0} (ring : Ring R) (kernel : Kernel K) (gatt : Gatt U K) (capacity : ℕ)
    (laws : RingLaws ring capacity) (link : LinkLaws gatt kernel) (config : Config)
    (pm : Profile.State) where
  open link use {accepted}

  quiet-Advances :
      (s : State R) (k : K) (x : State R × K)
      → IsRunning ring kernel gatt capacity laws link config pm s
      → IsQuiet ring kernel gatt capacity laws link s k x
      → Advances ring kernel gatt capacity laws link config pm s k [] x
  quiet-Advances s k x v (calm, same_link, candidate, same) = (
    ap₂ ◌++◌ same_link same ∙ sym (append-nil (accepted k ++ stream ring kernel capacity laws s)),
    calm-IsRunning ring kernel gatt capacity laws link config pm calm candidate v,
  )

  guard-Advances :
      (s : State R) (k : K)
      → IsRunning ring kernel gatt capacity laws link config pm s
      → CanTake ring kernel gatt capacity laws link config pm guard_work s k
      → Advances ring kernel gatt capacity laws link config pm s k []
          (event_step ring kernel gatt config pm guard_work s k)
  unfolding event_step
  guard-Advances s k v (room, stays) =
      elim (guard-cases ring kernel gatt capacity laws link config (may_send ring kernel gatt pm)
        pm.payload_len s k v.candidate room) [
          | inl left ↦ no_candidate left stays
          | inr quiet ↦ quiet-Advances s k _ v quiet
        ]

  event-Advances :
      (e : Event) (s : State R) (k : K)
      → CanSend ring kernel gatt capacity laws link pm
      → IsAccepting ring kernel gatt capacity laws link
      → IsRunning ring kernel gatt capacity laws link config pm s
      → CanTake ring kernel gatt capacity laws link config pm e s k
      → Advances ring kernel gatt capacity laws link config pm s k
          (input_of (e ∷ []))
          (event_step ring kernel gatt config pm e s k)
  unfolding event_step ble_write_coalesce_work_handler ble_write_retry_work_handler
  event-Advances (received bytes) s k can accepting v take =
      subst
        (λ l.
          Advances ring kernel gatt capacity laws link config pm s k l
            (event_step ring kernel gatt config pm (received bytes) s k))
        (sym (append-nil bytes))
        (received-Advances ring kernel gatt capacity laws link config pm bytes s k v take)
  event-Advances write_work s k can accepting v take =
      write-Advances ring kernel gatt capacity laws link config pm s k can accepting v
  event-Advances coalesce_work s k can accepting v take = quiet-Advances s k _ v (
    record { same_claims = refl; same_mode = refl; same_link = refl },
    link.submit_write k,
    v.candidate,
    refl,
  )
  event-Advances retry_work s k can accepting v take =
      quiet-Advances s k _ v
        (same-IsQuiet ring kernel gatt capacity laws link s k _ v.candidate (link.submit_write k))
  event-Advances guard_work s k can accepting v take = guard-Advances s k v take

  input_of_cons :
      (e : Event) (es : List Event) → input_of (e ∷ es) ≡ input_of (e ∷ []) ++ input_of es
  input_of_cons (received bytes) es = ap (λ l. l ++ input_of es) (sym (append-nil bytes))
  input_of_cons write_work es = refl
  input_of_cons coalesce_work es = refl
  input_of_cons retry_work es = refl
  input_of_cons guard_work es = refl

  -- Data mode is a transparent channel: from data mode on a connection, with no claim of the ring open
  -- and a profile manager that may enter data mode, in any sequence of received chunks, runs of the
  -- write pump and expired timers, with room in the ring for the pluses held back and what is received,
  -- a link that accepts its writes and no guard time that ends data mode: what the link has accepted
  -- followed by what waits for it is what it was, followed by the bytes received, in order; and data
  -- mode goes on with no claim of the ring open.
  pub events_run-channel :
      (es : List Event) (s : State R) (k : K)
      → CanSend ring kernel gatt capacity laws link pm
      → IsAccepting ring kernel gatt capacity laws link
      → IsRunning ring kernel gatt capacity laws link config pm s
      → CanRun ring kernel gatt capacity laws link config pm es s k
      → let (s', k') = events_run ring kernel gatt config pm es s k in
        (channel ring kernel gatt capacity laws link config pm s' k'
          ≡ channel ring kernel gatt capacity laws link config pm s k ++ input_of es)
        × IsRunning ring kernel gatt capacity laws link config pm s'
  unfolding events_run
  events_run-channel [] s k can accepting v run =
      (sym (append-nil (channel ring kernel gatt capacity laws link config pm s k)), v)
  events_run-channel (e ∷ es) s k can accepting v (take, run) =
      let (s', k') = event_step ring kernel gatt config pm e s k in
      let (now, v') = event-Advances e s k can accepting v take in
      let (later, last) = events_run-channel es s' k' can accepting v' run in
      let before = channel ring kernel gatt capacity laws link config pm s k in
      (
        later
            ∙ ap (λ l. l ++ input_of es) now
            ∙ append_assoc before (input_of (e ∷ [])) (input_of es)
            ∙ ap (λ l. before ++ l) (sym (input_of_cons e es)),
        last,
      )
