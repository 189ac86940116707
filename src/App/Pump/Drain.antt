-- ===== src/App/Pump/Drain.antt =====
-- With a link that accepts its writes the write pump of main.c sends what is in the ring.
use central_uart.Prelude.{
  ℕ, zero, suc, ◌+◌, ◌-◌, ◌≤◌, ◌<◌, ◌≡◌, ◌≢◌, sym, subst, ◌∙◌, ap, Bool, true, false, not, ◌&&◌,
  none, some, List, [], ◌∷◌, ◌++◌, append-nil, append_assoc, refl, arith, length, length-take, ◌==◌,
  inl, inr, if_cases, Option-cases,
}
use central_uart.Errors.{Errno, ok, err, Rc_cases}
use central_uart.Profile
use central_uart.Profile.{Gatt, send_max_len}
use central_uart.Profile.Payload.{IsSized}
use central_uart.Profile.Calls.{can_enter_data_mode}
use central_uart.Profile.Send.{send-data_mode}
use central_uart.App.{host_ring_size, Ring, RingLaws, Kernel, State}
use central_uart.App.Escape.{coalesce_ms, is_data_mode, is_connected}
use central_uart.App.Pump.{
  beside, profile_callbacks, may_send, write_loop, waits_for_more, ble_write_work_handler,
}
use central_uart.App.Link.{LinkLaws}
use central_uart.App.Pump.Ends.{after_round-lt, filled-lt, enough_rounds}
use central_uart.App.Pump.Order.{
  chunk_of, claiming, round, after_round, after_round-frees, after_round-Keeps,
  after_round-accepted, chunk-front,
}

test_zero : {n : ℕ} → (n == 0) ≡ true → n ≡ 0
test_zero h = ground arith

closed_test : {a b : Bool} → a ≡ true → b ≡ true → ¬ (not (a && b) ≡ true)
closed_test p q h = ground arith

ok-ne-err : (e : Errno) → ok ≢ err e
ok-ne-err e h = cc

module _ {U R K : Type 0} (ring : Ring R) (kernel : Kernel K) (gatt : Gatt U K) (capacity : ℕ)
    (laws : RingLaws ring capacity) (link : LinkLaws gatt kernel) where
  open laws use {contents, claimed}
  open link use {accepted}

  -- The profile manager is on a connection in data mode.
  pub record CanSend (pm : Profile.State) : Type 0 where
    pub may : may_send ring kernel gatt pm ≡ true
    pub linked : pm.conn ≢ none
    pub sized : IsSized pm

  -- No write command fails.
  abbrev pub IsAccepting : Type 0
  IsAccepting =
      (conn handle : ℕ) (bytes : List ℕ) (k : K) → (gatt.send_command conn handle bytes k).1 ≡ ok

  -- What may be left in the ring once the pump has run: nothing, or in data mode less than a full
  -- payload, for which it waits.
  pub data Rest (in_data_mode : Bool) (payload_len : ℕ) : List ℕ → Type 0 where
    emptied : Rest in_data_mode payload_len []
    held_back :
        {rest : List ℕ}
        → in_data_mode ≡ true
        → length rest < payload_len
        → Rest in_data_mode payload_len rest

  -- The bytes of the ring are split in two: the link has accepted the first, in order and behind what
  -- it had accepted before, and the ring holds the others, with no claim open.
  pub record Drained (pm : Profile.State) (s : State R) (k : K) (x : Profile.State × State R × K)
      : Type 0 where
    pub sent : List ℕ
    pub accepted_sent : accepted x.2 ≡ accepted k ++ sent
    pub sent_rest : sent ++ contents x.1.host_to_ble_ring ≡ contents s.host_to_ble_ring
    pub rest : Rest (is_data_mode s.app_state) pm.payload_len (contents x.1.host_to_ble_ring)
    pub settled : claimed x.1.host_to_ble_ring ≡ 0

  chunk_bounds :
      (pm : Profile.State) (s : State R)
      → IsSized pm
      → claimed s.host_to_ble_ring < length (contents s.host_to_ble_ring)
      → let n = length (chunk_of ring kernel gatt capacity laws link pm s) in
        (0 < n) × (n ≤ pm.payload_len)
  chunk_bounds pm s sized more =
      let r = s.host_to_ble_ring in
      let n = length (ring.claim pm.payload_len r).1 in
      let some_claimed = laws.claim-some pm.payload_len r (omega arith) more in
      let most = laws.claim-le pm.payload_len r in
      let cut = length-take send_max_len (ring.claim pm.payload_len r).1 in
      (omega arith, omega arith)

  round-ok :
      (pm : Profile.State) (s : State R) (k : K)
      → CanSend pm
      → IsAccepting
      → 0 < length (chunk_of ring kernel gatt capacity laws link pm s)
      → length (chunk_of ring kernel gatt capacity laws link pm s) ≤ pm.payload_len
      → (round ring kernel gatt capacity laws link pm s k).2 ≡ ok
  unfolding can_enter_data_mode
  round-ok pm s k can accepting some_bytes fits = elim (Option-cases pm.conn) [
    | inl e ↦ absurd (can.linked e)
    | inr (conn, e) ↦
        ap (λ x. x.2)
          (send-data_mode (beside gatt) (some (profile_callbacks ring kernel))
            (chunk_of ring kernel gatt capacity laws link pm s) conn pm
            (claiming ring kernel gatt capacity laws link pm s, k) can.sized can.may e some_bytes
            fits)
        ∙ accepting conn pm.write_value_handle (chunk_of ring kernel gatt capacity laws link pm s) k
  ]

  no_bytes : (l : List ℕ) → length l ≡ 0 → l ≡ []
  no_bytes [] h = refl
  no_bytes (x ∷ l) h = absurd (omega arith)

  -- A pump that stops before a round sends nothing.
  stops-Drained :
      (pm : Profile.State) (s s' : State R) (k k' : K)
      → accepted k' ≡ accepted k
      → s'.host_to_ble_ring ≡ s.host_to_ble_ring
      → claimed s.host_to_ble_ring ≡ 0
      → Rest (is_data_mode s.app_state) pm.payload_len (contents s.host_to_ble_ring)
      → Drained pm s k (pm, s', k')
  stops-Drained pm s s' k k' same_k same_r free rest = record {
    sent = [];
    accepted_sent = same_k ∙ sym (append-nil (accepted k));
    sent_rest = ap contents same_r;
    rest =
        subst (λ r. Rest (is_data_mode s.app_state) pm.payload_len (contents r)) (sym same_r) rest;
    settled = ap claimed same_r ∙ free;
  }

  -- A round that returns 0, and then a run that drains.
  round-Drained :
      (pm : Profile.State) (s : State R) (k : K) (x : Profile.State × State R × K)
      → claimed s.host_to_ble_ring ≡ 0
      → may_send ring kernel gatt pm ≡ true
      → (round ring kernel gatt capacity laws link pm s k).2 ≡ ok
      → (let (pm', s', k') = after_round ring kernel gatt capacity laws link pm s k in
          Drained pm' s' k' x)
      → Drained pm s k x
  round-Drained pm s k x free may done later =
      let (pm', s', k') = after_round ring kernel gatt capacity laws link pm s k in
      let chunk = chunk_of ring kernel gatt capacity laws link pm s in
      let kept = after_round-Keeps ring kernel gatt capacity laws link pm s k free may done in
      record {
        sent = chunk ++ later.sent;
        accepted_sent =
            later.accepted_sent
            ∙ ap (λ l. l ++ later.sent)
                (after_round-accepted ring kernel gatt capacity laws link pm s k may done)
            ∙ append_assoc (accepted k) chunk later.sent;
        sent_rest =
            append_assoc chunk later.sent (contents x.1.host_to_ble_ring)
            ∙ ap (λ l. chunk ++ l)
                (later.sent_rest
                  ∙ (after_round-frees ring kernel gatt capacity laws link pm s k may).0)
            ∙ chunk-front ring kernel gatt capacity laws link pm s free;
        rest =
            subst (λ m. Rest m pm.payload_len (contents x.1.host_to_ble_ring))
              (ap is_data_mode kept.same_mode)
              (subst
                (λ q.
                  Rest (is_data_mode s'.app_state) q.payload_len (contents x.1.host_to_ble_ring))
                kept.same_manager later.rest);
        settled = later.settled;
      }

  waits_lem :
      (pm : Profile.State) (s : State R)
      → claimed s.host_to_ble_ring ≡ 0
      → waits_for_more ring kernel gatt pm s ≡ true
      → (is_data_mode s.app_state ≡ true) × (length (contents s.host_to_ble_ring) < pm.payload_len)
  waits_lem pm s free waits = (ground arith, ground (arith, laws.size-contents s.host_to_ble_ring))

  write_loop-Drained :
      (fuel : ℕ) (pm : Profile.State) (s : State R) (k : K)
      → CanSend pm
      → IsAccepting
      → is_connected s.current_conn ≡ true
      → claimed s.host_to_ble_ring ≡ 0
      → length (contents s.host_to_ble_ring) < fuel
      → Drained pm s k (write_loop ring kernel gatt fuel pm s k)
  unfolding write_loop
  write_loop-Drained zero pm s k can accepting linked free enough = absurd (omega arith)
  write_loop-Drained (suc fuel) pm s k can accepting linked free enough =
      let P = Drained pm s k in
      if_cases P (not (is_connected s.current_conn && may_send ring kernel gatt pm)) (pm, s, k) _
        (λ stop. absurd (closed_test linked can.may stop))
        λ go.
          if_cases P (ring.size s.host_to_ble_ring == 0)
            (pm, record s { data_mode_tx_flush_due = false }, k) _
            (λ none_left.
              stops-Drained pm s (record s { data_mode_tx_flush_due = false }) k k refl refl free
                (subst (Rest (is_data_mode s.app_state) pm.payload_len)
                  (sym (
                    no_bytes (contents s.host_to_ble_ring)
                      (omega (arith, test_zero none_left, laws.size-contents s.host_to_ble_ring))))
                  emptied))
            λ filled.
              if_cases P (waits_for_more ring kernel gatt pm s)
                (pm, s, kernel.reschedule_coalesce coalesce_ms k) _
                (λ waits.
                  (let (mode, few) = waits_lem pm s free waits in
                    stops-Drained pm s s k (kernel.reschedule_coalesce coalesce_ms k)
                      (link.reschedule_coalesce coalesce_ms k) refl free (held_back mode few)))
                λ _.
                  (let more =
                      filled-lt ring kernel gatt capacity laws link s.host_to_ble_ring filled in
                    let (some_bytes, fits) = chunk_bounds pm s can.sized more in
                    let done = round-ok pm s k can accepting some_bytes fits in
                    if_cases P (length (chunk_of ring kernel gatt capacity laws link pm s) == 0)
                      (pm, claiming ring kernel gatt capacity laws link pm s, k) _
                      (λ none_claimed. absurd (omega (arith, test_zero none_claimed, some_bytes)))
                      λ _.
                        Rc_cases P (round ring kernel gatt capacity laws link pm s k).2 _ _
                          (λ _.
                            (let (pm', s', k') =
                                after_round ring kernel gatt capacity laws link pm s k in
                              let kept =
                                after_round-Keeps ring kernel gatt capacity laws link pm s k free
                                  can.may done in
                              let (_, free') =
                                after_round-frees ring kernel gatt capacity laws link pm s k
                                  can.may in
                              let fewer =
                                after_round-lt ring kernel gatt capacity laws link pm s k can.may
                                  some_bytes (omega arith) in
                              round-Drained pm s k (write_loop ring kernel gatt fuel pm' s' k') free
                                can.may done
                                (write_loop-Drained fuel pm' s' k'
                                  (subst CanSend (sym kept.same_manager) can) accepting
                                  (ap is_connected kept.same_link ∙ linked) free' (omega arith))))
                          (λ e bad. absurd (ok-ne-err e (sym done ∙ bad))))

  -- On a connection whose write commands are all accepted, with a profile manager that may enter data
  -- mode and a payload length in its bounds, one run of the pump on a ring with no claim open sends
  -- the bytes of the ring: the link has then accepted them, in order and behind what it had accepted
  -- before, and nothing is left but, in data mode, less than a full payload from their end.
  pub ble_write_work_handler-Drained :
      (pm : Profile.State) (s : State R) (k : K)
      → CanSend pm
      → IsAccepting
      → is_connected s.current_conn ≡ true
      → claimed s.host_to_ble_ring ≡ 0
      → Drained pm s k (ble_write_work_handler ring kernel gatt pm s k)
  unfolding ble_write_work_handler
  ble_write_work_handler-Drained pm s k can accepting linked free =
      write_loop-Drained (host_ring_size - ring.space s.host_to_ble_ring + 1) pm s k can accepting
        linked free (enough_rounds ring kernel gatt capacity laws link s.host_to_ble_ring)
