-- ===== src/App/Pump/Order.antt =====
-- The write pump takes bytes from the front of the ring to the link: none is lost, doubled or
-- reordered, on any outcome of the sends.
use central_uart.Prelude.{
  ℕ, zero, suc, ◌+◌, ◌-◌, ◌≤◌, ◌≡◌, refl, sym, subst, ◌∙◌, ap, ap₂, Bool, true, false, not, ◌&&◌,
  List, [], ◌++◌, arith, length, take, drop, append-nil, append_assoc, take_prefix, length-take,
  ◌==◌, if_cases, if_both, if◌then◌else◌,
}
use central_uart.Errors.{Errno, Rc, ok, Rc_cases}
use central_uart.Profile
use central_uart.Profile.{Gatt, send_max_len}
use central_uart.App.{host_ring_size, Ring, RingLaws, Kernel, State}
use central_uart.App.Escape.{coalesce_ms, is_connected, refresh_uart_rx_flow_control}
use central_uart.App.Transparent.{refresh-keeps}
use central_uart.App.Pump.{
  is_retried, retry_ms, send_bytes, may_send, count_write, write_loop, waits_for_more,
  ble_write_work_handler,
}
use central_uart.App.Link.{granted, LinkLaws, send_bytes-accepted, refresh-accepted}

pub both_hold : (a b : Bool) → not (a && b) ≡ false → (a ≡ true) × (b ≡ true)
both_hold a b h = ground arith

module _ {U R K : Type 0} (ring : Ring R) (kernel : Kernel K) (gatt : Gatt U K) (capacity : ℕ)
    (laws : RingLaws ring capacity) (link : LinkLaws gatt kernel) where
  open laws use {contents, claimed}
  open link use {accepted}

  -- What has been accepted by the link, then what is in the ring.
  abbrev pub on_the_way : State R → K → List ℕ
  on_the_way s k = accepted k ++ contents s.host_to_ble_ring

  -- What a part of the pump keeps of a state.
  pub record Keeps (pm : Profile.State) (s : State R) (k : K) (x : Profile.State × State R × K)
      : Type 0 where
    pub same_bytes : on_the_way x.1 x.2 ≡ on_the_way s k
    pub same_manager : x.0 ≡ pm
    pub same_mode : x.1.app_state ≡ s.app_state
    pub same_link : x.1.current_conn ≡ s.current_conn
    pub same_candidate : x.1.escape_state ≡ s.escape_state

  -- The bytes of one round.
  abbrev pub chunk_of : Profile.State → State R → List ℕ
  chunk_of pm s = take send_max_len (ring.claim pm.payload_len s.host_to_ble_ring).1

  abbrev pub claiming : Profile.State → State R → State R
  claiming pm s = record s { host_to_ble_ring = (ring.claim pm.payload_len s.host_to_ble_ring).0 }

  pub chunk-front :
      (pm : Profile.State) (s : State R)
      → claimed s.host_to_ble_ring ≡ 0
      → chunk_of pm s ++ drop (length (chunk_of pm s)) (contents s.host_to_ble_ring)
        ≡ contents s.host_to_ble_ring
  chunk-front pm s free =
      take_prefix send_max_len (ring.claim pm.payload_len s.host_to_ble_ring).1
        (contents s.host_to_ble_ring)
        (laws.claim-bytes pm.payload_len s.host_to_ble_ring
          ∙ ap
              (λ c.
                take (length (ring.claim pm.payload_len s.host_to_ble_ring).1)
                  (drop c (contents s.host_to_ble_ring)))
              free)

  chunk-le-claimed :
      (pm : Profile.State) (s : State R)
      → length (chunk_of pm s) ≤ claimed (claiming pm s).host_to_ble_ring
  chunk-le-claimed pm s = omega (
    arith,
    length-take send_max_len (ring.claim pm.payload_len s.host_to_ble_ring).1,
    laws.claim-claimed pm.payload_len s.host_to_ble_ring,
  )

  -- The state behind a send that returns 0.
  abbrev taken : Profile.State → State R → K → State R × K
  taken pm s k =
      refresh_uart_rx_flow_control ring kernel
        (count_write ring kernel gatt (length (chunk_of pm s)) (claiming pm s)) k

  taken-ring :
      (pm : Profile.State) (s : State R) (k : K)
      → let s' = (taken pm s k).0 in
        (contents s'.host_to_ble_ring ≡ drop (length (chunk_of pm s)) (contents s.host_to_ble_ring))
        × (claimed s'.host_to_ble_ring ≡ 0)
  taken-ring pm s k =
      let counted = count_write ring kernel gatt (length (chunk_of pm s)) (claiming pm s) in
      let (same, _) = refresh-keeps ring kernel capacity laws counted k in
      let fits = chunk-le-claimed pm s in
      let r = (claiming pm s).host_to_ble_ring in
      (
        ap contents same
            ∙ laws.finish-contents (length (chunk_of pm s)) r fits
            ∙ ap (drop (length (chunk_of pm s)))
                (laws.claim-contents pm.payload_len s.host_to_ble_ring),
        ap claimed same ∙ laws.finish-claimed (length (chunk_of pm s)) r fits,
      )

  refresh-mode :
      (s : State R) (k : K)
      → let s' = (refresh_uart_rx_flow_control ring kernel s k).0 in
        (s'.app_state ≡ s.app_state) × (s'.current_conn ≡ s.current_conn)
  unfolding refresh_uart_rx_flow_control
  refresh-mode s k = (ground arith, ground arith)

  taken-Keeps :
      (pm pm' : Profile.State) (s : State R) (k k' : K)
      → claimed s.host_to_ble_ring ≡ 0
      → pm' ≡ pm
      → accepted k' ≡ accepted k ++ chunk_of pm s
      → Keeps pm s k (pm', (taken pm s k').0, (taken pm s k').1)
  taken-Keeps pm pm' s k k' free same more =
      let counted = count_write ring kernel gatt (length (chunk_of pm s)) (claiming pm s) in
      record {
        same_bytes =
            ap₂ ◌++◌ (refresh-accepted ring kernel gatt link counted k' ∙ more)
              (taken-ring pm s k').0
            ∙ append_assoc (accepted k) (chunk_of pm s)
                (drop (length (chunk_of pm s)) (contents s.host_to_ble_ring))
            ∙ ap (λ l. accepted k ++ l) (chunk-front pm s free);
        same_manager = same;
        same_mode = (refresh-mode counted k').0;
        same_link = (refresh-mode counted k').1;
        same_candidate = (refresh-keeps ring kernel capacity laws counted k').1;
      }

  Keeps-trans :
      {pm pm' : Profile.State} {s s' : State R} {k k' : K} {x : Profile.State × State R × K}
      → Keeps pm s k (pm', s', k')
      → Keeps pm' s' k' x
      → Keeps pm s k x
  Keeps-trans a b = record {
    same_bytes = b.same_bytes ∙ a.same_bytes;
    same_manager = b.same_manager ∙ a.same_manager;
    same_mode = b.same_mode ∙ a.same_mode;
    same_link = b.same_link ∙ a.same_link;
    same_candidate = b.same_candidate ∙ a.same_candidate;
  }

  -- The send of one round.
  abbrev pub round : Profile.State → State R → K → Profile.State × (State R × K) × Rc
  round pm s k = send_bytes ring kernel gatt (chunk_of pm s) pm (claiming pm s, k)

  -- The state behind a round, if its send returns 0.
  abbrev pub after_round : Profile.State → State R → K → Profile.State × State R × K
  after_round pm s k =
      let (pm2, (s2, k2), rc) = round pm s k in
      let (s3, k3) =
        refresh_uart_rx_flow_control ring kernel
          (count_write ring kernel gatt (length (chunk_of pm s)) s2) k2 in
      (pm2, s3, k3)

  -- A round whose send returns 0 frees as many bytes as it sent and leaves no claim open, even where
  -- one was open.
  pub after_round-frees :
      (pm : Profile.State) (s : State R) (k : K)
      → may_send ring kernel gatt pm ≡ true
      → let (_, s', _) = after_round pm s k in
        (contents s'.host_to_ble_ring ≡ drop (length (chunk_of pm s)) (contents s.host_to_ble_ring))
        × (claimed s'.host_to_ble_ring ≡ 0)
  after_round-frees pm s k may =
      let (pm2, (s2, k2), rc) = round pm s k in
      let (same_pm, same_s, more) =
        send_bytes-accepted ring kernel gatt link (chunk_of pm s) pm (claiming pm s) k may in
      subst
        (λ t.
          let (s3, k3) =
            refresh_uart_rx_flow_control ring kernel
              (count_write ring kernel gatt (length (chunk_of pm s)) t) k2 in
          (contents s3.host_to_ble_ring
            ≡ drop (length (chunk_of pm s)) (contents s.host_to_ble_ring))
          × (claimed s3.host_to_ble_ring ≡ 0))
        (sym same_s) (taken-ring pm s k2)

  -- A round whose send returns 0 has handed the link its bytes.
  pub after_round-accepted :
      (pm : Profile.State) (s : State R) (k : K)
      → may_send ring kernel gatt pm ≡ true
      → (round pm s k).2 ≡ ok
      → accepted (after_round pm s k).2 ≡ accepted k ++ chunk_of pm s
  after_round-accepted pm s k may done =
      let (pm2, (s2, k2), rc) = round pm s k in
      let (_, _, more) =
        send_bytes-accepted ring kernel gatt link (chunk_of pm s) pm (claiming pm s) k may in
      refresh-accepted ring kernel gatt link
        (count_write ring kernel gatt (length (chunk_of pm s)) s2) k2
      ∙ more
      ∙ ap (λ c. accepted k ++ granted c (chunk_of pm s)) done

  pub after_round-Keeps :
      (pm : Profile.State) (s : State R) (k : K)
      → claimed s.host_to_ble_ring ≡ 0
      → may_send ring kernel gatt pm ≡ true
      → (round pm s k).2 ≡ ok
      → Keeps pm s k (after_round pm s k)
  after_round-Keeps pm s k free may done =
      let (pm2, (s2, k2), rc) = round pm s k in
      let (same_pm, same_s, more) =
        send_bytes-accepted ring kernel gatt link (chunk_of pm s) pm (claiming pm s) k may in
      let good = more ∙ ap (λ c. accepted k ++ granted c (chunk_of pm s)) done in
      subst
        (λ t.
          let (s3, k3) =
            refresh_uart_rx_flow_control ring kernel
              (count_write ring kernel gatt (length (chunk_of pm s)) t) k2 in
          Keeps pm s k (pm2, s3, k3))
        (sym same_s) (taken-Keeps pm pm2 s k k2 free same_pm good)

  failed-Keeps :
      (pm : Profile.State) (s : State R) (k k' : K)
      → may_send ring kernel gatt pm ≡ true
      → (granted (round pm s k).2 (chunk_of pm s) ≡ [])
      → accepted k' ≡ accepted (round pm s k).1.1
      → Keeps pm s k ((round pm s k).0, (round pm s k).1.0, k')
  failed-Keeps pm s k k' may none_granted later =
      let (same_pm, same_s, more) =
        send_bytes-accepted ring kernel gatt link (chunk_of pm s) pm (claiming pm s) k may in
      record {
        same_bytes =
            ap₂ ◌++◌
              (later ∙ more ∙ ap (λ l. accepted k ++ l) none_granted ∙ append-nil (accepted k))
              (ap (λ t. contents t.host_to_ble_ring) same_s
                ∙ laws.claim-contents pm.payload_len s.host_to_ble_ring);
        same_manager = same_pm;
        same_mode = ap (λ t. t.app_state) same_s;
        same_link = ap (λ t. t.current_conn) same_s;
        same_candidate = ap (λ t. t.escape_state) same_s;
      }

  retry-accepted :
      (e : Errno) (k : K)
      → accepted (if is_retried e then kernel.reschedule_retry retry_ms k else k) ≡ accepted k
  retry-accepted e k = ground (arith, link.reschedule_retry retry_ms k)

  same :
      {pm pm' : Profile.State} {s s' : State R} {k k' : K}
      → on_the_way s' k' ≡ on_the_way s k
      → pm' ≡ pm
      → s'.app_state ≡ s.app_state
      → s'.current_conn ≡ s.current_conn
      → s'.escape_state ≡ s.escape_state
      → Keeps pm s k (pm', s', k')
  same b p m l c = record {
    same_bytes = b;
    same_manager = p;
    same_mode = m;
    same_link = l;
    same_candidate = c;
  }

  write_loop-Keeps :
      (fuel : ℕ) (pm : Profile.State) (s : State R) (k : K)
      → claimed s.host_to_ble_ring ≡ 0
      → Keeps pm s k (write_loop ring kernel gatt fuel pm s k)
  unfolding write_loop
  write_loop-Keeps zero pm s k free = same {s' = s} refl refl refl refl refl
  write_loop-Keeps (suc fuel) pm s k free =
      if_cases (Keeps pm s k) _ _ _ (λ _. same {s' = s} refl refl refl refl refl)
        λ go.
          if_both (Keeps pm s k) (ring.size s.host_to_ble_ring == 0)
            (pm, record s { data_mode_tx_flush_due = false }, k) _ (same refl refl refl refl refl)
            (if_both (Keeps pm s k) (waits_for_more ring kernel gatt pm s)
              (pm, s, kernel.reschedule_coalesce coalesce_ms k) _
              (same (ap (λ l. l ++ contents s.host_to_ble_ring) (link.reschedule_coalesce 1 k)) refl
                refl refl refl)
              (if_both (Keeps pm s k) (length (chunk_of pm s) == 0) (pm, claiming pm s, k) _
                (same
                  (ap (λ l. accepted k ++ l)
                    (laws.claim-contents pm.payload_len s.host_to_ble_ring))
                  refl refl refl refl)
                (Rc_cases (Keeps pm s k) (round pm s k).2 _ _
                  (λ done.
                    (let may =
                        (both_hold (is_connected s.current_conn) (may_send ring kernel gatt pm)
                          go).1 in
                      let (pm', s', k') = after_round pm s k in
                      Keeps-trans (after_round-Keeps pm s k free may done)
                        (write_loop-Keeps fuel pm' s' k' (after_round-frees pm s k may).1)))
                  λ e bad.
                    failed-Keeps pm s k _
                      (both_hold (is_connected s.current_conn) (may_send ring kernel gatt pm) go).1
                      (ap (λ c. granted c (chunk_of pm s)) bad)
                      (retry-accepted e (round pm s k).1.1))))

  -- Whatever the stack answers to the sends, a run of the pump on a ring with no claim open moves bytes
  -- only from the front of the ring to the end of what the link has accepted, and leaves the profile
  -- manager, the mode, the connection and a held escape sequence as they are.
  pub ble_write_work_handler-Keeps :
      (pm : Profile.State) (s : State R) (k : K)
      → claimed s.host_to_ble_ring ≡ 0
      → Keeps pm s k (ble_write_work_handler ring kernel gatt pm s k)
  unfolding ble_write_work_handler
  ble_write_work_handler-Keeps pm s k free =
      write_loop-Keeps (host_ring_size - ring.space s.host_to_ble_ring + 1) pm s k free
