-- ===== src/App/Uart/Moving.antt =====
-- One ring and the UART driver in main.c: bytes go from the front of the ring to what has been written.
use central_uart.Prelude.{
  ℕ, ◌≤◌, ◌≡◌, refl, ◌∙◌, ap, ap₂, true, not, ◌||◌, List, ◌++◌, arith, ◌==◌, if_cases, if_both,
  length, take, drop, take_prefix, length-take, append_assoc,
}
use central_uart.App.{Ring, RingLaws, Kernel, State}
use central_uart.App.Escape.{is_data_mode, is_connected, refresh_uart_rx_flow_control}
use central_uart.App.Callbacks.{activate_pending_data_mode}
use central_uart.App.Uart.{tx_chunk, Driver, sent_count, send_from}

-- What is documented of the driver: `uart_fifo_fill` writes as many bytes as it says, from the front;
-- the clock, the timers and the interrupt enables write none.
pub record DriverLaws {K : Type 0} (driver : Driver K) (kernel : Kernel K) : Type 0 where
  pub written : K → List ℕ
  pub fill :
      (bytes : List ℕ) (k : K)
      → written (driver.fifo_fill bytes k).0
        ≡ written k ++ take (sent_count (driver.fifo_fill bytes k).1) bytes
  pub fill-le : (bytes : List ℕ) (k : K) → sent_count (driver.fifo_fill bytes k).1 ≤ length bytes
  pub uptime : (k : K) → written (kernel.uptime k).0 ≡ written k
  pub tx_disable : (k : K) → written (kernel.tx_disable k) ≡ written k
  pub rx_enable : (k : K) → written (kernel.rx_enable k) ≡ written k
  pub rx_disable : (k : K) → written (kernel.rx_disable k) ≡ written k
  pub cancel_retry : (k : K) → written (kernel.cancel_retry k) ≡ written k
  pub cancel_coalesce : (k : K) → written (kernel.cancel_coalesce k) ≡ written k

module _ {R K : Type 0} (ring : Ring R) (kernel : Kernel K) (driver : Driver K) (capacity : ℕ)
    (laws : RingLaws ring capacity) (out : DriverLaws driver kernel) where
  open laws use {contents, claimed}
  open out use {written}

  -- The rings, the mode once it is data mode, and what has been written.
  pub record IsIdle (s s' : State R) (k k' : K) : Type 0 where
    pub same_ctrl : s'.ctrl_tx_ring ≡ s.ctrl_tx_ring
    pub same_ble : s'.ble_to_host_ring ≡ s.ble_to_host_ring
    pub same_host : s'.host_to_ble_ring ≡ s.host_to_ble_ring
    pub same_written : written k' ≡ written k
    pub stays : is_data_mode s.app_state ≡ true → is_data_mode s'.app_state ≡ true

  refresh-IsIdle :
      (s : State R) (k : K)
      → (let (s', k') = refresh_uart_rx_flow_control ring kernel s k in IsIdle s s' k k')
  unfolding refresh_uart_rx_flow_control
  refresh-IsIdle s k = ground (arith, out.rx_enable k, out.rx_disable k)

  IsIdle-same : (s : State R) (k : K) → IsIdle s s k k
  IsIdle-same s k = record {
    same_ctrl = refl;
    same_ble = refl;
    same_host = refl;
    same_written = refl;
    stays = λ h. h;
  }

  IsIdle-trans : {s t u : State R} {k l m : K} → IsIdle s t k l → IsIdle t u l m → IsIdle s u k m
  IsIdle-trans a b = record {
    same_ctrl = b.same_ctrl ∙ a.same_ctrl;
    same_ble = b.same_ble ∙ a.same_ble;
    same_host = b.same_host ∙ a.same_host;
    same_written = b.same_written ∙ a.same_written;
    stays = λ h. b.stays (a.stays h);
  }

  pub activate-IsIdle :
      (s : State R) (k : K)
      → (let (s', k') = activate_pending_data_mode ring kernel s k in IsIdle s s' k k')
  unfolding activate_pending_data_mode
  activate-IsIdle s k =
      let P : State R × K → Type 0 = λ x. IsIdle s x.0 k x.1 in
      if_both P
        (not s.data_mode_pending_enter
          || is_data_mode s.app_state
          || not (is_connected s.current_conn))
        _ _ (IsIdle-same s k)
        (if_both P (not (ring.size s.ctrl_tx_ring == 0)) _ _ (IsIdle-same s k) (
          IsIdle-trans
            (record {
              same_ctrl = refl;
              same_ble = refl;
              same_host = refl;
              same_written =
                  out.uptime (kernel.cancel_coalesce (kernel.cancel_retry k))
                  ∙ out.cancel_coalesce (kernel.cancel_retry k)
                  ∙ out.cancel_retry k;
              stays = λ _. refl;
            })
            (refresh-IsIdle _ (kernel.uptime (kernel.cancel_coalesce (kernel.cancel_retry k))).0)))

  -- Bytes go from the front of one ring to what has been written, and no claim of it is open then.
  pub record Moves (r r' : R) (k k' : K) : Type 0 where
    pub same_bytes : written k' ++ contents r' ≡ written k ++ contents r
    pub settled : claimed r' ≡ 0

  same_front :
      (n : ℕ) (bytes all : List ℕ)
      → n ≤ length bytes
      → bytes ≡ take (length bytes) all
      → take n bytes ++ drop n all ≡ all
  same_front n bytes all fits front =
      ap (λ m. take n bytes ++ drop m all) (omega (arith, length-take n bytes))
      ∙ take_prefix n bytes all front

  filled-Moves :
      (r : R) (k : K)
      → claimed r ≡ 0
      → let (r', bytes) = ring.claim tx_chunk r in
        let (k', sent) = driver.fifo_fill bytes k in Moves r (ring.finish (sent_count sent) r') k k'
  filled-Moves r k free =
      let (r', bytes) = ring.claim tx_chunk r in
      let (k', sent) = driver.fifo_fill bytes k in
      let n : ℕ = sent_count sent in
      let fits : n ≤ length bytes = out.fill-le bytes k in
      let open_claim : n ≤ claimed r' = omega (arith, laws.claim-claimed tx_chunk r, fits) in
      record {
        same_bytes =
            ap₂ ◌++◌ (out.fill bytes k)
              (laws.finish-contents n r' open_claim ∙ ap (drop n) (laws.claim-contents tx_chunk r))
            ∙ append_assoc (written k) (take n bytes) (drop n (contents r))
            ∙ ap (λ l. written k ++ l)
                (same_front n bytes (contents r) fits (
                  laws.claim-bytes tx_chunk r
                  ∙ ap (λ c. take (length bytes) (drop c (contents r))) free));
        settled = laws.finish-claimed n r' open_claim;
      }

  -- One run on one ring, as `get` reads it and `back` writes it, with what `keep` reads left alone.
  pub send_from-Moves :
      {A : Type 0} (get : State R → R) (keep : State R → A) (back : R → State R) (o : A) (r : R)
      (k : K)
      → ((s : State R) (k : K) → get (activate_pending_data_mode ring kernel s k).0 ≡ get s)
      → ((s : State R) (k : K)
          → keep s ≡ o
          → keep (activate_pending_data_mode ring kernel s k).0 ≡ o)
      → ((r : R) → get (back r) ≡ r)
      → ((r : R) → keep (back r) ≡ o)
      → claimed r ≡ 0
      → let (s', k') = send_from ring kernel driver back r k in
        Moves r (get s') k k' × (keep s' ≡ o)
  send_from-Moves {A} get keep back o r k gets keeps got kept free =
      let (r1, bytes) = ring.claim tx_chunk r in
      let (k2, sent) = driver.fifo_fill bytes k in
      let r2 = ring.finish (sent_count sent) r1 in
      let P : State R × K → Type 0 = λ x. Moves r (get x.0) k x.1 × (keep x.0 ≡ o) in
      let moved = filled-Moves r k free in
      if_cases P (length bytes == 0) _ _
        (λ nothing. (
          record {
            same_bytes =
                ap₂ ◌++◌ (out.tx_disable k) (ap contents (got r1) ∙ laws.claim-contents tx_chunk r);
            settled = ap claimed (got r1) ∙ laws.claim-claimed tx_chunk r ∙ (ground arith);
          },
          kept r1,
        ))
        (λ some_bytes.
          if_both P (sent_count sent == 0) _ _
            (
              record {
                same_bytes = ap₂ ◌++◌ (out.tx_disable k2) (ap contents (got r2)) ∙ moved.same_bytes;
                settled = ap claimed (got r2) ∙ moved.settled;
              },
              kept r2,
            )
            (
              record {
                same_bytes =
                    ap₂ ◌++◌ (activate-IsIdle (back r2) k2).same_written
                      (ap contents (gets (back r2) k2 ∙ got r2))
                    ∙ moved.same_bytes;
                settled = ap claimed (gets (back r2) k2 ∙ got r2) ∙ moved.settled;
              },
              keeps (back r2) k2 (kept r2),
            ))
