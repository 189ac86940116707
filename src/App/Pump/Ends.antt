-- ===== src/App/Pump/Ends.antt =====
-- The loop of the write pump in main.c comes to an end.
use central_uart.Prelude.{
  ℕ, zero, suc, ◌+◌, ◌-◌, ◌<◌, ◌≡◌, ap, true, false, not, ◌&&◌, arith, length, length-drop, ◌==◌,
  if_ap,
}
use central_uart.Errors.{Rc_ap}
use central_uart.Profile
use central_uart.Profile.{Gatt}
use central_uart.App.{host_ring_size, Ring, RingLaws, Kernel, State}
use central_uart.App.Escape.{is_connected}
use central_uart.App.Pump.{may_send, write_loop, waits_for_more, ble_write_work_handler}
use central_uart.App.Link.{LinkLaws}
use central_uart.App.Pump.Order.{chunk_of, round, after_round, after_round-frees, both_hold}

test_pos : {n : ℕ} → (n == 0) ≡ false → 0 < n
test_pos h = ground arith

module _ {U R K : Type 0} (ring : Ring R) (kernel : Kernel K) (gatt : Gatt U K) (capacity : ℕ)
    (laws : RingLaws ring capacity) (link : LinkLaws gatt kernel) where
  open laws use {contents, claimed}
  open link use {accepted}

  -- A round whose send returns 0 leaves fewer bytes.
  pub after_round-lt :
      (pm : Profile.State) (s : State R) (k : K)
      → may_send ring kernel gatt pm ≡ true
      → 0 < length (chunk_of ring kernel gatt capacity laws link pm s)
      → 0 < length (contents s.host_to_ble_ring)
      → length
          (contents (after_round ring kernel gatt capacity laws link pm s k).1.host_to_ble_ring)
        < length (contents s.host_to_ble_ring)
  after_round-lt pm s k may some_bytes more =
      let n = length (chunk_of ring kernel gatt capacity laws link pm s) in
      let (rest, _) = after_round-frees ring kernel gatt capacity laws link pm s k may in
      omega (arith, ap length rest, length-drop n (contents s.host_to_ble_ring))

  -- A ring that `ring_buf_size_get` finds filled holds bytes behind what is claimed.
  pub filled-lt : (r : R) → (ring.size r == 0) ≡ false → claimed r < length (contents r)
  filled-lt r filled = omega (arith, test_pos filled, laws.size-contents r)

  -- The rounds that `ble_write_work_handler` gives are more than the bytes in the ring.
  pub enough_rounds : (r : R) → length (contents r) < host_ring_size - ring.space r + 1
  enough_rounds r = omega (arith, laws.space-contents r, laws.capacity-le)

  write_loop-fuel :
      (f g : ℕ) (pm : Profile.State) (s : State R) (k : K)
      → length (contents s.host_to_ble_ring) < f
      → length (contents s.host_to_ble_ring) < g
      → write_loop ring kernel gatt f pm s k ≡ write_loop ring kernel gatt g pm s k
  unfolding write_loop
  write_loop-fuel zero g pm s k p q = absurd (omega arith)
  write_loop-fuel (suc f) zero pm s k p q = absurd (omega arith)
  write_loop-fuel (suc f) (suc g) pm s k p q =
      if_ap (not (is_connected s.current_conn && may_send ring kernel gatt pm)) _ _ _ λ go.
        if_ap (ring.size s.host_to_ble_ring == 0) _ _ _ λ filled.
          if_ap (waits_for_more ring kernel gatt pm s) _ _ _ λ _.
            if_ap (length (chunk_of ring kernel gatt capacity laws link pm s) == 0) _ _ _
              λ some_bytes. Rc_ap (round ring kernel gatt capacity laws link pm s k).2 _ _ _ λ _.
                (let may =
                    (both_hold (is_connected s.current_conn) (may_send ring kernel gatt pm) go).1 in
                  let more : 0 < length (contents s.host_to_ble_ring) =
                    omega (arith, filled-lt s.host_to_ble_ring filled) in
                  let (pm', s', k') = after_round ring kernel gatt capacity laws link pm s k in
                  let fewer = after_round-lt pm s k may (test_pos some_bytes) more in
                  write_loop-fuel f g pm' s' k' (omega arith) (omega arith))

  -- The loop ends by itself, in every state, also with a claim left open by a failed send: any number
  -- of rounds that is larger than the number of bytes in the ring, claimed or not, gives what
  -- `ble_write_work_handler` gives.
  pub write_loop-ends :
      (fuel : ℕ) (pm : Profile.State) (s : State R) (k : K)
      → length (contents s.host_to_ble_ring) < fuel
      → write_loop ring kernel gatt fuel pm s k ≡ ble_write_work_handler ring kernel gatt pm s k
  unfolding ble_write_work_handler
  write_loop-ends fuel pm s k enough =
      write_loop-fuel fuel (host_ring_size - ring.space s.host_to_ble_ring + 1) pm s k enough
        (enough_rounds s.host_to_ble_ring)
