-- ===== src/App/Scan/Reports.antt =====
-- Advertising reports in main.c: the handler `device_found` keeps the table of devices well formed.
use central_uart.Prelude.{
  ℕ, zero, suc, ◌+◌, ◌-◌, ◌%◌, ◌<◌, ◌≡◌, refl, sym, subst, ◌∙◌, ap, not, Option, none, some, List,
  [], ◌∷◌, arith, ◌==◌, if_both, length, Option-cases, inl, inr, length-take,
}
use central_uart.Chars.{Text, ascii, snprintk_s}
use central_uart.AddrType.{AddrTypes}
use central_uart.At.Reply.{tx_line}
use central_uart.At.Notify.{notify_scan_result}
use central_uart.App.{Address, Ring, Kernel, State}
use central_uart.App.Output.{queue_ctrl_bytes, queue_ctrl_line}
use central_uart.App.Escape.{output}
use central_uart.App.Scan.{
  Radio, max_scanned, name_size, no_device, copies, update_at, find_index, matches_scan_filter,
  find_scan_entry, clear_scan_cache, new_entry, add_device, device_found, is_scanning,
  parse_device_name,
}
use central_uart.App.Scan.Table.{Slots, free, Slots-le, rssi-Slots, store-Slots, update_at-length}

-- An advertising report: its address, its RSSI as 8 bits, its type and its data.
pub record Report : Type 0 where
  pub addr : Address
  pub rssi : ℕ
  pub type : ℕ
  pub ad : List ℕ

length-copies : {A : Type 0} (n : ℕ) (x : A) → length (copies n x) ≡ n
length-copies zero x = refl
length-copies (suc n) x = ap suc (length-copies n x)

module _ {R K : Type 0} (ring : Ring R) (kernel : Kernel K) (radio : Radio K)
    (types : AddrTypes) where
  -- The reports that the stack hands over, one after the other.
  unfoldable pub reports_run : List Report → State R → K → State R × K
  reports_run [] s k = (s, k)
  reports_run (r ∷ rs) s k =
      let (s', k') = device_found ring kernel radio types r.addr r.rssi r.type r.ad s k in
      reports_run rs s' k'

  -- 32 entries, the first of them taken, as many as the next index says.
  pub record IsTable (s : State R) : Type 0 where
    pub slots : Slots radio 0 s.next_scan_index s.scanned_devices
    pub full : length s.scanned_devices ≡ max_scanned

  queue-IsTable :
      (bytes : List ℕ) (s : State R) (k : K)
      → IsTable s
      → IsTable (queue_ctrl_bytes ring kernel bytes s k).0
  unfolding queue_ctrl_bytes
  queue-IsTable bytes s k v =
      if_both (λ (x : State R × K). IsTable x.0) (length bytes == 0) _ _ v
        (record { slots = v.slots; full = v.full })

  line-IsTable :
      (bytes : List ℕ) (s : State R) (k : K)
      → IsTable s
      → IsTable (queue_ctrl_line ring kernel bytes s k).0
  unfolding queue_ctrl_line
  line-IsTable bytes s k v =
      let (s', k') = queue_ctrl_bytes ring kernel bytes s k in
      queue-IsTable (ascii "\r\n") s' k' (queue-IsTable bytes s k v)

  result-IsTable :
      (index : ℕ) (mac : Text) (name : Option Text) (addr_type rssi : ℕ) (s : State R) (k : K)
      → IsTable s
      → IsTable (notify_scan_result (output ring kernel) index mac name addr_type rssi (s, k)).0
  unfolding notify_scan_result tx_line
  result-IsTable index mac name addr_type rssi s k v = line-IsTable _ s k v

  short-name : (name : Text) → length (snprintk_s name_size name) < name_size
  short-name name = omega (arith, length-take (name_size - 1) name)

  add-IsTable :
      (addr : Address) (rssi : ℕ) (name : Text) (s : State R) (k : K)
      → ((a b : Address) → radio.addr_equal a b ≡ radio.addr_equal b a)
      → IsTable s
      → find_scan_entry radio addr s.scanned_devices ≡ none
      → IsTable (add_device ring kernel radio types addr rssi name s k).0
  add-IsTable addr rssi name s k symmetric v fresh =
      elim (Option-cases (find_index (λ d. not d.valid) s.scanned_devices)) [
        | inl none_free ↦ rw (none_free, add_device) v
        | inr (j, found) ↦
            (let entry = new_entry ring kernel radio s.next_scan_index addr name rssi no_device in
              let more =
                store-Slots radio entry 0 s.next_scan_index j s.scanned_devices symmetric refl refl
                  (short-name name) v.slots fresh found in
              let whole = update_at-length j (λ _. entry) s.scanned_devices ∙ v.full in
              let fits : (s.next_scan_index + 1) % 256 ≡ suc s.next_scan_index =
                omega (arith, Slots-le radio 0 _ _ more, whole) in
              rw (found, add_device)
                (result-IsTable s.next_scan_index _ _ _ rssi _ k (record {
                  slots =
                      subst (λ n. Slots radio 0 n (update_at j (λ _. entry) s.scanned_devices))
                        (sym fits) more;
                  full = whole;
                })))
      ]

  found-IsTable :
      (r : Report) (s : State R) (k : K)
      → ((a b : Address) → radio.addr_equal a b ≡ radio.addr_equal b a)
      → IsTable s
      → IsTable (device_found ring kernel radio types r.addr r.rssi r.type r.ad s k).0
  unfolding device_found
  found-IsTable r s k symmetric v =
      let P : State R × K → Type 0 = λ x. IsTable x.0 in
      let name = parse_device_name radio r.ad in
      if_both P (not (is_scanning s.app_state)) _ _ v (
        if_both P _ _ _ v (
          if_both P (not (matches_scan_filter s.scan_filter_name (some name))) _ _ v
            (elim (Option-cases (find_scan_entry radio r.addr s.scanned_devices)) [
              | inl fresh ↦ rw fresh (add-IsTable r.addr r.rssi name s k symmetric v fresh)
              | inr (j, found) ↦ rw found (record {
                slots =
                    rssi-Slots radio r.rssi 0 s.next_scan_index j s.scanned_devices r.addr v.slots
                      found;
                full =
                    update_at-length j (λ d. record d { rssi = r.rssi }) s.scanned_devices ∙ v.full;
              })
            ])))

  run-IsTable :
      (rs : List Report) (s : State R) (k : K)
      → ((a b : Address) → radio.addr_equal a b ≡ radio.addr_equal b a)
      → IsTable s
      → IsTable (reports_run rs s k).0
  unfolding reports_run
  run-IsTable [] s k symmetric v = v
  run-IsTable (r ∷ rs) s k symmetric v =
      let (s', k') = device_found ring kernel radio types r.addr r.rssi r.type r.ad s k in
      run-IsTable rs s' k' symmetric (found-IsTable r s k symmetric v)

  -- From the moment a scan clears the table, whatever reports arrive: the table has 32 entries, of
  -- which the first are devices, as many as the next index says, and the others are zero; each device
  -- has its position as its index, a name that fits with its NUL, and an address of its own.
  pub reports_run-IsTable :
      (rs : List Report) (s : State R) (k : K)
      → ((a b : Address) → radio.addr_equal a b ≡ radio.addr_equal b a)
      → IsTable (reports_run rs (clear_scan_cache s) k).0
  unfolding clear_scan_cache
  reports_run-IsTable rs s k symmetric =
      run-IsTable rs (clear_scan_cache s) k symmetric
        (record { slots = free max_scanned; full = length-copies max_scanned no_device })
