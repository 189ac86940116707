-- ===== src/App/Scan.antt =====
-- Scanning in main.c: the advertising data, the table of devices, the filter and the text of an address.
pub mod Fields
pub mod Filter
pub mod Mac
pub mod Table
pub mod Reports
use central_uart.Prelude.{
  ℕ, zero, suc, ◌+◌, ◌-◌, ◌*◌, ◌%◌, ◌^◌, Bool, true, false, not, ◌&&◌, ◌||◌, Option, none, some,
  List, [], ◌∷◌, ltb, ◌==◌, if◌then◌else◌, min, length, take, drop,
}
use central_uart.Chars.{Text, until_nul, snprintk_s, skip_space, isxdigit, within, equal}
use central_uart.AddrType.{AddrTypes, addr_type_to_wlt}
use central_uart.Errors.{Rc, ealready, ok, err}
use central_uart.At.Notify.{notify_scan_result, notify_scan_complete}
use central_uart.App.{
  AppState, idle, scanning, control_ready, Address, ScannedDevice, Ring, Kernel, State,
}
use central_uart.App.Escape.{is_connected, output}

-- MAX_SCANNED_DEVICES, BLE_HOST_NAME_MAX_LEN and BLE_HOST_SCAN_FILTER_MAX_LEN
abbrev pub max_scanned : ℕ
max_scanned = 32

abbrev pub name_size : ℕ
name_size = 32

abbrev pub filter_size : ℕ
filter_size = 32

-- The Bluetooth stack as the scanner uses it: constants of its headers and its calls.
pub record Radio (K : Type 0) : Type 0 where
  pub name_shortened : ℕ  -- BT_DATA_NAME_SHORTENED
  pub name_complete : ℕ  -- BT_DATA_NAME_COMPLETE
  pub adv_ind : ℕ  -- BT_GAP_ADV_TYPE_ADV_IND, and so on
  pub adv_direct_ind : ℕ
  pub scan_rsp : ℕ
  pub ext_adv : ℕ
  pub addr_equal : Address → Address → Bool  -- bt_addr_le_cmp(a, b) == 0
  pub addr_to_str : List ℕ → Text  -- bt_addr_to_str
  pub addr_from_str : Text → Option (List ℕ)  -- bt_addr_from_str, `none` for an error
  pub scan_start : K → K × Rc  -- bt_le_scan_start(BT_LE_SCAN_ACTIVE, device_found)
  pub scan_stop : K → K × Rc  -- bt_le_scan_stop
  pub schedule_scan_stop : ℕ → K → K  -- k_work_schedule(&scan_stop_work), in seconds
  pub cancel_scan_stop : K → K  -- k_work_cancel_delayable(&scan_stop_work)

abbrev pub is_scanning : AppState → Bool
is_scanning scanning = true
is_scanning _ = false

-- What memset to 0 leaves of an entry.
abbrev pub no_device : ScannedDevice
no_device = record {
  valid = false;
  index = 0;
  addr = record { type = 0; val = 0 ∷ 0 ∷ 0 ∷ 0 ∷ 0 ∷ 0 ∷ [] };
  mac = [];
  name = [];
  rssi = 0;
}

abbrev pub copies : {A : Type 0} → ℕ → A → List A
copies zero x = []
copies (suc n) x = x ∷ copies n x

-- A write through the pointer to the `n`-th element.
abbrev pub update_at : {A : Type 0} → ℕ → (A → A) → List A → List A
update_at n f [] = []
update_at zero f (x ∷ xs) = f x ∷ xs
update_at (suc n) f (x ∷ xs) = x ∷ update_at n f xs

-- The first element that passes a test, as its position.
abbrev pub find_index : {A : Type 0} → (A → Bool) → List A → Option ℕ
find_index p [] = none
find_index p (x ∷ xs) =
    if p x then some 0 else elim (find_index p xs) [ none ↦ none | some i ↦ some (suc i) ]

-- `clear_scan_cache`
unfoldable pub clear_scan_cache : {R : Type 0} → State R → State R
clear_scan_cache s = record s {
  scanned_devices = copies max_scanned no_device;
  next_scan_index = 0;
}

-- `matches_scan_filter`; a name of NULL is `none`.
unfoldable pub matches_scan_filter : Text → Option Text → Bool
unfolding equal
matches_scan_filter filter none = length filter == 0
matches_scan_filter filter (some name) =
    if length filter == 0
    then true
    else if ltb (length name) (length filter)
    then false
    else equal (take (length filter) name) (take (length filter) filter)

-- The value of a hexadecimal digit.
abbrev pub hex_value : ℕ → ℕ
hex_value c = if within b'0' b'9' c then c - b'0' else if within b'A' b'F' c then c - 55 else c - 87

-- `sscanf(text, "%2x", &value) == 1`, with the value: after white space at most two bytes of an
-- optional sign, an optional 0x and digits.
abbrev pub scan_pair : Text → Option ℕ
scan_pair [] = none
scan_pair (c ∷ []) = if isxdigit c then some (hex_value c) else none
scan_pair (c ∷ d ∷ _) =
    if c == b'+' && isxdigit d
    then some (hex_value d)
    else if c == b'-' && isxdigit d
    then some ((2 ^ 32 - hex_value d) % 2 ^ 32)
    else if isxdigit c && isxdigit d
    then some (16 * hex_value c + hex_value d)
    else if isxdigit c && not (c == b'0' && (d == b'x' || d == b'X'))
    then some (hex_value c)
    else none

unfoldable pub sscanf_2x : Text → Option ℕ
unfolding skip_space isxdigit
sscanf_2x text = scan_pair (skip_space text)

-- The loop of `parse_connect_mac` from the byte `i` on, for `n` bytes; what it has read goes in front
-- of `read`, as the bytes are filled from the last one down.
abbrev pub mac_loop : ℕ → Text → List ℕ → Option (List ℕ)
mac_loop zero text read = some read
mac_loop (suc n) text read = elim (sscanf_2x text) [
  | none ↦ none
  | some v ↦ mac_loop n (drop 2 text) (v % 256 ∷ read)
]

-- `text[0] == '0' && (text[1] == 'x' || text[1] == 'X')`
abbrev pub is_prefixed : Text → Bool
is_prefixed (a ∷ b ∷ _) = a == b'0' && (b == b'x' || b == b'X')
is_prefixed _ = false

module _ {K : Type 0} (radio : Radio K) where
  -- The loop of `parse_device_name` on what is left of the data, with fuel.
  unfoldable pub name_loop : ℕ → List ℕ → Text
  name_loop zero ad = []
  name_loop (suc fuel) [] = []
  name_loop (suc fuel) (field_len ∷ []) = []
  name_loop (suc fuel) (field_len ∷ field_type ∷ ad) =
      let value_len : ℕ = field_len - 1 in
      let rest = name_loop fuel (drop value_len ad) in
      if field_len == 0 || ltb (length ad + 1) field_len
      then []
      else if field_type == radio.name_complete || field_type == radio.name_shortened
      then until_nul (take (min value_len (name_size - 1)) ad)
      else rest

  -- `parse_device_name`: the text in `name`. Every round takes two bytes or more.
  unfoldable pub parse_device_name : List ℕ → Text
  unfolding name_loop
  parse_device_name ad = name_loop (length ad) ad

  -- `find_scan_entry`
  abbrev pub is_entry_of : Address → ScannedDevice → Bool
  is_entry_of addr d = d.valid && radio.addr_equal d.addr addr

  unfoldable pub find_scan_entry : Address → List ScannedDevice → Option ℕ
  find_scan_entry addr ds = find_index (is_entry_of addr) ds

  -- `parse_connect_mac`, whose pointers are not NULL at its one call
  unfoldable pub parse_connect_mac : Text → Option (List ℕ)
  unfolding sscanf_2x
  parse_connect_mac text =
      if length text == 14 && is_prefixed text
      then mac_loop 6 (drop 2 text) []
      else radio.addr_from_str text

module _ {R K : Type 0} (ring : Ring R) (kernel : Kernel K) (radio : Radio K) where
  -- `stop_scan_internal`
  unfoldable pub stop_scan_internal : Bool → State R → K → State R × K × Rc
  unfolding notify_scan_complete
  stop_scan_internal emit_complete s k =
      let (k', rc) = radio.scan_stop (radio.cancel_scan_stop k) in
      let stopped = record s {
        app_state = if is_connected s.current_conn then control_ready else idle;
      } in
      let (s2, k2) =
        if emit_complete
        then notify_scan_complete (output ring kernel) (stopped, k')
        else (stopped, k') in
      if not (is_scanning s.app_state)
      then (s, k, ok)
      else elim rc [ ok ↦ (s2, k2, ok) | err ealready ↦ (s2, k2, ok) | err e ↦ (s, k', err e) ]

  -- `scan_stop_work_handler`
  unfoldable pub scan_stop_work_handler : State R → K → State R × K
  unfolding stop_scan_internal
  scan_stop_work_handler s k = (let (s', k', _) = stop_scan_internal true s k in (s', k'))

  -- The entry of a new device.
  abbrev pub new_entry : ℕ → Address → Text → ℕ → ScannedDevice → ScannedDevice
  new_entry index addr name rssi _ = record {
    valid = true;
    index = index;
    addr = addr;
    mac = radio.addr_to_str addr.val;
    name = snprintk_s name_size name;
    rssi = rssi;
  }

  -- The part of `device_found` behind the search for the address.
  abbrev pub add_device : AddrTypes → Address → ℕ → Text → State R → K → State R × K
  add_device types addr rssi name s k = elim (find_index (λ d. not d.valid) s.scanned_devices) [
    | none ↦ (s, k)
    | some i ↦
        notify_scan_result (output ring kernel) s.next_scan_index (radio.addr_to_str addr.val)
          (some (snprintk_s name_size name)) (addr_type_to_wlt types addr.type) rssi
          (
            record s {
              scanned_devices =
                  update_at i (new_entry s.next_scan_index addr name rssi) s.scanned_devices;
              next_scan_index = (s.next_scan_index + 1) % 256;
            },
            k,
          )
  ]

  -- `device_found`; `rssi` is given as its 8 bits.
  unfoldable pub device_found : AddrTypes → Address → ℕ → ℕ → List ℕ → State R → K → State R × K
  unfolding parse_device_name matches_scan_filter find_scan_entry notify_scan_result
  device_found types addr rssi type ad s k =
      let name = parse_device_name radio ad in
      if not (is_scanning s.app_state)
      then (s, k)
      else if not (type == radio.adv_ind)
          && not (type == radio.adv_direct_ind)
          && not (type == radio.scan_rsp)
          && not (type == radio.ext_adv)
      then (s, k)
      else if not (matches_scan_filter s.scan_filter_name (some name))
      then (s, k)
      else elim (find_scan_entry radio addr s.scanned_devices) [
        | some i ↦ (
          record s {
            scanned_devices = update_at i (λ d. record d { rssi = rssi }) s.scanned_devices;
          },
          k,
        )
        | none ↦ add_device types addr rssi name s k
      ]
