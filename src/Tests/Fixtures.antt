-- ===== src/Tests/Fixtures.antt =====
-- Concrete instances for the tests: an application and a Bluetooth stack that keep a log, and a flash
-- that keeps what is saved.
use central_uart.Prelude.{
  ℕ, ◌-◌, ◌≤◌, refl, min, true, Option, some, List, [], ◌∷◌, ◌++◌, arith, if◌then◌else◌, leb,
  length, take, length-append, length-take, length-drop, drop, ◌+◌, ◌≡◌, ◌<◌, take-length-take,
}
use central_uart.Chars.{Text, ascii, equal}
use central_uart.Errors.{Rc, ok, err, enomem}
use central_uart.AddrType.{AddrTypes}
use central_uart.Settings.{default_config, Storage}
use central_uart.At.{Host, Status, StreamStats}
use central_uart.Profile.{Gatt, Callbacks}
use central_uart.App.{Ring, RingLaws, Kernel}

abbrev pub Log : Type 0
Log = List Text

abbrev pub note : Text → Log → Log × Rc
note t log = (t ∷ log, ok)

abbrev pub status : Log → Status
status log = record {
  connected = true;
  ready = true;
  mac = ascii "C0:11:22:33:44:55";
  conn_count = 1;
  data_len = 256;
}

abbrev pub no_stats : Log → StreamStats
no_stats log = record {
  bytes_host_to_ble = 0;
  bytes_ble_to_host = 0;
  write_ops = 0;
  notify_ops = 0;
  usb_backpressure_count = 0;
  max_host_to_ble_depth = 0;
  max_ble_to_host_depth = 0;
  enter_data_mode_count = 0;
  unexpected_disconnect_count = 0;
}

abbrev pub host : Host Log
host = record {
  ops = record {
    start_scan = λ seconds name. note (ascii "scan");
    connect = λ mac type. note mac;
    disconnect = λ index. note (ascii "disconnect");
    send_payload = λ index bytes. note bytes;
    get_status = status;
    get_profile = λ log. default_config.active_profile;
    set_profile = λ service notify write. note service;
    set_mtu = λ mtu. note (ascii "mtu");
    get_mtu = λ log. 259;
    request_mtu = λ index. note (ascii "request mtu");
    set_conn_params = λ index lo hi latency timeout. note (ascii "conn params");
    enter_data_mode = some (λ index. note (ascii "data mode"));
    get_stream_stats = some no_stats;
  };
  tx =
      some (record { line = some (λ text log. text ∷ log); raw = some (λ bytes log. bytes ∷ log) });
}

-- A stack whose UUIDs are texts and whose connections have an MTU of 247.
abbrev pub gatt : Gatt Text Log
gatt = record {
  discover_primary = 0;
  discover_characteristic = 3;
  first_handle = 1;
  last_handle = 0xffff;
  auto_ccc = 0;
  ccc_notify = 1;
  write_without_resp = 4;
  write_with_resp = 8;
  data_len_enabled = true;
  phy_enabled = true;
  uuid_to_str = λ u. u;
  get_mtu = λ conn log. 247;
  discover = λ conn params. note (ascii "discover");
  subscribe = λ conn params. note (ascii "subscribe");
  unsubscribe = λ conn params. note (ascii "unsubscribe");
  exchange_mtu = λ conn. note (ascii "exchange");
  send_command = λ conn handle bytes. note bytes;
  send_request = λ conn params bytes. note bytes;
  data_len_update = λ conn. note (ascii "data length");
  phy_update = λ conn. note (ascii "phy");
}

abbrev pub callbacks : Option (Callbacks Log)
callbacks = some (record {
  ready = some (λ log. ascii "ready" ∷ log);
  payload_received = some (λ bytes log. bytes ∷ log);
  mtu_updated = some (λ n log. ascii "mtu updated" ∷ log);
  error = some (λ e log. ascii "error" ∷ log);
})

-- A flash with room for `n` more values.
abbrev pub flash : Storage ℕ
flash = record {
  name_steq = equal;
  save_one = λ name value room. if leb 1 room then (room, ok) else (room, err enomem);
  subsys_init = λ room. (room, ok);
  load_subtree = λ name room. ([], ok);
}

abbrev pub addr_types : AddrTypes
addr_types = record { public = 0; random = 1; public_id = 2; random_id = 3 }

-- A ring of 16384 bytes, which is HOST_TO_BLE_RING_SIZE, as the list of its bytes and the number of
-- those that are claimed.
abbrev pub ring_capacity : ℕ
ring_capacity = 16384

abbrev pub ListRing : Type 0
ListRing =
    (bytes : List ℕ) × (length bytes ≤ ring_capacity) × (claimed : ℕ) × (claimed ≤ length bytes)

abbrev fitting : List ℕ → List ℕ → ℕ
fitting bytes r = min (length bytes) (ring_capacity - length r)

pub fitting_fits :
    (bytes r : List ℕ)
    → length r ≤ ring_capacity
    → length (r ++ take (fitting bytes r) bytes) ≤ ring_capacity
fitting_fits bytes r fits =
    omega
      (arith, length-append r (take (fitting bytes r) bytes), length-take (fitting bytes r) bytes)

pub fitting_open :
    (bytes r : List ℕ) (claimed : ℕ)
    → claimed ≤ length r
    → claimed ≤ length (r ++ take (fitting bytes r) bytes)
fitting_open bytes r claimed opened = omega (arith, length-append r (take (fitting bytes r) bytes))

abbrev list_put : List ℕ → ListRing → ListRing × ℕ
list_put bytes (r, fits, claimed, opened) = (
  (
    r ++ take (fitting bytes r) bytes,
    fitting_fits bytes r fits,
    claimed,
    fitting_open bytes r claimed opened,
  ),
  fitting bytes r,
)

pub claim_open :
    (n claimed : ℕ) (r : List ℕ)
    → claimed ≤ length r
    → claimed + length (take n (drop claimed r)) ≤ length r
claim_open n claimed r opened = omega (arith, length-take n (drop claimed r), length-drop claimed r)

abbrev list_claim : ℕ → ListRing → ListRing × List ℕ
list_claim n (r, fits, claimed, opened) = (
  (r, fits, claimed + length (take n (drop claimed r)), claim_open n claimed r opened),
  take n (drop claimed r),
)

pub drop_fits : (n : ℕ) (r : List ℕ) → length r ≤ ring_capacity → length (drop n r) ≤ ring_capacity
drop_fits n r fits = omega (arith, length-drop n r)

abbrev list_finish : ℕ → ListRing → ListRing
list_finish n (r, fits, claimed, opened) =
    if leb n claimed
    then (drop n r, drop_fits n r fits, 0, omega arith)
    else (r, fits, claimed, opened)

abbrev pub list_ring : Ring ListRing
list_ring = record {
  put = list_put;
  size = λ r. length r.0 - r.2;
  space = λ r. ring_capacity - length r.0;
  reset = λ r. ([], omega arith, 0, omega arith);
  claim = list_claim;
  finish = list_finish;
}

abbrev contents_of : ListRing → List ℕ
contents_of (r, fits, claimed, opened) = r

pub list_size-contents : (r : ListRing) → list_ring.size r + r.2 ≡ length r.0
list_size-contents r = (let opened = r.3 in omega arith)

pub list_claim-bytes :
    (n : ℕ) (r : ListRing)
    → take n (drop r.2 r.0) ≡ take (length (take n (drop r.2 r.0))) (drop r.2 r.0)
list_claim-bytes n r = take-length-take n (drop r.2 r.0)

pub list_claim-some :
    (n : ℕ) (r : ListRing) → 0 < n → r.2 < length r.0 → 0 < length (take n (drop r.2 r.0))
list_claim-some n r p q = omega (arith, length-take n (drop r.2 r.0), length-drop r.2 r.0)

pub list_finish-contents :
    (n : ℕ) (r : ListRing) → n ≤ r.2 → contents_of (list_finish n r) ≡ drop n r.0
list_finish-contents n (r, fits, claimed, opened) h = ground arith

pub list_finish-claimed : (n : ℕ) (r : ListRing) → n ≤ r.2 → (list_finish n r).2 ≡ 0
list_finish-claimed n (r, fits, claimed, opened) h = ground arith

abbrev pub list_ring-RingLaws : RingLaws list_ring ring_capacity
list_ring-RingLaws = record {
  contents = λ r. r.0;
  claimed = λ r. r.2;
  capacity-le = omega arith;
  space-contents = λ r. (let fits = r.1 in omega arith);
  size-contents = list_size-contents;
  put-written = λ bytes r. refl;
  put-contents = λ bytes r. refl;
  put-claimed = λ bytes r. refl;
  reset-contents = λ r. refl;
  reset-claimed = λ r. refl;
  claim-bytes = list_claim-bytes;
  claim-le = λ n r. omega (arith, length-take n (drop r.2 r.0));
  claim-some = list_claim-some;
  claim-contents = λ n r. refl;
  claim-claimed = λ n r. refl;
  finish-contents = list_finish-contents;
  finish-claimed = list_finish-claimed;
}

-- A clock that stands at 5000 ms.
abbrev pub kernel : Kernel Log
kernel = record {
  uptime = λ log. (log, 5000);
  uart_ready = λ log. true;
  tx_enable = λ log. log;
  tx_disable = λ log. log;
  rx_enable = λ log. log;
  rx_disable = λ log. log;
  submit_write = λ log. ascii "write" ∷ log;
  cancel_retry = λ log. log;
  cancel_coalesce = λ log. log;
  cancel_guard = λ log. log;
  reschedule_retry = λ ms log. log;
  reschedule_coalesce = λ ms log. log;
  reschedule_guard = λ ms log. log;
}
