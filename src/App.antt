-- ===== src/App.antt =====
-- apps/nrf52840_ble_at_host/src/main.c, the application: its state, and what it calls in Zephyr.
pub mod Output
pub mod Escape
pub mod Transparent
pub mod Guard
pub mod Receiver
pub mod Callbacks
pub mod Pump
pub mod Link
pub mod Calm
pub mod Channel
pub mod Scan
pub mod System
pub mod Uart
use central_uart.Prelude.{
  ℕ, ◌≡◌, ◌+◌, Bool, Option, List, [], ◌++◌, ◌≤◌, ◌<◌, min, length, take, drop,
}
use central_uart.Chars.{Text}
use central_uart.At.{StreamStats}

-- `enum app_state`
pub data AppState : Type 0 where
  idle scanning connecting control_ready data_mode disconnecting : AppState

-- `struct data_mode_escape_state`
pub record EscapeState : Type 0 where
  pub active : Bool
  pub count : ℕ

-- The ring buffers of <zephyr/sys/ring_buffer.h>. `put` is `ring_buf_put`, with the number of bytes
-- that it wrote; `claim` is `ring_buf_get_claim` of at most so many bytes, with the bytes that it
-- points to, and `finish` is `ring_buf_get_finish`.
pub record Ring (R : Type 0) : Type 0 where
  pub put : List ℕ → R → R × ℕ
  pub size : R → ℕ
  pub space : R → ℕ
  pub reset : R → R
  pub claim : ℕ → R → R × List ℕ
  pub finish : ℕ → R → R

-- HOST_TO_BLE_RING_SIZE, the capacity of the largest rings.
abbrev pub host_ring_size : ℕ
host_ring_size = 16384

-- What is documented of them: a queue of bytes with a fixed capacity, where `ring_buf_put` copies as
-- much as there is space for. `claimed` is what has been claimed and not finished: it still takes up
-- space, is no longer counted by `ring_buf_size_get`, and the next claim begins behind it, while
-- `ring_buf_get_finish` frees bytes from the front and takes back the rest of what was claimed.
pub record RingLaws {R : Type 0} (ring : Ring R) (capacity : ℕ) : Type 0 where
  pub contents : R → List ℕ
  pub claimed : R → ℕ
  pub capacity-le : capacity ≤ host_ring_size
  pub space-contents : (r : R) → ring.space r + length (contents r) ≡ capacity
  pub size-contents : (r : R) → ring.size r + claimed r ≡ length (contents r)
  pub put-written :
      (bytes : List ℕ) (r : R) → (ring.put bytes r).1 ≡ min (length bytes) (ring.space r)
  pub put-contents :
      (bytes : List ℕ) (r : R)
      → contents (ring.put bytes r).0 ≡ contents r ++ take (min (length bytes) (ring.space r)) bytes
  pub put-claimed : (bytes : List ℕ) (r : R) → claimed (ring.put bytes r).0 ≡ claimed r
  pub reset-contents : (r : R) → contents (ring.reset r) ≡ []
  pub reset-claimed : (r : R) → claimed (ring.reset r) ≡ 0
  pub claim-bytes :
      (n : ℕ) (r : R)
      → (ring.claim n r).1 ≡ take (length (ring.claim n r).1) (drop (claimed r) (contents r))
  pub claim-le : (n : ℕ) (r : R) → length (ring.claim n r).1 ≤ n
  pub claim-some :
      (n : ℕ) (r : R) → 0 < n → claimed r < length (contents r) → 0 < length (ring.claim n r).1
  pub claim-contents : (n : ℕ) (r : R) → contents (ring.claim n r).0 ≡ contents r
  pub claim-claimed :
      (n : ℕ) (r : R) → claimed (ring.claim n r).0 ≡ claimed r + length (ring.claim n r).1
  pub finish-contents :
      (n : ℕ) (r : R) → n ≤ claimed r → contents (ring.finish n r) ≡ drop n (contents r)
  pub finish-claimed : (n : ℕ) (r : R) → n ≤ claimed r → claimed (ring.finish n r) ≡ 0

-- The kernel, the UART driver and the work queue: the clock in milliseconds and calls whose results
-- the source drops.
pub record Kernel (W : Type 0) : Type 0 where
  pub uptime : W → W × ℕ  -- k_uptime_get
  pub uart_ready : W → Bool  -- device_is_ready(control_uart)
  pub tx_enable : W → W  -- uart_irq_tx_enable
  pub tx_disable : W → W  -- uart_irq_tx_disable
  pub rx_enable : W → W  -- uart_irq_rx_enable
  pub rx_disable : W → W  -- uart_irq_rx_disable
  pub submit_write : W → W  -- k_work_submit(&ble_write_work)
  pub cancel_retry : W → W  -- k_work_cancel_delayable(&ble_write_retry_work)
  pub cancel_coalesce : W → W  -- k_work_cancel_delayable(&ble_write_coalesce_work)
  pub cancel_guard : W → W  -- k_work_cancel_delayable(&escape_guard_work)
  pub reschedule_retry : ℕ → W → W  -- k_work_reschedule, in milliseconds
  pub reschedule_coalesce : ℕ → W → W  -- the same for ble_write_coalesce_work
  pub reschedule_guard : ℕ → W → W  -- the same for escape_guard_work

-- `bt_addr_le_t`: the six bytes of the address, the least significant first.
pub record Address : Type 0 where
  pub type : ℕ
  pub val : List ℕ

-- `struct scanned_device_entry`; `rssi` is given as its 8 bits.
pub record ScannedDevice : Type 0 where
  pub valid : Bool
  pub index : ℕ
  pub addr : Address
  pub mac : Text
  pub name : Text
  pub rssi : ℕ

-- The static variables of main.c; a connection is known by a number.
pub record State (R : Type 0) : Type 0 where
  pub app_state : AppState
  pub current_conn : Option ℕ
  pub host_to_ble_ring : R
  pub ble_to_host_ring : R
  pub ctrl_tx_ring : R
  pub stream_stats : StreamStats
  pub control_dtr_ready : Bool
  pub control_rx_paused : Bool
  pub data_mode_pending_enter : Bool
  pub data_mode_tx_flush_due : Bool
  pub escape_state : EscapeState
  pub last_host_rx_time_ms : ℕ
  pub scanned_devices : List ScannedDevice
  pub next_scan_index : ℕ
  pub scan_filter_name : Text
