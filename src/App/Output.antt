-- ===== src/App/Output.antt =====
-- The output side of main.c: what is queued for the computer, and the statistics of the rings.
use central_uart.Prelude.{ℕ, ◌+◌, ◌%◌, ◌^◌, some, List, ltb, ◌==◌, if◌then◌else◌, length}
use central_uart.Chars.{Text, ascii}
use central_uart.At.{Tx}
use central_uart.App.{Ring, Kernel, State}

-- `update_max_depth`
abbrev pub update_max_depth : ℕ → ℕ → ℕ
update_max_depth depth max_depth = if ltb max_depth depth then depth else max_depth

-- `stream_stats.usb_backpressure_count++`, a uint32_t
abbrev pub count_backpressure : {R : Type 0} → State R → State R
count_backpressure s = record s {
  stream_stats = record (s.stream_stats) {
    usb_backpressure_count = (s.stream_stats.usb_backpressure_count + 1) % 2 ^ 32;
  };
}

module _ {R W : Type 0} (ring : Ring R) (kernel : Kernel W) where
  -- `kick_uart_tx`
  unfoldable pub kick_uart_tx : State R → W → W
  kick_uart_tx s w = if s.control_dtr_ready then kernel.tx_enable w else w

  -- `queue_ctrl_bytes`; what does not fit is dropped.
  unfoldable pub queue_ctrl_bytes : List ℕ → State R → W → State R × W
  unfolding kick_uart_tx
  queue_ctrl_bytes bytes s w =
      if length bytes == 0
      then (s, w)
      else (record s { ctrl_tx_ring = (ring.put bytes s.ctrl_tx_ring).0 }, kick_uart_tx s w)

  -- `queue_ctrl_line`
  unfoldable pub queue_ctrl_line : Text → State R → W → State R × W
  unfolding queue_ctrl_bytes
  queue_ctrl_line text s w =
      let (s', w') = queue_ctrl_bytes text s w in queue_ctrl_bytes (ascii "\r\n") s' w'

  -- `update_max_depth` on the ring to the Bluetooth side
  abbrev pub note_host_depth : State R → State R
  note_host_depth s = record s {
    stream_stats = record (s.stream_stats) {
      max_host_to_ble_depth =
          update_max_depth (ring.size s.host_to_ble_ring) s.stream_stats.max_host_to_ble_depth;
    };
  }

  abbrev pub note_ble_depth : State R → State R
  note_ble_depth s = record s {
    stream_stats = record (s.stream_stats) {
      max_ble_to_host_depth =
          update_max_depth (ring.size s.ble_to_host_ring) s.stream_stats.max_ble_to_host_depth;
    };
  }

  -- `queue_data_bytes`
  unfoldable pub queue_data_bytes : List ℕ → State R → W → State R × W
  unfolding kick_uart_tx
  queue_data_bytes bytes s w =
      if length bytes == 0
      then (s, w)
      else (let (r, written) = ring.put bytes s.ble_to_host_ring in
          let put = record s { ble_to_host_ring = r } in
          let counted = if ltb written (length bytes) then count_backpressure put else put in
          (note_ble_depth counted, kick_uart_tx s w))

  -- `at_tx`: the output that the application registers with the AT host.
  abbrev pub at_tx : Tx (State R × W)
  at_tx = record {
    line = some (λ text (s, w). queue_ctrl_line text s w);
    raw = some (λ bytes (s, w). queue_ctrl_bytes bytes s w);
  }
