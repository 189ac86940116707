-- ===== src/At/Receive.antt =====
-- `at_host_init` and `at_host_rx_bytes` of at_host.c: lines, their overflow, and the payload behind
-- an accepted AT+SEND.
use central_uart.Prelude.{
  ℕ, ◌-◌, Bool, true, false, not, ◌&&◌, ◌||◌, List, [], ◌∷◌, ◌++◌, leb, ltb, ◌==◌, if◌then◌else◌,
  length,
}
use central_uart.At.{Host, State, invalid_command, CommandResult, nothing, enter_payload}
use central_uart.At.Reply.{emit_error, reply}
use central_uart.At.Command.{process_command}

-- sizeof(line_buffer)
abbrev pub line_size : ℕ
line_size = 160

-- `at_host_init`: the zeroed state.
abbrev pub initial : State
initial = record {
  line = [];
  line_overflow = false;
  payload_mode = false;
  payload = [];
  payload_expected = 0;
  payload_conn_index = 0;
}

abbrev pub is_line_end : ℕ → Bool
is_line_end ch = ch == b'\r' || ch == b'\n'

abbrev pub is_enter : CommandResult → Bool
is_enter enter_payload = true
is_enter nothing = false

-- Any other byte outside payload mode.
unfoldable pub line_byte : ℕ → State → State
line_byte ch s =
    if leb (line_size - 1) (length s.line)
    then record s { line_overflow = true }
    else record s { line = s.line ++ ch ∷ [] }

module _ {W : Type 0} (h : Host W) where
  -- `process_send_payload`; the whole expected length has been received.
  unfoldable pub process_send_payload : State → W → State × W
  process_send_payload s w = (
    record s { payload_mode = false; payload_expected = 0; payload = [] },
    reply h.tx (h.ops.send_payload s.payload_conn_index s.payload w),
  )

  -- A byte in payload mode that is not skipped.
  unfoldable pub payload_byte : ℕ → State → W → State × W
  payload_byte ch s w =
      let s' = record s { payload = s.payload ++ ch ∷ [] } in
      if length s'.payload == s'.payload_expected then process_send_payload s' w else (s', w)

  -- A line end outside payload mode: the new state, and whether a payload begins.
  unfoldable pub end_line : State → W → State × W × Bool
  end_line s w =
      let clear : State → State = λ t. record t { line = []; line_overflow = false } in
      if not s.line_overflow && ltb 0 (length s.line)
      then (let (s', w', result) = process_command h s.line s w in (clear s', w', is_enter result))
      else if s.line_overflow
      then (clear s, emit_error h.tx invalid_command w, false)
      else (clear s, w, false)

  -- One round of the loop. `skip` is the local `skip_payload_line_ending`. It is left as it is
  -- outside payload mode, but for a line that is processed.
  unfoldable pub rx_byte : ℕ → Bool × State × W → Bool × State × W
  rx_byte ch (skip, s, w) =
      if s.payload_mode
      then (if skip && length s.payload == 0 && is_line_end ch
          then (skip, s, w)
          else (let (s', w') = payload_byte ch s w in (false, s', w')))
      else if is_line_end ch
      then (let (s', w', enter) = end_line s w in
          (if not s.line_overflow && ltb 0 (length s.line) then enter else skip, s', w'))
      else (skip, line_byte ch s, w)

  unfoldable pub rx_loop : List ℕ → Bool × State × W → Bool × State × W
  rx_loop [] x = x
  rx_loop (ch ∷ rest) x = rx_loop rest (rx_byte ch x)

  -- `at_host_rx_bytes`: each call begins with `skip_payload_line_ending = false`.
  unfoldable pub rx_bytes : List ℕ → State → W → State × W
  rx_bytes bytes s w = let (skip, s', w') = rx_loop bytes (false, s, w) in (s', w')
