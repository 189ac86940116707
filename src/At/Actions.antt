-- ===== src/At/Actions.antt =====
-- The commands of at_host.c that take arguments, one function for each: the branches of
-- `process_command`. `payload` is the text behind the '='.
use central_uart.Prelude.{ℕ, true, Option, none, some, List, [], ◌∷◌, ltb, ◌==◌, if◌then◌else◌}
use central_uart.Chars.{Text, ascii}
use central_uart.Errors.{Rc, ok, err}
use central_uart.At.{Host, State, invalid_parameters, CommandResult, nothing, enter_payload}
use central_uart.At.Scan.{parse_uint16_value}
use central_uart.At.Reply.{tx_line, tx_raw, emit_error, emit_error_from_errno, reply}
use central_uart.Profile.{send_max_len}

-- `arg[0] != '\0' ? arg : NULL`
abbrev pub non_empty : Text → Option Text
non_empty [] = none
non_empty (c ∷ cs) = some (c ∷ cs)

-- `if (!parse_uint16_value(text, &v) || v > max)`: the value if it passes.
unfoldable pub parse_up_to : ℕ → Text → Option ℕ
parse_up_to max text = elim (parse_uint16_value text) [
  | none ↦ none
  | some v ↦ if ltb max v then none else some v
]

-- The scan filter: the second argument, where there is one that is not empty.
abbrev pub filter_name : List Text → Option Text
filter_name [] = none
filter_name (name ∷ _) = non_empty name

-- The two numbers of AT+SEND: a connection index and a length.
unfoldable pub send_numbers : List Text → Option (ℕ × ℕ)
send_numbers (index ∷ len ∷ []) = elim (parse_up_to 255 index) [
  | none ↦ none
  | some i ↦ elim (parse_up_to send_max_len len) [
    | none ↦ none
    | some n ↦ if n == 0 then none else some (i, n)
  ]
]
send_numbers _ = none

-- The numbers of AT+CONPARAREQ, if all of them parse.
unfoldable pub parse_all : List Text → Option (List ℕ)
parse_all [] = some []
parse_all (a ∷ as') = elim (parse_uint16_value a) [
  | none ↦ none
  | some v ↦ elim (parse_all as') [ none ↦ none | some vs ↦ some (v ∷ vs) ]
]

module _ {W : Type 0} (h : Host W) where
  abbrev pub bad_parameters : W → W
  bad_parameters = emit_error h.tx invalid_parameters

  unfoldable pub command_start_scan : List Text → W → W
  command_start_scan [] w = bad_parameters w
  command_start_scan (seconds ∷ rest) w = elim (parse_uint16_value seconds) [
    | none ↦ bad_parameters w
    | some duration ↦
        if duration == 0
        then bad_parameters w
        else reply h.tx (h.ops.start_scan duration (filter_name rest) w)
  ]

  unfoldable pub command_connect : List Text → W → W
  command_connect (mac ∷ type ∷ []) w = elim (parse_up_to 3 type) [
    | none ↦ bad_parameters w
    | some addr_type ↦ reply h.tx (h.ops.connect mac addr_type w)
  ]
  command_connect _ w = bad_parameters w

  unfoldable pub command_disconnect : Text → W → W
  command_disconnect payload w = elim (parse_up_to 255 payload) [
    | none ↦ bad_parameters w
    | some index ↦ reply h.tx (h.ops.disconnect index w)
  ]

  unfoldable pub command_send : List Text → State → W → State × W × CommandResult
  command_send args s w = elim (send_numbers args) [
    | none ↦ (s, bad_parameters w, nothing)
    | some (index, len) ↦ (
      record s {
        payload_mode = true;
        payload_expected = len;
        payload = [];
        payload_conn_index = index;
      },
      tx_raw h.tx (ascii ">") w,
      enter_payload,
    )
  ]

  unfoldable pub command_set_profile : List Text → W → W
  command_set_profile (service ∷ notify ∷ write ∷ []) w =
      reply h.tx (h.ops.set_profile service notify write w)
  command_set_profile _ w = bad_parameters w

  unfoldable pub command_set_mtu : Text → W → W
  command_set_mtu payload w = elim (parse_uint16_value payload) [
    | none ↦ bad_parameters w
    | some mtu ↦ reply h.tx (h.ops.set_mtu mtu w)
  ]

  unfoldable pub command_request_mtu : Text → W → W
  command_request_mtu payload w = elim (parse_up_to 255 payload) [
    | none ↦ bad_parameters w
    | some index ↦ reply h.tx (h.ops.request_mtu index w)
  ]

  abbrev pub conn_params_of : Option (List ℕ) → W → W
  conn_params_of (some (index ∷ lo ∷ hi ∷ latency ∷ timeout ∷ [])) w =
      if ltb 255 index
      then bad_parameters w
      else reply h.tx (h.ops.set_conn_params index lo hi latency timeout w)
  conn_params_of _ w = bad_parameters w

  unfoldable pub command_conn_params : List Text → W → W
  command_conn_params args w = conn_params_of (parse_all args) w

  -- The reply to AT+ENTERDATAMODE: one more line on success.
  abbrev pub entered : W × Rc → W
  entered (w, ok) = tx_line h.tx (ascii "+IND=DATAMODE,1") (tx_line h.tx (ascii "+OK") w)
  entered (w, err e) = emit_error_from_errno h.tx e w

  unfoldable pub command_enter_data_mode : Text → W → W
  command_enter_data_mode payload w = elim (parse_up_to 255 payload) [
    | none ↦ bad_parameters w
    | some index ↦ elim h.ops.enter_data_mode [
      | none ↦ bad_parameters w
      | some enter ↦ entered (enter index w)
    ]
  ]
