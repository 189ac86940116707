-- ===== src/At/Frame.antt =====
-- What the application keeps, the AT host keeps: it touches the application only through what is
-- registered.
use central_uart.Prelude.{
  ℕ, ◌≡◌, Bool, false, not, ◌&&◌, Option, none, some, List, [], ◌∷◌, ltb, ◌==◌, if_both, length,
  Option-cases, inl, inr, ◌++◌,
}
use central_uart.Chars.{Text}
use central_uart.Errors.{Rc, ok, err}
use central_uart.At.{Host, State, ErrorKind, invalid_command, invalid_parameters, function_error}
use central_uart.At.Scan.{parse_uint16_value}
use central_uart.At.Reply.{
  tx_line, tx_raw, emit_error, emit_error_from_errno, kind_of, reply, handle_get_status,
  handle_get_profile, handle_get_mtu, handle_get_stream_stats,
}
use central_uart.At.Actions.{
  parse_up_to, send_numbers, parse_all, filter_name, command_start_scan, command_connect,
  command_disconnect, command_send, command_set_profile, command_set_mtu, command_request_mtu,
  command_conn_params, command_enter_data_mode, conn_params_of, entered,
}
use central_uart.At.Command.{Action, select_all, commands, process_command}
use central_uart.At.Receive.{
  is_line_end, process_send_payload, payload_byte, end_line, rx_byte, rx_loop, rx_bytes,
}

-- Every operation and both outputs keep `P`.
pub record IsKept {W : Type 0} (P : W → Type 0) (h : Host W) : Type 0 where
  pub line : (text : Text) (w : W) → P w → P (tx_line h.tx text w)
  pub raw : (bytes : List ℕ) (w : W) → P w → P (tx_raw h.tx bytes w)
  pub start_scan : (n : ℕ) (name : Option Text) (w : W) → P w → P (h.ops.start_scan n name w).0
  pub connect : (mac : Text) (type : ℕ) (w : W) → P w → P (h.ops.connect mac type w).0
  pub disconnect : (index : ℕ) (w : W) → P w → P (h.ops.disconnect index w).0
  pub send_payload :
      (index : ℕ) (bytes : List ℕ) (w : W) → P w → P (h.ops.send_payload index bytes w).0
  pub set_profile : (a b c : Text) (w : W) → P w → P (h.ops.set_profile a b c w).0
  pub set_mtu : (mtu : ℕ) (w : W) → P w → P (h.ops.set_mtu mtu w).0
  pub request_mtu : (index : ℕ) (w : W) → P w → P (h.ops.request_mtu index w).0
  pub set_conn_params :
      (index lo hi latency timeout : ℕ) (w : W)
      → P w
      → P (h.ops.set_conn_params index lo hi latency timeout w).0
  pub enter_data_mode :
      (enter : ℕ → W → W × Rc)
      → h.ops.enter_data_mode ≡ some enter
      → (index : ℕ) (w : W) → P w
      → P (enter index w).0

module _ {W : Type 0} (P : W → Type 0) (h : Host W) (kept : IsKept P h) where
  error-IsKept : (kind : ErrorKind) (w : W) → P w → P (emit_error h.tx kind w)
  unfolding emit_error
  error-IsKept invalid_command w v = kept.line _ w v
  error-IsKept invalid_parameters w v = kept.line _ w v
  error-IsKept function_error w v = kept.line _ w v

  reply-IsKept : (x : W × Rc) → P x.0 → P (reply h.tx x)
  unfolding reply emit_error_from_errno
  reply-IsKept (w, ok) v = kept.line _ w v
  reply-IsKept (w, err e) v = error-IsKept (kind_of h.tx e) w v

  entered-IsKept : (x : W × Rc) → P x.0 → P (entered h x)
  unfolding emit_error_from_errno
  entered-IsKept (w, ok) v = kept.line _ _ (kept.line _ w v)
  entered-IsKept (w, err e) v = error-IsKept (kind_of h.tx e) w v

  -- A command that needs an argument.
  argument-IsKept :
      {A : Type 0} (o : Option A) (w : W) (f : A → W)
      → P w
      → ((a : A) → P (f a))
      → P (elim o [ none ↦ emit_error h.tx invalid_parameters w | some a ↦ f a ])
  argument-IsKept none w f v each = error-IsKept invalid_parameters w v
  argument-IsKept (some a) w f v each = each a

  start_scan-IsKept : (args : List Text) (w : W) → P w → P (command_start_scan h args w)
  unfolding command_start_scan
  start_scan-IsKept [] w v = error-IsKept invalid_parameters w v
  start_scan-IsKept (seconds ∷ rest) w v = argument-IsKept (parse_uint16_value seconds) w _ v (λ n.
      if_both P (n == 0) _ _ (error-IsKept invalid_parameters w v)
        (reply-IsKept _ (kept.start_scan n (filter_name rest) w v)))

  connect-IsKept : (args : List Text) (w : W) → P w → P (command_connect h args w)
  unfolding command_connect
  connect-IsKept (mac ∷ type ∷ []) w v =
      argument-IsKept (parse_up_to 3 type) w _ v (λ t. reply-IsKept _ (kept.connect mac t w v))
  connect-IsKept _ w v = error-IsKept invalid_parameters w v

  disconnect-IsKept : (payload : Text) (w : W) → P w → P (command_disconnect h payload w)
  unfolding command_disconnect
  disconnect-IsKept payload w v =
      argument-IsKept (parse_up_to 255 payload) w _ v (λ i. reply-IsKept _ (kept.disconnect i w v))

  send-IsKept : (args : List Text) (s : State) (w : W) → P w → P (command_send h args s w).1
  unfolding command_send
  send-IsKept args s w v = elim (Option-cases (send_numbers args)) [
    | inl bad ↦ rw (bad, command_send) (error-IsKept invalid_parameters w v)
    | inr (n, good) ↦ rw (good, command_send) (kept.raw _ w v)
  ]

  set_profile-IsKept : (args : List Text) (w : W) → P w → P (command_set_profile h args w)
  unfolding command_set_profile
  set_profile-IsKept (a ∷ b ∷ c ∷ []) w v = reply-IsKept _ (kept.set_profile a b c w v)
  set_profile-IsKept _ w v = error-IsKept invalid_parameters w v

  set_mtu-IsKept : (payload : Text) (w : W) → P w → P (command_set_mtu h payload w)
  unfolding command_set_mtu
  set_mtu-IsKept payload w v =
      argument-IsKept (parse_uint16_value payload) w _ v (λ n. reply-IsKept _ (kept.set_mtu n w v))

  request_mtu-IsKept : (payload : Text) (w : W) → P w → P (command_request_mtu h payload w)
  unfolding command_request_mtu
  request_mtu-IsKept payload w v =
      argument-IsKept (parse_up_to 255 payload) w _ v (λ i. reply-IsKept _ (kept.request_mtu i w v))

  params_of-IsKept : (o : Option (List ℕ)) (w : W) → P w → P (conn_params_of h o w)
  params_of-IsKept (some (index ∷ lo ∷ hi ∷ latency ∷ timeout ∷ [])) w v =
      if_both P (ltb 255 index) _ _ (error-IsKept invalid_parameters w v)
        (reply-IsKept _ (kept.set_conn_params index lo hi latency timeout w v))
  params_of-IsKept _ w v = error-IsKept invalid_parameters w v

  conn_params-IsKept : (args : List Text) (w : W) → P w → P (command_conn_params h args w)
  unfolding command_conn_params
  conn_params-IsKept args w v = params_of-IsKept (parse_all args) w v

  enter-IsKept : (payload : Text) (w : W) → P w → P (command_enter_data_mode h payload w)
  unfolding command_enter_data_mode
  enter-IsKept payload w v = argument-IsKept (parse_up_to 255 payload) w _ v (λ i.
      elim (Option-cases h.ops.enter_data_mode) [
        | inl missing ↦ rw missing (error-IsKept invalid_parameters w v)
        | inr (enter, given) ↦
            rw given (entered-IsKept (enter i w) (kept.enter_data_mode enter given i w v))
      ])

  status-IsKept : (w : W) → P w → P (handle_get_status h w)
  unfolding handle_get_status
  status-IsKept w v =
      if_both P (not (h.ops.get_status w).connected) _ _ (kept.line _ w v)
        (kept.line _ _ (kept.line _ w v))

  stats-IsKept : (w : W) → P w → P (handle_get_stream_stats h w)
  unfolding handle_get_stream_stats
  stats-IsKept w v = elim (Option-cases h.ops.get_stream_stats) [
    | inl missing ↦ rw missing (error-IsKept function_error w v)
    | inr (get, given) ↦ rw given (kept.line _ w v)
  ]

  command-IsKept : (line : List ℕ) (s : State) (w : W) → P w → P (process_command h line s w).1
  unfolding process_command commands handle_get_profile handle_get_mtu
  command-IsKept line s =
      select_all (λ (f : Action h). (w : W) → P w → P (f w).1) _ _
        (
          λ w v. v,
          (
            kept.line _,
            (
              start_scan-IsKept _,
              (
                connect-IsKept _,
                (
                  disconnect-IsKept _,
                  (
                    send-IsKept _ s,
                    (
                      status-IsKept,
                      (
                        set_profile-IsKept _,
                        (
                          λ w v. kept.line _ w v,
                          (
                            set_mtu-IsKept _,
                            (
                              λ w v. kept.line _ w v,
                              (
                                request_mtu-IsKept _,
                                (
                                  conn_params-IsKept _,
                                  (
                                    enter-IsKept _,
                                    (stats-IsKept, (error-IsKept function_error, tt)),
                                  ),
                                ),
                              ),
                            ),
                          ),
                        ),
                      ),
                    ),
                  ),
                ),
              ),
            ),
          ),
        )
        (error-IsKept invalid_command)

  end_line-IsKept : (s : State) (w : W) → P w → P (end_line h s w).1
  unfolding end_line
  end_line-IsKept s w v =
      let Q : State × W × Bool → Type 0 = λ x. P x.1 in
      if_both Q (not s.line_overflow && ltb 0 (length s.line)) _ _ (command-IsKept s.line s w v)
        (if_both Q s.line_overflow _ _ (error-IsKept invalid_command w v) v)

  payload_byte-IsKept : (ch : ℕ) (s : State) (w : W) → P w → P (payload_byte h ch s w).1
  unfolding payload_byte process_send_payload
  payload_byte-IsKept ch s w v =
      if_both (λ (x : State × W). P x.1) (length (s.payload ++ ch ∷ []) == s.payload_expected) _ _
        (reply-IsKept _ (kept.send_payload _ _ w v)) v

  rx_byte-IsKept : (ch : ℕ) (x : Bool × State × W) → P (x.2) → P (rx_byte h ch x).2
  unfolding rx_byte
  rx_byte-IsKept ch (skip, s, w) v =
      let Q : Bool × State × W → Type 0 = λ x. P x.2 in
      if_both Q s.payload_mode _ _
        (if_both Q (skip && length s.payload == 0 && is_line_end ch) _ _ v
          (payload_byte-IsKept ch s w v))
        (if_both Q (is_line_end ch) _ _ (end_line-IsKept s w v) v)

  rx_loop-IsKept : (bytes : List ℕ) (x : Bool × State × W) → P (x.2) → P (rx_loop h bytes x).2
  unfolding rx_loop
  rx_loop-IsKept [] x v = v
  rx_loop-IsKept (ch ∷ rest) x v = rx_loop-IsKept rest (rx_byte h ch x) (rx_byte-IsKept ch x v)

  -- What every registered operation and both outputs keep, the host keeps on any received bytes.
  pub rx_bytes-IsKept : (bytes : List ℕ) (s : State) (w : W) → P w → P (rx_bytes h bytes s w).1
  unfolding rx_bytes
  rx_bytes-IsKept bytes s w v = rx_loop-IsKept bytes (false, s, w) v
