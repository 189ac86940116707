-- ===== src/Tests/AtWitnesses.antt =====
-- The theorems on at_host.c at concrete input.
use central_uart.Prelude.{
  ℕ, ◌-◌, ◌^◌, ◌≡◌, refl, true, false, ◌&&◌, some, List, [], ◌∷◌, ◌++◌, arith, take,
}
use central_uart.Chars.{Text, ascii, isspace, toupper, skip_space, trimmed_len}
use central_uart.At.{State}
use central_uart.At.Scan.{
  decimal, parse_uint16_value, split_args, equals_ignore_case, starts_with_ignore_case,
  trim_whitespace, cut_comma, strtoul, strtoul_signed, read_digits, accept_u16,
}
use central_uart.At.Command.{process_command, commands, select}
use central_uart.At.Actions.{command_send, send_numbers, parse_up_to}
use central_uart.At.Reply.{reply}
use central_uart.At.Receive.{initial, rx_bytes, rx_loop, rx_byte, line_byte, end_line, payload_byte}
use central_uart.At.Bounds.{IsValid, initial-IsValid, rx_bytes-IsValid}
use central_uart.At.Lines.{line_outcome, rx_bytes-line}
use central_uart.At.Payload.{rx_bytes-payload}
use central_uart.At.Chunks.{begins_with_line_end, rx_bytes-append, rx_bytes_cut_line_end}
use central_uart.At.Numbers.{parse_uint16_value-decimal, parse_uint16_value_negative}
use central_uart.At.Arguments.{join, split_args-join}
use central_uart.Tests.Fixtures.{host}

abbrev asking : List ℕ
asking = ascii "AT+CONMTU?"

abbrev waiting : State
waiting = record {
  line = [];
  line_overflow = false;
  payload_mode = true;
  payload = [];
  payload_expected = 3;
  payload_conn_index = 0;
}

rx_bytes-IsValid_example : IsValid (rx_bytes host (asking ++ b'\r' ∷ b'\n' ∷ []) initial []).0
rx_bytes-IsValid_example =
    rx_bytes-IsValid host (asking ++ b'\r' ∷ b'\n' ∷ []) initial [] initial-IsValid

rx_bytes-line_example :
    rx_bytes host (asking ++ b'\r' ∷ []) initial [] ≡ line_outcome host asking initial []
rx_bytes-line_example =
    rx_bytes-line host asking b'\r' initial [] refl refl (omega arith) refl refl refl

rx_bytes-payload_example : rx_bytes host (ascii "abc") waiting [] ≡ (
  record waiting { payload_mode = false; payload_expected = 0; payload = [] },
  reply host.tx (host.ops.send_payload 0 (ascii "abc") []),
)
rx_bytes-payload_example =
    rx_bytes-payload host (ascii "abc") waiting [] refl refl refl (omega arith)

apart :
    ((rx_loop host (ascii "ab") (false, waiting, [])).0 && begins_with_line_end (ascii "c")) ≡ false
unfolding rx_loop rx_byte payload_byte
apart = refl

rx_bytes-append_example :
    rx_bytes host (ascii "ab" ++ ascii "c") waiting []
    ≡ (let (s', w') = rx_bytes host (ascii "ab") waiting [] in rx_bytes host (ascii "c") s' w')
rx_bytes-append_example = rx_bytes-append host (ascii "ab") (ascii "c") waiting [] apart

-- An accepted AT+SEND with the first half of its line end.
abbrev send_line : List ℕ
send_line = ascii "AT+SEND=0,3" ++ b'\r' ∷ []

send_line-skips : (rx_loop host send_line (false, initial, [])).0 ≡ true
unfolding rx_loop rx_byte line_byte end_line process_command commands select equals_ignore_case
    starts_with_ignore_case trim_whitespace skip_space trimmed_len isspace toupper split_args
    cut_comma command_send send_numbers parse_up_to parse_uint16_value strtoul strtoul_signed
    read_digits accept_u16
send_line-skips = refl

send_line-payload : (rx_bytes host send_line initial []).0.payload ≡ []
unfolding rx_bytes rx_loop rx_byte line_byte end_line process_command commands select
    equals_ignore_case starts_with_ignore_case trim_whitespace skip_space trimmed_len isspace
    toupper split_args cut_comma command_send send_numbers parse_up_to parse_uint16_value strtoul
    strtoul_signed read_digits accept_u16
send_line-payload = refl

send_line-expects : (rx_bytes host send_line initial []).0.payload_expected ≡ 3
unfolding rx_bytes rx_loop rx_byte line_byte end_line process_command commands select
    equals_ignore_case starts_with_ignore_case trim_whitespace skip_space trimmed_len isspace
    toupper split_args cut_comma command_send send_numbers parse_up_to parse_uint16_value strtoul
    strtoul_signed read_digits accept_u16
send_line-expects = refl

rx_bytes_cut_line_end_example :
    (rx_bytes host (send_line ++ b'\n' ∷ []) initial [] ≡ rx_bytes host send_line initial [])
    × (rx_bytes host
          (b'\n' ∷ [])
          (rx_bytes host send_line initial []).0
          (rx_bytes host send_line initial []).1
        ≡ (
          record ((rx_bytes host send_line initial []).0) { payload = b'\n' ∷ [] },
          (rx_bytes host send_line initial []).1,
        ))
rx_bytes_cut_line_end_example =
    rx_bytes_cut_line_end host send_line b'\n' initial [] refl send_line-skips send_line-payload
      (omega (arith, send_line-expects))

parse_uint16_value-decimal_example : parse_uint16_value (decimal 259) ≡ some 259
parse_uint16_value-decimal_example = parse_uint16_value-decimal 259 (omega arith)

parse_uint16_value_negative_example :
    parse_uint16_value (b'-' ∷ decimal 4294967295) ≡ some (2 ^ 32 - 4294967295)
parse_uint16_value_negative_example =
    parse_uint16_value_negative 4294967295 (omega arith) (omega arith)

abbrev words : List Text
words = ascii "0" ∷ ascii "6" ∷ ascii "9" ∷ ascii "0" ∷ ascii "400" ∷ ascii "7" ∷ []

split_args-join_example : split_args 5 (join words) ≡ take 5 words
split_args-join_example =
    split_args-join 5 words (refl, (refl, (refl, (refl, (refl, (refl, omega arith))))))
