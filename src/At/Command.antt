-- ===== src/At/Command.antt =====
-- `process_command` of at_host.c: the chain of tests that picks the command.
use central_uart.Prelude.{ℕ, Bool, List, [], ◌∷◌, ◌==◌, if◌then◌else◌, if_both, length, drop}
use central_uart.Chars.{Text, ascii, until_nul, snprintk_s}
use central_uart.At.{Host, State, invalid_command, function_error, CommandResult, nothing}
use central_uart.At.Scan.{equals_ignore_case, starts_with_ignore_case, trim_whitespace, split_args}
use central_uart.At.Reply.{
  tx_line, emit_error, handle_get_status, handle_get_profile, handle_get_mtu,
  handle_get_stream_stats,
}
use central_uart.At.Actions.{
  command_start_scan, command_connect, command_disconnect, command_send, command_set_profile,
  command_set_mtu, command_request_mtu, command_conn_params, command_enter_data_mode,
}

abbrev pub max_args : ℕ
max_args = 5

-- `working + strlen(prefix)`
abbrev pub behind : Text → Text → Text
behind prefix working = drop (length prefix) working

abbrev pub arguments : Text → Text → List Text
arguments prefix working = split_args max_args (behind prefix working)

-- A chain `if (test) { action; return; } …` with what stands behind it.
unfoldable pub select {ℓ} : {A : Type ℓ} → List (Bool × A) → A → A
select [] otherwise = otherwise
select ((test, action) ∷ rows) otherwise = if test then action else select rows otherwise

abbrev pub AllRows {ℓ κ} : {A : Type ℓ} → (A → Type κ) → List (Bool × A) → Type κ
AllRows P [] = Unit
AllRows P ((test, action) ∷ rows) = P action × AllRows P rows

-- A property of every action holds of the one that is picked.
pub select_all {ℓ κ} :
    {A : Type ℓ} (P : A → Type κ) (rows : List (Bool × A)) (otherwise : A)
    → AllRows P rows
    → P otherwise
    → P (select rows otherwise)
unfolding select
select_all P [] otherwise each last = last
select_all P ((test, action) ∷ rows) otherwise (first, each) last =
    if_both P test action (select rows otherwise) first (select_all P rows otherwise each last)

module _ {W : Type 0} (h : Host W) where
  abbrev pub Action : Type 0
  Action = W → State × W × CommandResult

  -- A command that leaves the host's state alone.
  abbrev pub does : State → (W → W) → Action
  does s f w = (s, f w, nothing)

  -- The commands in the order of the tests of `process_command`.
  unfoldable pub commands : Text → State → List (Bool × Action)
  commands working s =
      (length working == 0, does s (λ w. w))
      ∷ (equals_ignore_case working (ascii "AT"), does s (tx_line h.tx (ascii "+OK")))
      ∷ (
        starts_with_ignore_case working (ascii "AT+STARTSCAN="),
        does s (command_start_scan h (arguments (ascii "AT+STARTSCAN=") working)),
      )
      ∷ (
        starts_with_ignore_case working (ascii "AT+STARTCON="),
        does s (command_connect h (arguments (ascii "AT+STARTCON=") working)),
      )
      ∷ (
        starts_with_ignore_case working (ascii "AT+DISCON="),
        does s (command_disconnect h (behind (ascii "AT+DISCON=") working)),
      )
      ∷ (
        starts_with_ignore_case working (ascii "AT+SEND="),
        command_send h (arguments (ascii "AT+SEND=") working) s,
      )
      ∷ (equals_ignore_case working (ascii "AT+CONSTATUS"), does s (handle_get_status h))
      ∷ (
        starts_with_ignore_case working (ascii "AT+SETSVCUUID="),
        does s (command_set_profile h (arguments (ascii "AT+SETSVCUUID=") working)),
      )
      ∷ (equals_ignore_case working (ascii "AT+GETSVCUUID"), does s (handle_get_profile h))
      ∷ (
        starts_with_ignore_case working (ascii "AT+SETMTU="),
        does s (command_set_mtu h (behind (ascii "AT+SETMTU=") working)),
      )
      ∷ (equals_ignore_case working (ascii "AT+GETMTU"), does s (handle_get_mtu h))
      ∷ (
        starts_with_ignore_case working (ascii "AT+CONMTUREQ="),
        does s (command_request_mtu h (behind (ascii "AT+CONMTUREQ=") working)),
      )
      ∷ (
        starts_with_ignore_case working (ascii "AT+CONPARAREQ="),
        does s (command_conn_params h (arguments (ascii "AT+CONPARAREQ=") working)),
      )
      ∷ (
        starts_with_ignore_case working (ascii "AT+ENTERDATAMODE="),
        does s (command_enter_data_mode h (behind (ascii "AT+ENTERDATAMODE=") working)),
      )
      ∷ (equals_ignore_case working (ascii "AT+STREAMSTAT"), does s (handle_get_stream_stats h))
      ∷ (starts_with_ignore_case working (ascii "AT+"), does s (emit_error h.tx function_error))
      ∷ []

  -- `process_command(line)`, with the copy into its buffer of 160 bytes
  unfoldable pub process_command : List ℕ → State → W → State × W × CommandResult
  process_command line s =
      let working = trim_whitespace (snprintk_s 160 (until_nul line)) in
      select (commands working s) (does s (emit_error h.tx invalid_command))

  -- A property of what every command leaves, AT+SEND apart, and of what AT+SEND leaves.
  pub process_command_cases {ℓ} :
      (P : Action → Type ℓ) (line : List ℕ) (s : State)
      → ((f : W → W) → P (does s f))
      → ((args : List Text) → P (command_send h args s))
      → P (process_command line s)
  unfolding process_command commands
  process_command_cases P line s other sends =
      select_all P _ _
        (
          other _,
          (
            other _,
            (
              other _,
              (
                other _,
                (
                  other _,
                  (
                    sends _,
                    (
                      other _,
                      (
                        other _,
                        (
                          other _,
                          (
                            other _,
                            (other _, (other _, (other _, (other _, (other _, (other _, tt)))))),
                          ),
                        ),
                      ),
                    ),
                  ),
                ),
              ),
            ),
          ),
        )
        (other _)
