-- ===== src/At/Notify.antt =====
-- The `at_host_notify_*` functions of at_host.c.
use central_uart.Prelude.{
  ℕ, Bool, not, ◌||◌, Option, none, some, List, [], ◌++◌, ltb, if◌then◌else◌, length,
}
use central_uart.Chars.{Text, ascii, snprintk_s}
use central_uart.AddrType.{is_printable_ascii}
use central_uart.Profile.{send_max_len}
use central_uart.At.{Tx, function_error}
use central_uart.At.Scan.{decimal, decimal_int8}
use central_uart.At.Reply.{tx_line, emit_error}

abbrev pub or_empty : Option Text → Text
or_empty none = []
or_empty (some t) = t

module _ {W : Type 0} (tx : Option (Tx W)) where
  -- `rssi` is given as its 8 bits; a name of NULL is `none`.
  unfoldable pub notify_scan_result : ℕ → Text → Option Text → ℕ → ℕ → W → W
  notify_scan_result index mac name addr_type rssi = tx_line tx (
      snprintk_s 128 (
        ascii "+IND=SCDA,"
        ++ (decimal index
            ++ (ascii ","
                ++ (mac
                    ++ (ascii ","
                        ++ (or_empty name
                            ++ (ascii ","
                                ++ (decimal addr_type ++ (ascii "," ++ decimal_int8 rssi))))))))))

  unfoldable pub notify_scan_complete : W → W
  notify_scan_complete = tx_line tx (ascii "+IND=SCED")

  unfoldable pub notify_connected : W → W
  notify_connected = tx_line tx (ascii "+IND=BLMC,0")

  unfoldable pub notify_disconnected : W → W
  notify_disconnected = tx_line tx (ascii "+IND=BLMD,0")

  unfoldable pub notify_ready : W → W
  notify_ready = tx_line tx (ascii "+IND=BLMN,0")

  unfoldable pub notify_mtu : ℕ → W → W
  notify_mtu payload_len = tx_line tx (snprintk_s 32 (ascii "+IND=MTU," ++ decimal payload_len))

  -- Data of NULL is `none`.
  unfoldable pub notify_receive : Option (List ℕ) → W → W
  notify_receive none w = w
  notify_receive (some bytes) w =
      if not (is_printable_ascii (some bytes)) || ltb send_max_len (length bytes)
      then w
      else tx_line tx
          (snprintk_s 288
            (ascii "+IND=RECV,0," ++ (decimal (length bytes) ++ (ascii "," ++ bytes))))
          w

  unfoldable pub notify_link_params : ℕ → ℕ → ℕ → W → W
  notify_link_params interval latency timeout = tx_line tx (
      snprintk_s 64 (
        ascii "+IND=LINKPARA,0,"
        ++ (decimal interval
            ++ (ascii "," ++ (decimal latency ++ (ascii "," ++ decimal timeout))))))

  unfoldable pub notify_data_mode : Bool → W → W
  notify_data_mode enabled =
      tx_line tx (if enabled then ascii "+IND=DATAMODE,1" else ascii "+IND=DATAMODE,0")

  unfoldable pub notify_function_error : W → W
  notify_function_error = emit_error tx function_error
