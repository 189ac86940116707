-- ===== src/At/Reply.antt =====
-- Output of at_host.c: lines, raw bytes, error replies and the replies that print a structure.
use central_uart.Prelude.{ℕ, not, Option, none, some, List, ◌++◌, if◌then◌else◌}
use central_uart.Chars.{Text, ascii, snprintk_s}
use central_uart.Errors.{Rc, ok, err, Errno, einval, enoent, erange, emsgsize}
use central_uart.At.{
  StreamStats, Tx, Host, ErrorKind, invalid_command, invalid_parameters, function_error,
}
use central_uart.At.Scan.{decimal}

module _ {W : Type 0} (tx : Option (Tx W)) where
  unfoldable pub tx_line : Text → W → W
  tx_line text w = elim tx [ none ↦ w | some t ↦ elim t.line [ none ↦ w | some f ↦ f text w ] ]

  unfoldable pub tx_raw : List ℕ → W → W
  tx_raw bytes w = elim tx [ none ↦ w | some t ↦ elim t.raw [ none ↦ w | some f ↦ f bytes w ] ]

  unfoldable pub emit_error : ErrorKind → W → W
  emit_error invalid_command = tx_line (ascii "+ERR=Invalid Command")
  emit_error invalid_parameters = tx_line (ascii "+ERR=Invalid Parameters")
  emit_error function_error = tx_line (ascii "+ERR=Function Error")

  abbrev pub kind_of : Errno → ErrorKind
  kind_of einval = invalid_parameters
  kind_of enoent = invalid_parameters
  kind_of erange = invalid_parameters
  kind_of emsgsize = invalid_parameters
  kind_of _ = function_error

  unfoldable pub emit_error_from_errno : Errno → W → W
  emit_error_from_errno e = emit_error (kind_of e)

  -- `if (err) { emit_error_from_errno(err); return; } tx_line("+OK");` behind an operation
  unfoldable pub reply : W × Rc → W
  reply (w, ok) = tx_line (ascii "+OK") w
  reply (w, err e) = emit_error_from_errno e w

module _ {W : Type 0} (h : Host W) where
  unfoldable pub handle_get_status : W → W
  handle_get_status w =
      let status = h.ops.get_status w in
      if not status.connected
      then tx_line h.tx (ascii "+OK=NUM,0") w
      else tx_line h.tx (ascii "+OK=NUM,1") (
          tx_line h.tx
            (snprintk_s 80
              (ascii "0:" ++ (status.mac ++ (ascii ",0,1," ++ decimal status.data_len))))
            w)

  unfoldable pub handle_get_profile : W → W
  handle_get_profile w =
      let p = h.ops.get_profile w in
      tx_line h.tx
        (snprintk_s 128 (
          ascii "+OK="
          ++ (p.service_uuid ++ (ascii "," ++ (p.notify_uuid ++ (ascii "," ++ p.write_uuid))))))
        w

  unfoldable pub handle_get_mtu : W → W
  handle_get_mtu w = tx_line h.tx (snprintk_s 32 (ascii "+OK=" ++ decimal (h.ops.get_mtu w))) w

  abbrev pub stats_text : StreamStats → Text
  stats_text s =
      ascii "+OK=H2B,"
      ++ (decimal s.bytes_host_to_ble
          ++ (ascii ",B2H,"
              ++ (decimal s.bytes_ble_to_host
                  ++ (ascii ",WOP,"
                      ++ (decimal s.write_ops
                          ++ (ascii ",NOP,"
                              ++ (decimal s.notify_ops
                                  ++ (ascii ",BP,"
                                      ++ (decimal s.usb_backpressure_count
                                          ++ (ascii ",MAXTX,"
                                              ++ (decimal s.max_host_to_ble_depth
                                                  ++ (ascii ",MAXRX,"
                                                      ++ (decimal s.max_ble_to_host_depth
                                                          ++ (ascii ",ENT,"
                                                            ++ (decimal s.enter_data_mode_count
                                                            ++ (ascii ",UDISC,"
                                                            ++ decimal
                                                            s.unexpected_disconnect_count))))))))))))))))

  unfoldable pub handle_get_stream_stats : W → W
  handle_get_stream_stats w = elim h.ops.get_stream_stats [
    | none ↦ emit_error h.tx function_error w
    | some get ↦ tx_line h.tx (snprintk_s 192 (stats_text (get w))) w
  ]
