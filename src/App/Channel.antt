-- ===== src/App/Channel.antt =====
-- Data mode end to end: from the bytes of the computer to what the Bluetooth link has accepted.
pub mod Run
use central_uart.Prelude.{
  ℕ, ◌+◌, ◌≤◌, ◌≡◌, sym, subst, ◌∙◌, ap, ap₂, true, List, [], ◌∷◌, ◌++◌, append-nil, append_assoc,
  length,
}
use central_uart.Settings.{Config}
use central_uart.Profile
use central_uart.Profile.{Gatt}
use central_uart.App.{Ring, RingLaws, Kernel, State}
use central_uart.App.Escape.{
  is_data_mode, is_connected, handle_data_mode_rx, escape_guard_work_handler,
}
use central_uart.App.Transparent.{IsCandidate, stream, held, handle_data_mode_rx-stream}
use central_uart.App.Calm.{IsCalm, rx-IsCalm}
use central_uart.App.Pump.{
  may_send, ble_write_work_handler, ble_write_coalesce_work_handler, ble_write_retry_work_handler,
}
use central_uart.App.Pump.Order.{ble_write_work_handler-Keeps}
use central_uart.App.Pump.Drain.{CanSend, IsAccepting, ble_write_work_handler-Drained}
use central_uart.App.Link.{LinkLaws, rx-accepted}

-- What happens in data mode: a chunk from the computer, and the four work items.
pub data Event : Type 0 where
  received : List ℕ → Event
  write_work coalesce_work retry_work guard_work : Event

-- The bytes that the computer has sent.
abbrev pub input_of : List Event → List ℕ
input_of [] = []
input_of (received bytes ∷ es) = bytes ++ input_of es
input_of (_ ∷ es) = input_of es

module _ {U R K : Type 0} (ring : Ring R) (kernel : Kernel K) (gatt : Gatt U K) (config : Config)
    (pm : Profile.State) where
  unfoldable pub event_step : Event → State R → K → State R × K
  event_step (received bytes) s k =
      handle_data_mode_rx ring kernel config (may_send ring kernel gatt pm) pm.payload_len bytes s k
  event_step write_work s k =
      (let (_, s', k') = ble_write_work_handler ring kernel gatt pm s k in (s', k'))
  event_step coalesce_work s k = ble_write_coalesce_work_handler ring kernel gatt s k
  event_step retry_work s k = (s, ble_write_retry_work_handler ring kernel gatt k)
  event_step guard_work s k =
      escape_guard_work_handler ring kernel config (may_send ring kernel gatt pm) pm.payload_len s k

  unfoldable pub events_run : List Event → State R → K → State R × K
  events_run [] s k = (s, k)
  events_run (e ∷ es) s k = let (s', k') = event_step e s k in events_run es s' k'

module _ {U R K : Type 0} (ring : Ring R) (kernel : Kernel K) (gatt : Gatt U K) (capacity : ℕ)
    (laws : RingLaws ring capacity) (link : LinkLaws gatt kernel) (config : Config)
    (pm : Profile.State) where
  open laws use {contents, claimed}
  open link use {accepted}

  -- What one event may need: room for the bytes and for the pluses held back, and a guard time that
  -- does not end data mode.
  abbrev pub CanTake : Event → State R → K → Type 0
  CanTake (received bytes) s k =
      length (stream ring kernel capacity laws s) + length bytes ≤ capacity
  CanTake guard_work s k =
      (length (stream ring kernel capacity laws s) ≤ capacity)
      × (is_data_mode (event_step ring kernel gatt config pm guard_work s k).0.app_state ≡ true)
  CanTake _ s k = Unit {0}

  abbrev pub CanRun : List Event → State R → K → Type 0
  CanRun [] s k = Unit {0}
  CanRun (e ∷ es) s k =
      CanTake e s k
      × (let (s', k') = event_step ring kernel gatt config pm e s k in CanRun es s' k')

  -- What the link has accepted, then what waits for it.
  abbrev pub channel : State R → K → List ℕ
  channel s k = accepted k ++ stream ring kernel capacity laws s

  -- Data mode on a connection, between two events.
  pub record IsRunning (s : State R) : Type 0 where
    pub mode : is_data_mode s.app_state ≡ true
    pub linked : is_connected s.current_conn ≡ true
    pub settled : claimed s.host_to_ble_ring ≡ 0
    pub candidate : IsCandidate s.escape_state

  abbrev pub Advances : State R → K → List ℕ → State R × K → Type 0
  Advances s k bytes x = (channel x.0 x.1 ≡ channel s k ++ bytes) × IsRunning x.0

  pub calm-IsRunning :
      {s s' : State R}
      → IsCalm ring kernel capacity laws s s'
      → IsCandidate s'.escape_state
      → IsRunning s
      → IsRunning s'
  calm-IsRunning calm candidate v = record {
    mode = ap is_data_mode calm.same_mode ∙ v.mode;
    linked = ap is_connected calm.same_link ∙ v.linked;
    settled = calm.same_claims ∙ v.settled;
    candidate = candidate;
  }

  pub received-Advances :
      (bytes : List ℕ) (s : State R) (k : K)
      → IsRunning s
      → CanTake (received bytes) s k
      → Advances s k bytes (event_step ring kernel gatt config pm (received bytes) s k)
  unfolding event_step
  received-Advances bytes s k v room =
      let may = may_send ring kernel gatt pm in
      let (same, candidate) =
        handle_data_mode_rx-stream ring kernel capacity laws config may pm.payload_len bytes s k
          v.candidate room in
      (
        ap₂ ◌++◌ (rx-accepted ring kernel gatt link config may pm.payload_len bytes s k) same
            ∙ sym (append_assoc (accepted k) (stream ring kernel capacity laws s) bytes),
        calm-IsRunning (rx-IsCalm ring kernel capacity laws config may pm.payload_len bytes s k)
            candidate v,
      )

  pub write-Advances :
      (s : State R) (k : K)
      → CanSend ring kernel gatt capacity laws link pm
      → IsAccepting ring kernel gatt capacity laws link
      → IsRunning s
      → Advances s k [] (event_step ring kernel gatt config pm write_work s k)
  unfolding event_step
  write-Advances s k can accepting v =
      let x = ble_write_work_handler ring kernel gatt pm s k in
      let kept =
        ble_write_work_handler-Keeps ring kernel gatt capacity laws link pm s k v.settled in
      let pluses = held s.escape_state in
      (
        ap (λ l. accepted (x.2) ++ (contents (x.1.host_to_ble_ring) ++ held l)) kept.same_candidate
            ∙ sym (append_assoc (accepted (x.2)) (contents (x.1.host_to_ble_ring)) pluses)
            ∙ ap (λ l. l ++ pluses) kept.same_bytes
            ∙ append_assoc (accepted k) (contents s.host_to_ble_ring) pluses
            ∙ sym (append-nil (channel s k)),
        record {
          mode = ap is_data_mode kept.same_mode ∙ v.mode;
          linked = ap is_connected kept.same_link ∙ v.linked;
          settled =
              (ble_write_work_handler-Drained ring kernel gatt capacity laws link pm s k can
                accepting v.linked v.settled).settled;
          candidate = subst IsCandidate (sym kept.same_candidate) v.candidate;
        },
      )
