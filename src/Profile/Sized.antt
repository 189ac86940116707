-- ===== src/Profile/Sized.antt =====
-- The payload length stays in range, whatever the order of calls and callbacks.
use central_uart.Prelude.{◌≤◌, List, [], ◌∷◌}
use central_uart.Settings.{Config}
use central_uart.Profile.Machine.{Event}

-- The configured MTU is at most 259 at each event, as the settings keep it.
abbrev pub AreBounded : {U : Type 0} → List (Config × Event U) → Type 0
AreBounded [] = Unit {0}
AreBounded ((config, e) ∷ es) = (config.mtu ≤ 259) × AreBounded es
