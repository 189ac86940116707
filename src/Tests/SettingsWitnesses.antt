-- ===== src/Tests/SettingsWitnesses.antt =====
-- The theorems on settings.c at concrete input.
use central_uart.Prelude.{[], ◌∷◌, List}
use central_uart.Chars.{ascii}
use central_uart.Settings.{default_config}
use central_uart.Settings.Update.{
  IsValid, default-IsValid, Update, profile, mtu, conn_params, apply_updates, apply_updates-IsValid,
}
use central_uart.Tests.Fixtures.{flash}

abbrev session : List Update
session =
    mtu 185
    ∷ conn_params 24 40 0 500
    ∷ conn_params 40 24 0 500
    ∷ profile (ascii "180f") (ascii "2a19") (ascii "fff2")
    ∷ []

apply_updates-IsValid_example : IsValid (apply_updates flash session default_config 3).0
apply_updates-IsValid_example = apply_updates-IsValid flash session default_config 3 default-IsValid
