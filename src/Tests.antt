-- ===== src/Tests.antt =====
-- The theorems at concrete input.
mod Fixtures
mod AtWitnesses
mod UuidWitnesses
mod SettingsWitnesses
mod ProfileWitnesses
mod AppWitnesses
mod PumpWitnesses
mod SystemWitnesses
