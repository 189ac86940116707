-- ===== src/Settings/Save.antt =====
-- The checked updates of settings.c, each of which saves what it changes.
use Prim.Native.String.{String}
use central_uart.Prelude.{
  ℕ, ◌/◌, ◌%◌, Bool, true, false, not, ◌||◌, Option, none, some, List, [], ◌∷◌, ◌++◌, ltb, ◌==◌,
  if◌then◌else◌,
}
use central_uart.Chars.{Text, ascii, snprintk_s}
use central_uart.Errors.{Rc, ok, err, einval}
use central_uart.Uuid.{uuid_str_len, normalize}
use central_uart.Settings.{Profile, Config, Storage, root}

-- A uint16_t in the memory of the little-endian CPU.
abbrev pub u16_bytes : ℕ → List ℕ
u16_bytes n = n % 256 ∷ n / 256 ∷ []

-- SETTINGS_ROOT "/name"
abbrev pub key : String → Text
key name = root ++ (b'/' ∷ ascii name)

-- The guard of `ble_host_settings_update_profile` over the three normalised texts, and the three
-- copies into the active profile.
unfoldable pub normalized_profile : Option Text → Option Text → Option Text → Option Profile
normalized_profile (some s) (some n) (some r) = some (record {
  service_uuid = snprintk_s uuid_str_len s;
  notify_uuid = snprintk_s uuid_str_len n;
  write_uuid = snprintk_s uuid_str_len r;
})
normalized_profile _ _ _ = none

module _ {W : Type 0} (st : Storage W) where
  -- `err = settings_save_one(…); if (err) return err;` and what follows
  abbrev pub save_then : Text → List ℕ → W → (W → W × Rc) → W × Rc
  save_then k v w next =
      let (w', rc) = st.save_one k v w in elim rc [ ok ↦ next w' | err e ↦ (w', err e) ]

  save_profile : Profile → W → W × Rc
  save_profile p w = save_then (key "profile/service_uuid") p.service_uuid w λ w1.
      save_then (key "profile/notify_uuid") p.notify_uuid w1
        λ w2. st.save_one (key "profile/write_uuid") p.write_uuid w2

  -- `ble_host_settings_update_profile`
  unfoldable pub update_profile : Text → Text → Text → Config → W → Config × W × Rc
  unfolding save_profile
  update_profile service notify write c w =
      elim (normalized_profile (normalize service) (normalize notify) (normalize write)) [
        | none ↦ (c, w, err einval)
        | some p ↦ (let (w', rc) = save_profile p w in (record c { active_profile = p }, w', rc))
      ]

  -- `ble_host_settings_update_mtu`
  unfoldable pub update_mtu : ℕ → Config → W → Config × W × Rc
  update_mtu mtu c w =
      if ltb mtu 23 || ltb 259 mtu
      then (c, w, err einval)
      else (let (w', rc) = st.save_one (key "mtu") (u16_bytes mtu) w in
          (record c { mtu = mtu }, w', rc))

-- `conn_params_valid`; `latency` is not looked at.
unfoldable pub conn_params_valid : ℕ → ℕ → ℕ → ℕ → Bool
conn_params_valid min_interval max_interval latency timeout =
    if ltb min_interval 6 || ltb 800 min_interval
    then false
    else if ltb max_interval 6 || ltb 800 max_interval || ltb max_interval min_interval
    then false
    else if timeout == 0
    then false
    else true

module _ {W : Type 0} (st : Storage W) where
  -- The four saves at the end of `ble_host_settings_update_conn_params`.
  unfoldable pub save_conn_params : ℕ → ℕ → ℕ → ℕ → W → W × Rc
  save_conn_params min_interval max_interval latency timeout w =
      save_then st (key "conn_interval_min") (u16_bytes min_interval) w λ w1.
        save_then st (key "conn_interval_max") (u16_bytes max_interval) w1 λ w2.
          save_then st (key "latency") (u16_bytes latency) w2
            λ w3. st.save_one (key "timeout") (u16_bytes timeout) w3

  -- `ble_host_settings_update_conn_params`
  unfoldable pub update_conn_params : ℕ → ℕ → ℕ → ℕ → Config → W → Config × W × Rc
  unfolding save_conn_params
  update_conn_params min_interval max_interval latency timeout c w =
      let (w', rc) = save_conn_params min_interval max_interval latency timeout w in
      if not (conn_params_valid min_interval max_interval latency timeout)
      then (c, w, err einval)
      else (
        record c {
          conn_interval_min = min_interval;
          conn_interval_max = max_interval;
          latency = latency;
          timeout = timeout;
        },
        w',
        rc,
      )
