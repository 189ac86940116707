-- ===== src/Settings/Load.antt =====
-- Reading the settings: the handler of settings.c, and the load at start.
use central_uart.Prelude.{
  ℕ, ◌+◌, ◌*◌, ◌/◌, Bool, not, ◌||◌, none, some, List, [], ◌∷◌, ◌++◌, leb, ◌==◌, if◌then◌else◌,
  length, take, drop,
}
use central_uart.Chars.{Text, ascii, until_nul}
use central_uart.Errors.{Rc, ok, err, einval, enoent}
use central_uart.Uuid.{uuid_str_len, normalize}
use central_uart.Settings.{Config, failed, got, Item, Storage, root}

-- Bytes copied over a uint16_t: fewer than two leave the rest as it was.
abbrev pub u16_overwrite : ℕ → List ℕ → ℕ
u16_overwrite old [] = old
u16_overwrite old (lo ∷ []) = lo + 256 * (old / 256)
u16_overwrite old (lo ∷ hi ∷ _) = lo + 256 * hi

-- Bytes copied over a bool.
abbrev pub bool_overwrite : Bool → List ℕ → Bool
bool_overwrite old [] = old
bool_overwrite old (b ∷ _) = not (b == 0)

-- One of the three UUID branches. `stale` is what the uninitialised `text` buffer holds; the result
-- is what the branch leaves in the field.
abbrev set_uuid : List ℕ → Item → Text → Text × Rc
set_uuid stale item old =
    if item.len == 0 || leb uuid_str_len item.len
    then (old, err einval)
    else elim (item.read item.len) [
      | failed e ↦ (old, err e)
      | got bytes ↦
          elim (normalize (until_nul (take item.len (bytes ++ drop (length bytes) stale)))) [
            | some u ↦ (u, ok)
            | none ↦ (old, err einval)
          ]
    ]

-- `read_cb(cb_arg, &field, size) >= 0 ? 0 : -EINVAL`
abbrev set_field {ℓ} : {A : Type ℓ} → ℕ → (A → List ℕ → A) → Item → A → A × Rc
set_field size overwrite item old = elim (item.read size) [
  | failed e ↦ (old, err einval)
  | got bytes ↦ (overwrite old bytes, ok)
]

abbrev set_u16 : Item → ℕ → ℕ × Rc
set_u16 = set_field 2 u16_overwrite

abbrev set_bool : Item → Bool → Bool × Rc
set_bool = set_field 1 bool_overwrite

module _ {W : Type 0} (st : Storage W) where
  -- The branches of `settings_handle_set` for the number and flag fields, in order.
  handle_scalar : Item → Config → Config × Rc
  handle_scalar item c =
      if st.name_steq item.name (ascii "mtu")
      then (let (v, rc) = set_u16 item c.mtu in (record c { mtu = v }, rc))
      else if st.name_steq item.name (ascii "conn_interval_min")
      then (let (v, rc) = set_u16 item c.conn_interval_min in
          (record c { conn_interval_min = v }, rc))
      else if st.name_steq item.name (ascii "conn_interval_max")
      then (let (v, rc) = set_u16 item c.conn_interval_max in
          (record c { conn_interval_max = v }, rc))
      else if st.name_steq item.name (ascii "latency")
      then (let (v, rc) = set_u16 item c.latency in (record c { latency = v }, rc))
      else if st.name_steq item.name (ascii "timeout")
      then (let (v, rc) = set_u16 item c.timeout in (record c { timeout = v }, rc))
      else if st.name_steq item.name (ascii "auto_mtu")
      then (let (v, rc) = set_bool item c.auto_mtu in (record c { auto_mtu = v }, rc))
      else if st.name_steq item.name (ascii "auto_subscribe")
      then (let (v, rc) = set_bool item c.auto_subscribe in (record c { auto_subscribe = v }, rc))
      else if st.name_steq item.name (ascii "prefer_2m_phy")
      then (let (v, rc) = set_bool item c.prefer_2m_phy in (record c { prefer_2m_phy = v }, rc))
      else if st.name_steq item.name (ascii "prefer_dle")
      then (let (v, rc) = set_bool item c.prefer_dle in (record c { prefer_dle = v }, rc))
      else if st.name_steq item.name (ascii "allow_data_mode")
      then (let (v, rc) = set_bool item c.allow_data_mode in (record c { allow_data_mode = v }, rc))
      else if st.name_steq item.name (ascii "stream_guard_time_ms")
      then (let (v, rc) = set_u16 item c.stream_guard_time_ms in
          (record c { stream_guard_time_ms = v }, rc))
      else (c, err enoent)

  -- `settings_handle_set`; `stale` is the content of its uninitialised buffer.
  unfoldable pub settings_handle_set : List ℕ → Item → Config → Config × Rc
  unfolding handle_scalar
  settings_handle_set stale item c =
      let p = c.active_profile in
      if st.name_steq item.name (ascii "profile/service_uuid")
      then (let (u, rc) = set_uuid stale item p.service_uuid in
          (record c { active_profile = record p { service_uuid = u } }, rc))
      else if st.name_steq item.name (ascii "profile/notify_uuid")
      then (let (u, rc) = set_uuid stale item p.notify_uuid in
          (record c { active_profile = record p { notify_uuid = u } }, rc))
      else if st.name_steq item.name (ascii "profile/write_uuid")
      then (let (u, rc) = set_uuid stale item p.write_uuid in
          (record c { active_profile = record p { write_uuid = u } }, rc))
      else handle_scalar item c

  -- The calls of the handler during a load, one for each value, each with its stale buffer. The
  -- subsystem goes on past an error of the handler.
  unfoldable pub load_items : (Item → List ℕ) → List Item → Config → Config
  load_items stale [] c = c
  load_items stale (item ∷ items) c =
      load_items stale items (settings_handle_set (stale item) item c).0

  -- `ble_host_settings_init`
  unfoldable pub settings_init : (Item → List ℕ) → Config → W → Config × W × Rc
  settings_init stale c w =
      let (w', rc) = st.subsys_init w in
      elim rc [
        | err e ↦ (c, w', err e)
        | ok ↦
            (let (items, loaded) = st.load_subtree root w' in
              (load_items stale items c, w', loaded))
      ]
