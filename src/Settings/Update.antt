-- ===== src/Settings/Update.antt =====
-- The checked updates of settings.c, and the configurations that they keep valid.
use central_uart.Prelude.{
  ℕ, ◌≤◌, ◌<◌, ◌≡◌, refl, sym, subst, true, ◌||◌, Option, some, List, [], ◌∷◌, arith, ltb,
  Bool-cases, Option-cases, some_inj, length, all, map, take_all, inl, inr,
}
use central_uart.Chars.{Text, ascii, snprintk_s, isxdigit, toupper}
use central_uart.Errors.{Rc}
use central_uart.Uuid.{uuid_str_len, normalize}
use central_uart.Uuid.Normal.{IsNormal, normalize_uuid-IsNormal}
use central_uart.Uuid.Fixed.{normalize_uuid_fits}
use central_uart.Settings.{Profile, Config, default_config, Storage}
use central_uart.Settings.Save.{
  normalized_profile, update_profile, update_mtu, conn_params_valid, update_conn_params,
}

pub record IsProfile (p : Profile) : Type 0 where
  pub service_normal : IsNormal p.service_uuid uuid_str_len
  pub notify_normal : IsNormal p.notify_uuid uuid_str_len
  pub write_normal : IsNormal p.write_uuid uuid_str_len

short :
    (d : Text)
    → length d ≡ 4
    → all isxdigit d ≡ true
    → map toupper d ≡ d
    → IsNormal (b'0' ∷ b'x' ∷ d) uuid_str_len
short d count hex upper =
    inl (record { digits = d; shape = refl; count = count; hex = hex; upper = upper }, omega arith)

-- What the updates keep of `g_config`.
pub record IsValid (c : Config) : Type 0 where
  pub profile : IsProfile c.active_profile
  pub mtu_low : 23 ≤ c.mtu
  pub mtu_high : c.mtu ≤ 259
  pub min_low : 6 ≤ c.conn_interval_min
  pub ordered : c.conn_interval_min ≤ c.conn_interval_max
  pub max_high : c.conn_interval_max ≤ 800
  pub timeout_set : 0 < c.timeout

pub conn_params_valid_iff :
    (lo hi latency timeout : ℕ)
    → conn_params_valid lo hi latency timeout ≡ true
    → (6 ≤ lo) × (lo ≤ hi) × (hi ≤ 800) × (0 < timeout)
unfolding conn_params_valid
conn_params_valid_iff lo hi latency timeout h = ground arith

-- `snprintk` cuts nothing off a normalised text.
pub snprintk-normalize : (t u : Text) → normalize t ≡ some u → snprintk_s uuid_str_len u ≡ u
snprintk-normalize t u e =
    take_all 36 u (omega (arith, normalize_uuid_fits (some t) true uuid_str_len u e))

normalize-IsNormal :
    (t u : Text) → normalize t ≡ some u → IsNormal (snprintk_s uuid_str_len u) uuid_str_len
normalize-IsNormal t u e =
    subst (λ s. IsNormal s uuid_str_len) (sym (snprintk-normalize t u e))
      (normalize_uuid-IsNormal (some t) true uuid_str_len u e)

normalized_profile-IsProfile :
    (s n r : Text) (s' n' r' : Option Text) (p : Profile)
    → normalize s ≡ s'
    → normalize n ≡ n'
    → normalize r ≡ r'
    → normalized_profile s' n' r' ≡ some p
    → IsProfile p
unfolding normalized_profile
normalized_profile-IsProfile s n r (some s') (some n') (some r') p es en er e =
    subst IsProfile (some_inj e) (record {
      service_normal = normalize-IsNormal s s' es;
      notify_normal = normalize-IsNormal n n' en;
      write_normal = normalize-IsNormal r r' er;
    })
normalized_profile-IsProfile s n r _ _ _ p es en er e = cc

module _ {W : Type 0} (st : Storage W) where
  update_mtu-IsValid :
      (mtu : ℕ) (c : Config) (w : W) → IsValid c → IsValid (update_mtu st mtu c w).0
  unfolding update_mtu
  update_mtu-IsValid mtu c w v = elim (Bool-cases (ltb mtu 23 || ltb 259 mtu)) [
    | inl bad ↦ rw bad v
    | inr good ↦ rw good (record {
      profile = v.profile;
      mtu_low = ground arith;
      mtu_high = ground arith;
      min_low = v.min_low;
      ordered = v.ordered;
      max_high = v.max_high;
      timeout_set = v.timeout_set;
    })
  ]

  update_conn_params-IsValid :
      (lo hi latency timeout : ℕ) (c : Config) (w : W)
      → IsValid c
      → IsValid (update_conn_params st lo hi latency timeout c w).0
  unfolding update_conn_params
  update_conn_params-IsValid lo hi latency timeout c w v =
      elim (Bool-cases (conn_params_valid lo hi latency timeout)) [
        | inr bad ↦ rw bad v
        | inl good ↦ rw good (
            let (a, b, d, e) = conn_params_valid_iff lo hi latency timeout good in
            record {
              profile = v.profile;
              mtu_low = v.mtu_low;
              mtu_high = v.mtu_high;
              min_low = a;
              ordered = b;
              max_high = d;
              timeout_set = e;
            })
      ]

  update_profile-IsValid :
      (s n r : Text) (c : Config) (w : W) → IsValid c → IsValid (update_profile st s n r c w).0
  unfolding update_profile
  update_profile-IsValid s n r c w v =
      elim (Option-cases (normalized_profile (normalize s) (normalize n) (normalize r))) [
        | inl e ↦ rw (e, update_profile) v
        | inr (p, e) ↦
            rw (e, update_profile)
              (record {
                profile =
                    normalized_profile-IsProfile s n r (normalize s) (normalize n) (normalize r) p
                      refl refl refl e;
                mtu_low = v.mtu_low;
                mtu_high = v.mtu_high;
                min_low = v.min_low;
                ordered = v.ordered;
                max_high = v.max_high;
                timeout_set = v.timeout_set;
              })
      ]

-- The calls by which the AT side changes the configuration.
pub data Update : Type 0 where
  profile : Text → Text → Text → Update
  mtu : ℕ → Update
  conn_params : ℕ → ℕ → ℕ → ℕ → Update

module _ {W : Type 0} (st : Storage W) where
  unfoldable pub apply_update : Update → Config → W → Config × W × Rc
  apply_update (profile s n r) = update_profile st s n r
  apply_update (mtu m) = update_mtu st m
  apply_update (conn_params lo hi latency timeout) = update_conn_params st lo hi latency timeout

  unfoldable pub apply_updates : List Update → Config → W → Config × W
  unfolding apply_update
  apply_updates [] c w = (c, w)
  apply_updates (u ∷ us) c w = let (c', w', rc) = apply_update u c w in apply_updates us c' w'

  apply_update-IsValid :
      (u : Update) (c : Config) (w : W) → IsValid c → IsValid (apply_update u c w).0
  unfolding apply_update
  apply_update-IsValid (profile s n r) = update_profile-IsValid st s n r
  apply_update-IsValid (mtu m) = update_mtu-IsValid st m
  apply_update-IsValid (conn_params lo hi latency timeout) =
      update_conn_params-IsValid st lo hi latency timeout

  -- Any updates, accepted, refused or failing in the flash, keep a valid configuration valid: three
  -- UUIDs in normal form, an MTU of 23 to 259, connection intervals of 6 to 800 in order, a timeout.
  pub apply_updates-IsValid :
      (us : List Update) (c : Config) (w : W) → IsValid c → IsValid (apply_updates us c w).0
  unfolding apply_updates
  apply_updates-IsValid [] c w v = v
  apply_updates-IsValid (u ∷ us) c w v =
      let (c', w', rc) = apply_update u c w in
      apply_updates-IsValid us c' w' (apply_update-IsValid u c w v)

pub default-IsValid : IsValid default_config
unfolding isxdigit toupper
default-IsValid = record {
  profile = record {
    service_normal = short (ascii "FFF0") refl refl refl;
    notify_normal = short (ascii "FFF1") refl refl refl;
    write_normal = short (ascii "FFF2") refl refl refl;
  };
  mtu_low = omega arith;
  mtu_high = omega arith;
  min_low = omega arith;
  ordered = omega arith;
  max_high = omega arith;
  timeout_set = omega arith;
}
