-- ===== src/Errors.antt =====
-- The result of the C functions that return `int`: 0, or a negated errno value.
use Prim.Native.Nat.{ℕ}
use mathlib.Core.Path.{◌≡◌, refl}

pub data Errno : Type 0 where
  einval enoent erange emsgsize enotconn ebusy ealready eagain eacces enotsup enomem enodev : Errno
  other : ℕ → Errno

-- `other n` stands for every value that the firmware does not name.
pub data Rc : Type 0 where
  ok : Rc
  err : Errno → Rc

-- A property of both outcomes holds of a call that splits on its result.
pub Rc_cases {ℓ κ} :
    {A : Type ℓ} (P : A → Type κ) (rc : Rc) (x : A) (f : Errno → A)
    → (rc ≡ ok → P x)
    → ((e : Errno) → rc ≡ err e → P (f e))
    → P (elim rc [ ok ↦ x | err e ↦ f e ])
Rc_cases P ok x f p q = p refl
Rc_cases P (err e) x f p q = q e refl

pub Rc_ap {ℓ} :
    {A : Type ℓ} (rc : Rc) (x y : A) (f : Errno → A)
    → (rc ≡ ok → x ≡ y)
    → (elim rc as (λ _. A) [ ok ↦ x | err e ↦ f e ]) ≡ (elim rc [ ok ↦ y | err e ↦ f e ])
Rc_ap ok x y f e = e refl
Rc_ap (err c) x y f e = refl
