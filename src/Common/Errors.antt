-- ===== src/Common/Errors.antt =====
-- The error numbers of src/status.h. A C function that returns a non-negative number, or a negated
-- error number, returns a `Status`: `ok v` for the number, `err e` for `-e`.
use Prim.Native.Nat.{ℕ}
use mathlib.Core.Path.{◌≡◌, refl}
use mathlib.Core.Logic.{◌≢◌, ◌⊎◌, inl, inr}
use mathlib.Core.Bool.{Bool, true, false}

abbrev pub eio : ℕ
eio = 1

abbrev pub einvarg : ℕ
einvarg = 2

abbrev pub enomem : ℕ
enomem = 3

abbrev pub ebadpath : ℕ
ebadpath = 4

abbrev pub enotus : ℕ
enotus = 5

abbrev pub erdonly : ℕ
erdonly = 6

abbrev pub eistkn : ℕ
eistkn = 8

abbrev pub einformat : ℕ
einformat = 9

abbrev pub enodiskspace : ℕ
enodiskspace = 10

pub data Status {ℓ} (A : Type ℓ) : Type ℓ where
  ok : A → Status A
  err : ℕ → Status A

infixl 5 ◌>>=◌
abbrev pub ◌>>=◌ {ℓ κ} : {A : Type ℓ} {B : Type κ} → Status A → (A → Status B) → Status B
ok a >>= f = f a
err e >>= f = err e

abbrev pub is_ok {ℓ} : {A : Type ℓ} → Status A → Bool
is_ok (ok a) = true
is_ok (err e) = false

pub ok-injective {ℓ} : {A : Type ℓ} {a b : A} → ok a ≡ ok b → a ≡ b
ok-injective e = cc

pub Status-cases {ℓ} :
    {A : Type ℓ} (s : Status A) → ((a : A) × (s ≡ ok a)) ⊎ ((e : ℕ) × (s ≡ err e))
Status-cases (ok a) = inl (a, refl)
Status-cases (err e) = inr (e, refl)

pub ok_ne_err {ℓ} : {A : Type ℓ} {a : A} {e : ℕ} → ok a ≢ err e
ok_ne_err e = cc
