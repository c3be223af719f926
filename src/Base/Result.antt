-- ===== src/Base/Result.antt =====
-- What a call of a Python function comes to: a value, or the exception that it raises.
use mathlib.Core.Path.{◌≡◌}
use mathlib.Core.Logic.{◌≢◌}
use mathlib.Core.Option.{Option, none, some}

pub data Error : Type 0 where
  key_error stop_iteration value_error type_error runtime_error os_error attribute_error : Error
  overflow_error : Error
  -- `QuerySyntaxError`
  query_syntax_error : Error
  -- The fuel of a loop ended before its test did.
  out_of_fuel : Error

pub data Result {ℓ} (A : Type ℓ) : Type ℓ where
  ok : A → Result A
  raise : Error → Result A

infixl 5 ◌>>=◌
abbrev pub ◌>>=◌ {ℓ κ} : {A : Type ℓ} {B : Type κ} → Result A → (A → Result B) → Result B
ok a >>= f = f a
raise e >>= f = raise e

-- The value, or the exception where there is none.
abbrev pub or_raise {ℓ} : {A : Type ℓ} → Error → Option A → Result A
or_raise e none = raise e
or_raise e (some a) = ok a

pub raise-ne-ok {ℓ} : {A : Type ℓ} (e : Error) (a : A) → raise e ≢ ok a
raise-ne-ok e a h = cc

pub ok-injective {ℓ} : {A : Type ℓ} (a b : A) → ok a ≡ ok b → a ≡ b
ok-injective a b h = cc
