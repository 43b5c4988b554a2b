-- ===== src/Exception.antt =====
-- The Python exceptions that the modelled code raises, and results that may be one.
use alharistech_platform.Base.{String}

-- `unmodelled` marks what the model leaves out, such as a step id that is no text.
pub data Exn : Type 0 where
  type_error attribute_error key_error file_not_found unmodelled : Exn
  value_error bundler_error : String → Exn
  os_error : String → Exn

pub data Result {ℓ} (A : Type ℓ) : Type ℓ where
  ok : A → Result A
  err : Exn → Result A

infixl 5 ◌>>=◌
abbrev pub ◌>>=◌ {ℓ κ} : {A : Type ℓ} {B : Type κ} → Result A → (A → Result B) → Result B
ok a >>= f = f a
err e >>= f = err e
