-- ===== src/Result.antt =====
-- What a call gives that may throw, and the exceptions that invoke_plugin_handler tells apart.
use docker_plugin_cpp.Base.{ℕ, Bytes}

pub record ErrorResponse : Type 0 where
  -- an int, of which only the natural numbers are modelled
  pub status : ℕ
  pub error : Bytes

pub data Exception : Type 0 where
  -- throw error_response
  thrown_response : ErrorResponse → Exception
  -- std::invalid_argument, with its what()
  invalid_argument : Bytes → Exception
  -- any other std::exception, with its what()
  standard : Bytes → Exception

pub data Result (A : Type 0) : Type 0 where
  returned : A → Result A
  threw : Exception → Result A

infixl 5 ◌>>=◌
abbrev pub ◌>>=◌ : {A B : Type 0} → Result A → (A → Result B) → Result B
returned a >>= f = f a
threw e >>= f = threw e
