-- ===== src/Errors.antt =====
-- The sentinel errors of debugger/errors.go, emulator/errors.go and socket/errors.go, those of the Go packages io and
-- io/fs that the code returns, and the outcome of a call that may return an error or panic.
use microdbg.Base.{ℕ}

pub data Error : Type 0 where
  context_invalid module_not_found symbol_not_found hook_callback_type : Error
  task_invalid calling_unsupported unhandled_exception argument_invalid : Error
  emulator_stop address_invalid not_implemented arch_unsupported : Error
  not_exist exist invalid closed unsupported eof : Error
  already_bind already_listen already_connect not_bind not_listen not_connect : Error
  -- the exception made of a panic
  panic_exception : Error
  -- an error of the emulator or of another package, by an opaque code
  external : ℕ → Error

pub data Result {ℓ} (A : Type ℓ) : Type ℓ where
  ok : A → Result A
  err : Error → Result A
  panic : Result A
