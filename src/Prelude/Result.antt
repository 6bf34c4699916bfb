-- ===== src/Prelude/Result.antt =====
-- A function that may throw an `Error` returns a `Result`; the text is the error's message.
use mathlib.Core.Bool.{Bool, true, false}
use Prim.Native.String.{String}

pub data Result {ℓ} (A : Type ℓ) : Type ℓ where
  ok : A → Result A
  err : String → Result A

-- What follows a call that may throw.
infixl 5 ◌>>=◌ ◌>>◌
abbrev pub ◌>>=◌ {ℓ κ} :
    {Given : Type ℓ} {Wanted : Type κ} → Result Given → (Given → Result Wanted) → Result Wanted
err message >>= next = err message
ok given >>= next = next given

abbrev pub ◌>>◌ {ℓ} : {Wanted : Type ℓ} → Result (Unit {0}) → Result Wanted → Result Wanted
checked >> next = checked >>= λ done. next

-- `if (test) throw new Error(message)`
abbrev pub throw_if : Bool → String → Result (Unit {0})
throw_if true e = err e
throw_if false e = ok tt
