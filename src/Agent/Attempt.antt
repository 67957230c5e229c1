-- ===== src/Agent/Attempt.antt =====
-- The results of Go functions that return an error beside a value; a panic ends the agent.
use Prim.Native.String.{◌++◌}
use mc_prototype.Base.{String, Option, none, some}

pub data Attempt {ℓ} (A : Type ℓ) : Type ℓ where
  done : A → Attempt A
  error : String → Attempt A
  crash : Attempt A

infixl 5 ◌>>◌
-- `if err != nil { return nil, err }` between two calls.
abbrev pub ◌>>◌ {ℓ κ} : {A : Type ℓ} → {B : Type κ} → Attempt A → Attempt B → Attempt B
done a >> k = k
error e >> k = error e
crash >> k = crash

-- A call that gives an error or nothing, with what fmt.Errorf puts before the error.
abbrev pub wrapped : String → Option String → Attempt (Unit {0})
wrapped what none = done tt
wrapped what (some e) = error (what ++ e)
