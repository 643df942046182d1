-- ===== src/Run.antt =====
-- How a kernel function ends. `int` results that are error codes (include/error.h), `panic`, and
-- the functions that do not return because they enter user mode (kern/env.c) are outcomes of one
-- type; `try` of include/error.h is the bind of the monad.
use buaa_os.Base.{Bool}

-- The codes of include/error.h; `fail e s` is `return -E_…` in state `s`.
pub data Error : Type 0 where
  unspecified bad_env inval no_mem no_sys no_free_env ipc_not_recv no_disk max_open not_found
        bad_path file_exists not_exec :
      Error

pub data Run (S A : Type 0) : Type 0 where
  ok : A → S → Run S A
  fail : Error → S → Run S A
  panic : Run S A
  enter : S → Run S A

abbrev pub Cmd : Type 0 → Type 0 → Type 0
Cmd S A = S → Run S A

module _ {S : Type 0} where
  abbrev pub pure : {A : Type 0} → A → Cmd S A
  pure a s = ok a s

  abbrev pub throw : {A : Type 0} → Error → Cmd S A
  throw e s = fail e s

  abbrev pub get : Cmd S S
  get s = ok s s

  abbrev pub put : S → Cmd S (Unit {0})
  put s _ = ok tt s

  abbrev pub assert : Bool → Cmd S (Unit {0})
  assert b s = elim b [ Bool.true ↦ ok tt s | Bool.false ↦ panic ]

module _ {S A B : Type 0} where
  abbrev pub and_then : Run S A → (A → Cmd S B) → Run S B
  and_then (ok a s) k = k a s
  and_then (fail e s) k = fail e s
  and_then panic k = panic
  and_then (enter s) k = enter s

  infixl 5 ◌>>=◌ ◌>>◌
  abbrev pub ◌>>=◌ : Cmd S A → (A → Cmd S B) → Cmd S B
  m >>= k = λ s. and_then (m s) k

  abbrev pub ◌>>◌ : Cmd S A → Cmd S B → Cmd S B
  m >> n = m >>= λ _. n

-- What holds of the state that a run leaves behind, however it ends.
abbrev pub After : {S A : Type 0} → (S → Type 0) → Run S A → Type 0
After P (ok a s) = P s
After P (fail e s) = P s
After P panic = Unit
After P (enter s) = P s
