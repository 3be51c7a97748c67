-- ===== src/Common/Error.antt =====
-- crates/dbgflow-common/src/error.rs and ids.rs. An id is the number of its UUID; an error's text is
-- kept as the error that is displayed.
use dbgflow.Prelude.{ℕ, String, ◌≡◌, refl, arith}

abbrev pub SessionId : Type 0
SessionId = ℕ

pub data DbgFlowError : Type 0 where
  backend_not_found : String → DbgFlowError
  backend : String → DbgFlowError
  session_not_found : SessionId → DbgFlowError
  session_closed : SessionId → DbgFlowError
  artifact : String → DbgFlowError

-- What `to_string` renders, and the texts that are no error's.
pub data Message : Type 0 where
  text : String → Message
  of_error : DbgFlowError → Message

-- `Result<T>` of the crate: every failure is a `DbgFlowError`.
pub data Result {ℓ} (T : Type ℓ) : Type ℓ where
  ok : (value : T) → Result T
  err : (error : DbgFlowError) → Result T

-- The operator `?`.
infixl 5 ◌>>=◌
abbrev pub ◌>>=◌ {ℓ κ} : {T : Type ℓ} {U : Type κ} → Result T → (T → Result U) → Result U
r >>= next = elim r [ ok value ↦ next value | err error ↦ err error ]

-- To prove a property of a branch on a result, for each branch.
pub result_branch {ℓ κ μ} :
    {A : Type ℓ} {B : Type κ} (P : B → Type μ) (r : Result A) (x : DbgFlowError → B) (f : A → B)
    → ((e : DbgFlowError) → r ≡ err e → P (x e))
    → ((a : A) → r ≡ ok a → P (f a))
    → P (elim r [ err e ↦ x e | ok a ↦ f a ])
result_branch P (err e) x f failed went = failed e refl
result_branch P (ok a) x f failed went = went a refl

-- A chain that goes through has gone through its first part.
pub bind_ok {ℓ κ} :
    {T : Type ℓ} {U : Type κ} (r : Result T) (next : T → Result U) (u : U)
    → (r >>= next) ≡ ok u
    → (t : T) × (r ≡ ok t) × (next t ≡ ok u)
bind_ok (ok t) next u h = (t, refl, h)
bind_ok (err e) next u h = absurd (ground arith)
