-- ===== src/Errors.antt =====
-- storage/base.py: the exceptions of the framework, and fallible code as values.
use a2akit.Prelude.{ℕ, String, Option, ◌≡◌, ◌⊎◌, inl, inr, Bool, true, false, refl}
use a2akit.Wire.{TaskState}

-- The exceptions of the package, with `invalid_params` for a 400 answer of the configuration
-- handlers, and then others: RuntimeError, ValueError, AttributeError, any exception that code
-- outside the package raises, and the event loop's cancellation, which is no `Exception`.
pub data Error : Type 0 where
  task_not_found : Error
  task_terminal_state : Error
  task_not_accepting_messages : TaskState → Error
  task_not_cancelable : TaskState → Error
  unsupported_operation : Error
  context_mismatch : Error
  content_type_not_supported : String → Error
  concurrency : Option ℕ → Error
  push_config_not_found invalid_params : Error
  authentication_required : String → Error
  runtime_error value_error attribute_error other_error : Error
  cancelled_error : Error

-- What a call does: it raises, or it returns.
pub data Result {ℓ} (A : Type ℓ) : Type ℓ where
  err : Error → Result A
  ok : A → Result A

-- A call, and what follows it where it returns.
module _ {ℓ} {B : Type ℓ} where
  infixl 5 ◌>>=◌ ◌>>◌
  abbrev pub ◌>>=◌ {κ} : {A : Type κ} → Result A → (A → Result B) → Result B
  ◌>>=◌ (err e) k = err e
  ◌>>=◌ (ok a) k = k a

  abbrev pub ◌>>◌ : Result (Unit {0}) → Result B → Result B
  ◌>>◌ check next = check >>= λ done. next

-- `if bad: raise e`
abbrev pub raise_if : Bool → Error → Result (Unit {0})
raise_if bad e = elim bad [ true ↦ err e | false ↦ ok tt ]

pub Result-cases {ℓ} :
    {A : Type ℓ} (r : Result A) → ((e : Error) × (r ≡ err e)) ⊎ ((a : A) × (r ≡ ok a))
Result-cases (ok a) = inr (a, refl)
Result-cases (err e) = inl (e, refl)

pub ok-injective : {A : Type 0} {a b : A} → ok a ≡ ok b → a ≡ b
ok-injective e = cc

pub err-injective : {A : Type 0} {a b : Error} → ◌≡◌ {A = Result A} (err a) (err b) → a ≡ b
err-injective e = cc

-- The tests of the `except` clauses.
abbrev pub is_concurrency : Error → Bool
is_concurrency (concurrency v) = true
is_concurrency _ = false

abbrev pub is_task_terminal : Error → Bool
is_task_terminal task_terminal_state = true
is_task_terminal _ = false

abbrev pub is_cancellation : Error → Bool
is_cancellation cancelled_error = true
is_cancellation _ = false
