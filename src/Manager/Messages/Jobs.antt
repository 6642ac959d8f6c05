-- ===== src/Manager/Messages/Jobs.antt =====
-- The jobs that a message starts.
use a2akit.Prelude.{
  ℕ, String, ◌≡◌, Bool, true, false, ◌&&◌, ◌⊎◌, Option, none, some, List, [], ◌∷◌, ◌++◌,
}
use a2akit.Errors.{Error, Result, ok, err}
use a2akit.Push.Store.{PushConfig, text_or}
use a2akit.Storage.Update.{Update}
use a2akit.Manager.{truthy}
use a2akit.Manager.Messages.{tenant_update, store_inline}
use a2akit.Runtime.{World, Act, Background, store}
use a2akit.Runtime.Steady.{Steady}

module _ (b : List Background) where
  abbrev pub HasJobs : World → Type 0
  HasJobs w = w.background ≡ b

  store_inline-HasJobs : (j : String) (c : Option PushConfig) → Steady HasJobs (store_inline j c)
  unfolding store_inline
  store_inline-HasJobs j none = record { holds = λ w p. p }
  store_inline-HasJobs j (some c) = record { holds = λ w p. p }

-- A coroutine that starts exactly the job, if it gets so far.
record Starts {A : Type 0} (job : Background) (m : Act A) : Type 0 where
  starts : (w : World) → (m w).1.background ≡ w.background ++ job ∷ []

-- Whether the tenant of a message is stored, and what the storage answers.
module _ (wanted : Bool) (k : String) (tenant : Option String) (w : World) where
  abbrev pub Refused : Error → Type 0
  Refused e =
      ((wanted && truthy tenant) ≡ true)
      × ((store k (tenant_update (text_or tenant "")) w).0 ≡ err e)

  abbrev pub Tagged : Type 0
  Tagged =
      ((wanted && truthy tenant) ≡ false)
      ⊎ ((v : ℕ) × ((store k (tenant_update (text_or tenant "")) w).0 ≡ ok v))

  -- Either storing the tenant raised, which leaves the call with nothing started; or it did not, or
  -- there was none to store, and exactly the jobs were started.
  abbrev pub Sends : {A : Type 0} → List Background → Result A × World → Type 0
  Sends jobs out =
      ((e : Error) × Refused e × (out.0 ≡ err e) × (out.1.background ≡ w.background))
      ⊎ (Tagged × (out.1.background ≡ w.background ++ jobs))
