-- ===== src/Push/Handlers/Laws.antt =====
-- What the handlers of configurations promise.
use a2akit.Prelude.{String, ◌≡◌, true, Option, none, some, ◌⊎◌, is_some}
use a2akit.Errors.{Error, Result, ok, err}
use a2akit.Storage.{Storage, load_task}
use a2akit.Push.Store.{PushStore, PushConfig, TaskPushConfig, text_or, set_config, get_config}
use a2akit.Push.Validation.{Network, Policy, Resolved}
use a2akit.Push.Validation.Safe.{Accepted}

module _ (net : Network) where
  -- The URL is accepted by the policy that the delivery service published, where there is one.
  abbrev pub Registrable : Option Policy → String → Type 0
  Registrable none url = Unit
  Registrable (some p) url = (r : Resolved) × Accepted net p url r

  -- What is known of a configuration that passes the checks.
  abbrev pub Checked : Option Policy → Storage → String → Option PushConfig → PushConfig → Type 0
  Checked policy st k body c =
      (body ≡ some c) × (is_some (load_task st k none true) ≡ true) × Registrable policy c.url

  -- What a registration comes to.
  abbrev pub Registered :
      Option Policy
      → Storage
      → PushStore
      → String
      → Option PushConfig
      → String
      → Result TaskPushConfig × PushStore
      → Type 0
  Registered policy st store k body fresh out =
      ((e : Error) × (out ≡ (err e, store)))
      ⊎ ((c : PushConfig) × Checked policy st k body c
          × (out.0 ≡ ok (set_config store k c fresh).0)
          × (get_config out.1 k (some (text_or c.id fresh)) ≡ some (set_config store k c fresh).0))
