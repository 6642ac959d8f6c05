-- ===== src/Push/Handlers.antt =====
-- push/endpoints.py: the handlers that REST and JSON-RPC share. The body of a request is parsed by
-- pydantic: it is given as the configuration, or as nothing where the validation fails.
pub mod Laws
use a2akit.Prelude.{String, Bool, true, not, Option, none, some, List, is_some, if◌then◌else◌}
use a2akit.Errors.{
  Result, ok, err, task_not_found, push_config_not_found, invalid_params, ◌>>=◌, ◌>>◌, raise_if,
}
use a2akit.Storage.{Storage, load_task}
use a2akit.Push.Store.{
  PushStore, PushConfig, TaskPushConfig, set_config, get_config, list_configs, delete_config,
}
use a2akit.Push.Validation.{Network, Policy, resolve_webhook_url}

-- `if task is None: raise TaskNotFoundError`
abbrev pub require_task : Storage → String → Result (Unit {0})
require_task st task_id = raise_if (not (is_some (load_task st task_id none true))) task_not_found

abbrev pub parsed : Option PushConfig → Result PushConfig
parsed none = err invalid_params
parsed (some c) = ok c

abbrev pub stored :
    PushStore → String → String → Result PushConfig → Result TaskPushConfig × PushStore
stored store task_id fresh (err e) = (err e, store)
stored store task_id fresh (ok c) =
    let (bound, after) = set_config store task_id c fresh in (ok bound, after)

module _ (net : Network) where
  abbrev pub validate_webhook_url : Policy → String → Result Bool
  validate_webhook_url p url = resolve_webhook_url net p url >>= λ r. ok (is_some r)

  -- `policy is not None and not await validate_webhook_url(...)`
  unfoldable pub check_url : Option Policy → String → Result (Unit {0})
  check_url none url = ok tt
  check_url (some p) url =
      validate_webhook_url p url >>= λ valid. raise_if (not valid) invalid_params

  -- The checks of `handle_set_config`, in order.
  unfoldable pub vetted_config :
      Option Policy → Storage → String → Option PushConfig → Result PushConfig
  vetted_config policy st task_id body =
      require_task st task_id >> (parsed body >>= λ c. check_url policy c.url >> ok c)

  unfoldable pub handle_set_config :
      Option Policy
      → Storage
      → PushStore
      → String
      → Option PushConfig
      → String
      → Result TaskPushConfig × PushStore
  handle_set_config policy st store task_id body fresh =
      stored store task_id fresh (vetted_config policy st task_id body)

abbrev found : Option TaskPushConfig → Result TaskPushConfig
found none = err push_config_not_found
found (some c) = ok c

unfoldable pub handle_get_config :
    Storage → PushStore → String → Option String → Result TaskPushConfig
handle_get_config st store task_id config_id =
    require_task st task_id >> found (get_config store task_id config_id)

unfoldable pub handle_list_configs : Storage → PushStore → String → Result (List TaskPushConfig)
handle_list_configs st store task_id = require_task st task_id >> ok (list_configs store task_id)

unfoldable pub handle_delete_config :
    Storage → PushStore → String → String → Result Bool × PushStore
handle_delete_config st store task_id config_id = elim (require_task st task_id) [
  | err e ↦ (err e, store)
  | ok done ↦
      let (deleted, after) = delete_config store task_id config_id in
      (raise_if (not deleted) push_config_not_found >> ok true, after)
]
