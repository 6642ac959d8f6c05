-- ===== src/Push/Store.antt =====
-- push/store.py: `InMemoryPushConfigStore`. The fresh uuid is an argument.
pub mod Laws
use a2akit.Prelude.{
  ℕ, String, Bool, false, Option, none, some, List, [], ◌∷◌, length, ◌==◌, if◌then◌else◌, is_some,
}
use a2akit.Dict
use a2akit.Dict.{Dict}

-- push/models.py
pub record AuthenticationInfo : Type 0 where
  pub schemes : List String
  pub credentials : Option String

pub record PushConfig : Type 0 where
  pub id : Option String
  pub url : String
  pub token : Option String
  pub authentication : Option AuthenticationInfo

pub record TaskPushConfig : Type 0 where
  pub task_id : String
  pub config : PushConfig

abbrev pub PushStore : Type 0
PushStore = Dict (Dict TaskPushConfig)

-- `x or y`, for a text
abbrev pub text_or : Option String → String → String
text_or none y = y
text_or (some s) y = if s == "" then y else s

abbrev configs_of : PushStore → String → Dict TaskPushConfig
configs_of store task_id = Dict.get_or store task_id []

unfoldable pub set_config : PushStore → String → PushConfig → String → TaskPushConfig × PushStore
set_config store task_id c fresh =
    let config_id : String = text_or c.id fresh in
    let bound : TaskPushConfig = record {
      task_id = task_id;
      config = record c { id = some config_id };
    } in
    (bound, Dict.set store task_id (Dict.set (configs_of store task_id) config_id bound))

abbrev head? {ℓ} : {A : Type ℓ} → List A → Option A
head? [] = none
head? (x ∷ xs) = some x

-- `if config_id:` is false of None and of the empty text
unfoldable pub get_config : PushStore → String → Option String → Option TaskPushConfig
get_config store task_id none = head? (Dict.values (configs_of store task_id))
get_config store task_id (some config_id) =
    if config_id == ""
    then head? (Dict.values (configs_of store task_id))
    else Dict.get (configs_of store task_id) config_id

-- also `get_configs_for_delivery`
unfoldable pub list_configs : PushStore → String → List TaskPushConfig
list_configs store task_id = Dict.values (configs_of store task_id)

-- the pop changes the task's own dictionary, where it has one
unfoldable pub delete_config : PushStore → String → String → Bool × PushStore
delete_config store task_id config_id = elim (Dict.get store task_id) [
  | none ↦ (false, store)
  | some configs ↦
      (is_some (Dict.get configs config_id), Dict.set store task_id (Dict.pop configs config_id))
]

unfoldable pub delete_configs_for_task : PushStore → String → ℕ × PushStore
delete_configs_for_task store task_id = (length (configs_of store task_id), Dict.pop store task_id)
