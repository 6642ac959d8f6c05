-- ===== src/Push/Store/Laws.antt =====
-- What the configuration store promises its clients: the endpoints and the delivery.
use a2akit.Prelude.{
  String, ◌≡◌, refl, sym, ap, suc, false, none, some, arith, [], ◌∷◌, is_some, ◌==◌, eq_iff,
  if◌then◌else◌, length,
}
use a2akit.Dict
use a2akit.Dict.{Dict, get-nil, get-set, get-pop}
use a2akit.Push.Store.{
  PushStore, PushConfig, TaskPushConfig, text_or, set_config, get_config, list_configs,
  delete_config, delete_configs_for_task,
}

length-values : {V : Type 0} (d : Dict V) → length (Dict.values d) ≡ length d
length-values [] = refl
length-values ((k, v) ∷ d) = ap suc (length-values d)

module _ (store : PushStore) (task_id : String) where
  -- A configuration that was set is what a lookup by its identifier returns, with the identifier
  -- filled in; lookups under another task or another identifier are as before.
  pub get-set_config :
      (c : PushConfig) (fresh other : String) (config_id : String)
      → (config_id == "") ≡ false
      → get_config (set_config store task_id c fresh).1 other (some config_id) ≡ (
          if task_id == other
          then (if text_or c.id fresh == config_id
              then some (set_config store task_id c fresh).0
              else get_config store other (some config_id))
          else get_config store other (some config_id))
  unfolding get_config set_config
  get-set_config c fresh other config_id named =
      let (bound, after) = set_config store task_id c fresh in
      let configs = Dict.get_or store task_id [] in
      ground (
        arith,
        eq_iff task_id other,
        get-set store task_id other (Dict.set configs (text_or c.id fresh) bound),
        get-set configs (text_or c.id fresh) config_id bound,
      )

  -- A deletion says whether the configuration was there; after it the configuration is gone, and
  -- the others are as before.
  pub get-delete_config :
      (config_id other j : String)
      → (j == "") ≡ false
      → ((delete_config store task_id config_id).0
          ≡ is_some (Dict.get (Dict.get_or store task_id []) config_id))
        × (get_config (delete_config store task_id config_id).1 other (some j) ≡ (
            if task_id == other
            then (if config_id == j then none else get_config store other (some j))
            else get_config store other (some j)))
  unfolding get_config delete_config
  get-delete_config config_id other j named =
      let configs = Dict.get_or store task_id [] in
      (
        ground (arith, get-nil {V = TaskPushConfig} config_id),
        ground (
          arith,
          eq_iff task_id other,
          get-nil {V = TaskPushConfig} j,
          get-set store task_id other (Dict.pop configs config_id),
          get-pop configs config_id j,
        ),
      )

  -- The cascade leaves the task no configuration, returns how many it had, and keeps the others'.
  pub list-delete_configs_for_task :
      (other : String)
      → (list_configs (delete_configs_for_task store task_id).1 other
          ≡ (if task_id == other then [] else list_configs store other))
        × ((delete_configs_for_task store task_id).0 ≡ length (list_configs store task_id))
  unfolding list_configs delete_configs_for_task
  list-delete_configs_for_task other = (
    ground (arith, eq_iff task_id other, get-pop store task_id other),
    sym (length-values (Dict.get_or store task_id [])),
  )
