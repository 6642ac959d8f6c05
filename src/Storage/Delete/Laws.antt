-- ===== src/Storage/Delete/Laws.antt =====
-- What a deletion leaves of the tasks.
use a2akit.Prelude.{
  String, ◌≡◌, refl, Bool, true, false, none, some, arith, List, [], ◌∷◌, any, ◌==◌, if◌then◌else◌,
  Bool-cases, inl, inr,
}
use a2akit.Dict
use a2akit.Dict.{Dict, get-pop}
use a2akit.Wire.{Task}
use a2akit.Push.Store.{PushStore}
use a2akit.Storage.{Storage}
use a2akit.Storage.Delete.{delete_task, delete_context, remove_task, remove_tasks, ids_in_context}

abbrev pub holds : Dict Task → String → Bool
holds d k = elim (Dict.get d k) [ none ↦ false | some t ↦ true ]

-- `delete_task` says whether the task was there, and removes it; the other tasks stay.
pub get-delete_task :
    (st : Storage) (store : PushStore) (k j : String)
    → ((delete_task st (some store) k).0 ≡ holds st.tasks k)
      × (Dict.get (delete_task st (some store) k).1.tasks j
          ≡ (if k == j then none else Dict.get st.tasks j))
unfolding delete_task
get-delete_task st store k j = (ground arith, ground (arith, get-pop st.tasks k j))

get-remove_tasks :
    (st : Storage) (ks : List String) (j : String)
    → Dict.get (remove_tasks st ks).tasks j
      ≡ (if any (λ k. k == j) ks then none else Dict.get st.tasks j)
unfolding remove_tasks
get-remove_tasks st [] j = refl
get-remove_tasks st (k ∷ ks) j =
    ground (arith, get-remove_tasks (remove_task st k) ks j, get-pop st.tasks k j)

-- The key that is found in a dictionary is among the collected ones where its task has the context.
any-ids_in_context :
    (d : Dict Task) (context_id j : String) (t : Task)
    → Dict.get d j ≡ some t
    → (t.context_id == context_id) ≡ true
    → any (λ k. k == j) (ids_in_context d context_id) ≡ true
unfolding ids_in_context Dict.get
any-ids_in_context [] context_id j t h e = cc
any-ids_in_context ((k, t') ∷ d) context_id j t h e =
    ground (arith, any-ids_in_context d context_id j t)

-- A task that is there after `delete_context` was there before, and is not of the context.
pub get-delete_context :
    (st : Storage) (store : PushStore) (context_id j : String) {t : Task}
    → Dict.get (delete_context st (some store) context_id).1.tasks j ≡ some t
    → (Dict.get st.tasks j ≡ some t) × ((t.context_id == context_id) ≡ false)
unfolding delete_context
get-delete_context st store context_id j {t} h =
    let ids = ids_in_context st.tasks context_id in
    elim (Bool-cases (any (λ k. k == j) ids)) [
      | inl gone ↦ ground (arith, get-remove_tasks st ids j)
      | inr kept ↦
          let there : Dict.get st.tasks j ≡ some t = ground (arith, get-remove_tasks st ids j) in
          elim (Bool-cases (t.context_id == context_id)) [
            | inl e ↦ ground (arith, any-ids_in_context st.tasks context_id j t there e)
            | inr e ↦ (there, e)
          ]
    ]
