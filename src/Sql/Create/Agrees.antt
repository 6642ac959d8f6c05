-- ===== src/Sql/Create/Agrees.antt =====
-- Creation in a SQL table and in memory.
use a2akit.Prelude.{
  ℕ, String, ◌≡◌, ◌∙◌, refl, sym, subst, ap, Bool-cases, Option-cases, inl, inr, true, false, ◌==◌,
  eq_refl, Option, none, some, [], ◌∷◌, first, if◌then◌else◌, arith,
}
use a2akit.Dict
use a2akit.Dict.{get-set}
use a2akit.Wire.{Message, Task}
use a2akit.Errors.{Result, ok}
use a2akit.Push.Store.{text_or}
use a2akit.Storage
use a2akit.Storage.{Storage, new_task, mark_created, insert_task, find_idempotent, has_key}
use a2akit.Storage.Create.{first-values-set}
use a2akit.Sql.{Row, Table, row_to_task}
use a2akit.Sql.Abstract.{abstract, map_values, map_values-set}
use a2akit.Sql.Create.{
  new_row, has_row, find_row, insert_or_ignore, marked, loaded, create_keyed, create_plain,
  create_task,
}

-- Of every row: its key is the one that its metadata has, as far as the key that is asked for goes,
-- and the fresh identifier is not its own.
abbrev pub Keyed : String → String → String → Table → Type 0
Keyed context_id key fresh [] = Unit
Keyed context_id key fresh ((j, r) ∷ table) =
    (has_key context_id key (row_to_task r) ≡ has_row context_id key r)
    × ((r.id == fresh) ≡ false)
    × ((j == fresh) ≡ false)
    × Keyed context_id key fresh table

abbrev task_of : Option Row → Option Task
task_of none = none
task_of (some r) = some (row_to_task r)

some_injective : {A : Type 0} {a b : A} → some a ≡ some b → a ≡ b
some_injective e = cc

module _ (context_id key fresh : String) where
  first-map_values :
      (table : Table)
      → Keyed context_id key fresh table
      → first (has_key context_id key) (Dict.values (map_values row_to_task table))
        ≡ task_of (find_row table context_id key)
  first-map_values [] h = refl
  first-map_values ((j, r) ∷ table) (same, other, key_other, h) =
      elim (Bool-cases (has_row context_id key r)) [
        | inl t ↦ rw (same, t) refl
        | inr f ↦ rw (same, f) (first-map_values table h)
      ]

  get-fresh : (table : Table) → Keyed context_id key fresh table → Dict.get table fresh ≡ none
  unfolding Dict.get
  get-fresh [] h = refl
  get-fresh ((j, r) ∷ table) (same, other, key_other, h) = rw key_other (get-fresh table h)

  find_row-other :
      (table : Table) (r : Row)
      → Keyed context_id key fresh table
      → find_row table context_id key ≡ some r
      → (r.id == fresh) ≡ false
  find_row-other [] r h e = cc
  find_row-other ((j, s) ∷ table) r (same, other, key_other, h) e =
      elim (Bool-cases (has_row context_id key s)) [
        | inl t ↦ subst (λ x. (x.id == fresh) ≡ false) (some_injective (rw t at e)) other
        | inr f ↦ find_row-other table r h (rw f at e)
      ]

module _ (table : Table) (r : Row) where
  loaded-new :
      loaded (λ t. t) r.id (Dict.set table r.id r)
      ≡ (ok (mark_created (row_to_task r)), Dict.set table r.id r)
  loaded-new =
      let found : Dict.get (Dict.set table r.id r) r.id ≡ some r =
        get-set table r.id r.id r ∙ rw (eq_refl r.id) refl in
      ap (marked (Dict.set table r.id r)) found

  create_plain-new :
      Dict.get table r.id ≡ none
      → create_plain (λ t. t) table r ≡ (ok (mark_created (row_to_task r)), Dict.set table r.id r)
  unfolding create_plain
  create_plain-new free = rw (create_plain, free) loaded-new

  create_keyed-hit :
      (context_id key : String) (old : Row)
      → find_row table context_id key ≡ some old
      → (old.id == r.id) ≡ false
      → create_keyed (λ t. t) table context_id key r ≡ (ok (row_to_task old), table)
  unfolding insert_or_ignore
  create_keyed-hit context_id key old hit other = rw (insert_or_ignore, hit) (rw (hit, other) refl)

  create_keyed-new :
      (context_id key : String)
      → find_row table context_id key ≡ none
      → has_row context_id key r ≡ true
      → Dict.get table r.id ≡ none
      → create_keyed (λ t. t) table context_id key r
        ≡ (ok (mark_created (row_to_task r)), Dict.set table r.id r)
  unfolding insert_or_ignore
  create_keyed-new context_id key miss has free =
      let own = first-values-set (has_row context_id key) table r.id r miss has in
      rw (insert_or_ignore, miss, free) (rw (own, eq_refl r.id) loaded-new)

  both :
      {tasks tasks' : Dict.Dict Task} {versions versions' : Dict.Dict ℕ}
      → tasks ≡ tasks'
      → versions ≡ versions'
      → ◌≡◌ {A = Storage}
          (record { tasks = tasks; contexts = []; versions = versions })
          (record { tasks = tasks'; contexts = []; versions = versions' })
  both e f = rw (e, f) refl

  abstract-set :
      r.version ≡ 1
      → abstract (Dict.set table r.id r) ≡ record (abstract table) {
        tasks = Dict.set (abstract table).tasks r.id (row_to_task r);
        versions = Dict.set (abstract table).versions r.id 1;
      }
  abstract-set one =
      let versions : map_values (λ x. x.version) (Dict.set table r.id r)
          ≡ Dict.set (map_values (λ x. x.version) table) r.id 1 =
        map_values-set (λ x. x.version) table r.id r
        ∙ ap (λ v. Dict.set (map_values (λ x. x.version) table) r.id v) one in
      both (map_values-set row_to_task table r.id r) versions

-- The result of the SQL storage and that of the in-memory one.
abbrev pub Agrees : Task × Storage → Result Task × Table → Type 0
Agrees (t, st) (r, table) = (r ≡ ok t) × (abstract table ≡ st)

module _ (table : Table) (context_id : String) (m : Message) (now fresh : String) where
  created-Agrees :
      (key row_key : Option String) (out : Result Task × Table)
      → let r = new_row fresh context_id m row_key now in
        out ≡ (ok (mark_created (row_to_task r)), Dict.set table fresh r)
        → find_idempotent (abstract table).tasks context_id key ≡ none
        → row_to_task r ≡ new_task fresh context_id m key now
        → Agrees (Storage.create_task (abstract table) context_id m key now fresh) out
  unfolding Storage.create_task new_row row_to_task
  created-Agrees key row_key out e miss same =
      rw (e, Storage.create_task, miss)
        (
          ap (λ t. ok (mark_created t)) same,
          abstract-set table (new_row fresh context_id m row_key now) refl
              ∙ ap (insert_task (abstract table)) same,
        )

  empty_key :
      (key : String)
      → (key == "") ≡ true
      → row_to_task (new_row fresh context_id m none now)
        ≡ new_task fresh context_id m (some key) now
  unfolding new_row row_to_task new_task
  empty_key key t = rw t refl

  create_keyed-Agrees :
      (key : String)
      → (key == "") ≡ false
      → Keyed context_id key fresh table
      → Agrees
          (Storage.create_task (abstract table) context_id m (some key) now fresh)
          (create_keyed (λ t. t) table context_id key (new_row fresh context_id m (some key) now))
  unfolding Storage.create_task find_idempotent new_row row_to_task new_task has_row
  create_keyed-Agrees key named h =
      let r = new_row fresh context_id m (some key) now in
      let lookup = first-map_values context_id key fresh table h in
      elim (Option-cases (find_row table context_id key)) [
        | inl miss ↦
            created-Agrees (some key) (some key) _
              (create_keyed-new table r context_id key miss
                (ground (arith, eq_refl context_id, eq_refl key))
                (get-fresh context_id key fresh table h))
              (rw (find_idempotent, named) (lookup ∙ ap task_of miss)) refl
        | inr (old, hit) ↦
            let found : find_idempotent (abstract table).tasks context_id (some key)
                ≡ some (row_to_task old) =
              rw (find_idempotent, named) (lookup ∙ ap task_of hit) in
            rw
              (
                create_keyed-hit table r context_id key old hit
                    (find_row-other context_id key fresh table old h hit),
                Storage.create_task,
                found,
              )
              (refl, refl)
      ]

create_task-named :
    (between : Table → Table) (table : Table) (c : String) (m : Message) (key now fresh : String)
    → (key == "") ≡ false
    → create_task between table c m (some key) now fresh
      ≡ create_keyed between table c key (new_row fresh c m (some key) now)
unfolding create_task
create_task-named between table c m key now fresh named =
    ap
      (λ b.
        if b
        then create_plain between table (new_row fresh c m none now)
        else create_keyed between table c key (new_row fresh c m (some key) now))
      named

-- With no other session at work between the insertion and the SELECT, on a table whose rows have
-- the key of their metadata and none has the fresh identifier: a creation returns the task that the
-- in-memory storage returns, an old one or a new one, and leaves the same tasks and versions.
pub create_task-Agrees :
    (table : Table) (context_id : String) (m : Message) (key : Option String) (now fresh : String)
    → Keyed context_id (text_or key "") fresh table
    → Agrees
        (Storage.create_task (abstract table) context_id m key now fresh)
        (create_task (λ t. t) table context_id m key now fresh)
unfolding create_task find_idempotent new_row row_to_task new_task
create_task-Agrees table c m none now fresh h =
    created-Agrees table c m now fresh none none _
      (create_plain-new table (new_row fresh c m none now) (get-fresh c "" fresh table h)) refl refl
create_task-Agrees table c m (some key) now fresh h = elim (Bool-cases (key == "")) [
  | inl t ↦
      rw (create_task, t)
        (created-Agrees table c m now fresh (some key) none _
          (create_plain-new table (new_row fresh c m none now) (get-fresh c _ fresh table h))
          (rw (find_idempotent, t) refl) (empty_key table c m now fresh key t))
  | inr named ↦
      subst (Agrees (Storage.create_task (abstract table) c m (some key) now fresh))
        (sym (create_task-named (λ t. t) table c m key now fresh named))
        (create_keyed-Agrees table c m now fresh key named (rw named at h))
]
