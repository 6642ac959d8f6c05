-- ===== src/Sql/Refines.antt =====
-- The SQL storage against the in-memory storage: an accepted write is the in-memory write, done at
-- once on the table as it was when the UPDATE ran.
use a2akit.Prelude.{
  ℕ, zero, suc, ◌+◌, String, ◌≡◌, ◌⊎◌, inl, inr, refl, ap, subst, ◌∙◌, Bool, true, false, ◌||◌,
  Option, none, some, eqb, eqb_iff, if◌then◌else◌, arith, Bool-cases, Option-cases, is_some,
}
use a2akit.Dict
use a2akit.Dict.{Dict}
use a2akit.Wire.{Task, TaskState}
use a2akit.Errors.{Error, Result, Result-cases, ok, err, ok-injective, task_not_found, ◌>>=◌, ◌>>◌}
use a2akit.Storage.Update
use a2akit.Storage.Update.{
  Update, check_version, check_terminal, get_task_or_raise, apply_update, version_of,
}
use a2akit.Sql.{
  Row, Table, Values, Gap, row_to_task, write_values, merged_values, update_where, check_expected,
  check_state, prepared, finish_attempt, attempt, attempts, after_attempt, update_task,
}
use a2akit.Sql.Abstract.{map_values, get-map_values, map_values-set, abstract, Versioned}
use a2akit.Sql.Merge.{apply_update-merged_values, merged_values-version}

check_version-check_expected : (v : Option ℕ) (c : ℕ) → check_version v c ≡ check_expected v c
unfolding check_version check_expected
check_version-check_expected none c = refl
check_version-check_expected (some v) c = ground arith

check_terminal-check_state :
    (s : Option TaskState) (c : TaskState) → check_terminal s c ≡ check_state s c
unfolding check_terminal check_state
check_terminal-check_state none c = refl
check_terminal-check_state (some s) c = refl

-- What the in-memory storage is about to store, from what was prepared.
abbrev work_of : Row × Values → Result (Task × ℕ)
work_of p = ok (row_to_task (write_values p.1 p.0), p.1.version)

abbrev checked : Row → Update → Result (Row × Values) → Result (Row × Values)
checked r u next =
    check_expected u.expected_version r.version >> (check_state u.state r.status_state >> next)

module _ (table : Table) (k : String) (r : Row) (u : Update) (now : String)
    (found : Dict.get table k ≡ some r) where
  task_found : Dict.get (map_values row_to_task table) k ≡ some (row_to_task r)
  task_found = get-map_values row_to_task table k ∙ rw found refl

  version_got : Dict.get (abstract table).versions k ≡ some r.version
  version_got = get-map_values (λ x. x.version) table k ∙ rw found refl

  version_found : version_of (abstract table) k ≡ r.version
  version_found = ap (λ o. elim o [ none ↦ 1 | some w ↦ w ]) version_got

  task_raised : get_task_or_raise (abstract table) k ≡ ok (row_to_task r)
  unfolding get_task_or_raise
  task_raised = ap (λ o. elim o [ none ↦ err task_not_found | some t ↦ ok t ]) task_found

  merged-work :
      (m : Result Values)
      → ((v : Values) → m ≡ ok v → v.version ≡ r.version + 1)
      → ((m >>= λ v. ok (row_to_task (write_values v r))) >>= λ work. ok (work, r.version + 1))
        ≡ ((m >>= λ v. ok (r, v)) >>= work_of)
  merged-work (err e) bump = refl
  merged-work (ok v) bump = rw (← bump v refl) refl

  updated-prepared : Update.updated (abstract table) k u now ≡ (prepared (some r) u now >>= work_of)
  unfolding Update.updated prepared row_to_task
  updated-prepared =
      rw
        (
          task_raised,
          version_found,
          check_version-check_expected u.expected_version r.version,
          check_terminal-check_state u.state r.status_state,
          apply_update-merged_values r u now,
        )
        (after (check_expected u.expected_version r.version) (check_state u.state r.status_state))
    where
      after :
          (a b : Result (Unit {0}))
          → (a
              >> (b
                  >> ((merged_values r u now >>= λ v. ok (row_to_task (write_values v r)))
                      >>= λ work. ok (work, r.version + 1))))
            ≡ ((a >> (b >> (merged_values r u now >>= λ v. ok (r, v)))) >>= work_of)
      after (err e) b = refl
      after (ok x) (err e) = refl
      after (ok x) (ok y) = merged-work (merged_values r u now) (merged_values-version r u now)

abbrev with_row : Row → Values → Row × Values
with_row r v = (r, v)

prepared-row :
    (r r' : Row) (u : Update) (now : String) (v : Values)
    → prepared (some r) u now ≡ ok (r', v)
    → r' ≡ r
unfolding prepared
prepared-row r r' u now v h =
    go (check_expected u.expected_version r.version) (check_state u.state r.status_state)
      (merged_values r u now) h
  where
    go :
        (a b : Result (Unit {0})) (m : Result Values)
        → (a >> (b >> (m >>= λ x. ok (with_row r x)))) ≡ ok (r', v)
        → r' ≡ r
    go (err e) b m q = cc
    go (ok x) (err e) m q = cc
    go (ok x) (ok y) (err e) q = cc
    go (ok x) (ok y) (ok z) q = cc

-- The write that was prepared on a row is the in-memory write, on any table that holds the row.
stored-prepared :
    (table : Table) (k : String) (r : Row) (u : Update) (now : String) (v : Values)
    → Dict.get table k ≡ some r
    → prepared (some r) u now ≡ ok (r, v)
    → Update.update_task (abstract table) k u now
      ≡ (ok v.version, abstract (Dict.set table k (write_values v r)))
unfolding Update.update_task Update.commit write_values
stored-prepared table k r u now v found p =
    rw (updated-prepared table k r u now found, p)
      (rw
        (
          map_values-set row_to_task table k (write_values v r),
          map_values-set (λ x. x.version) table k (write_values v r),
        )
        refl)

update_where-cases :
    (db : Table) (k : String) (n : ℕ) (vals : Values)
    → (update_where db k n vals ≡ (false, db))
      ⊎ ((r : Row) × (Dict.get db k ≡ some r)
          × (r.version ≡ n)
          × (update_where db k n vals ≡ (true, Dict.set db k (write_values vals r))))
unfolding update_where
update_where-cases db k n vals = elim (Option-cases (Dict.get db k)) [
  | inl e ↦ inl (rw (e, update_where) refl)
  | inr (r, e) ↦ elim (Bool-cases (eqb r.version n)) [
    | inl t ↦ inr (r, e, (eqb_iff r.version n).0 t, rw (e, update_where) (rw t refl))
    | inr f ↦ inl (rw (e, update_where) (rw f refl))
  ]
]

prepared-cases :
    (db : Table) (k : String) (u : Update) (now : String)
    → ((e : Error) × (prepared (Dict.get db k) u now ≡ err e))
      ⊎ ((r : Row) × (v : Values) × (Dict.get db k ≡ some r)
          × (prepared (some r) u now ≡ ok (r, v)))
unfolding prepared
prepared-cases db k u now = elim (Option-cases (Dict.get db k)) [
  | inl e ↦ inl (task_not_found, rw e refl)
  | inr (r, e) ↦ elim (Result-cases (prepared (some r) u now)) [
    | inl (x, p) ↦ inl (x, rw e p)
    | inr (rv, p) ↦
        inr (r, rv.1, e, p ∙ ap (λ x. ok (with_row x rv.1)) (prepared-row r rv.0 u now rv.1 p))
  ]
]

-- The write is the in-memory one, done at once on the table `db`.
abbrev pub Linearized : String → Update → ℕ → Table → Table → Type 0
Linearized k u v db after =
    (now : String) × (Update.update_task (abstract db) k u now ≡ (ok v, abstract after))

module _ (k : String) (u : Update) where
  -- The table that the UPDATE of an attempt meets.
  abbrev pub met : Gap → Table → Table
  met g table = g.inside (g.before table)

  -- An attempt raises or misses, and then it has written nothing, or it is linearized.
  attempt-cases :
      (g : Gap) (table : Table)
      → Versioned k g.inside
      → ((e : Error) × (attempt g table k u ≡ (err e, g.before table)))
        ⊎ ((v : ℕ) × ((attempt g table k u ≡ (ok (v, false), met g table))
              ⊎ ((after : Table) × (attempt g table k u ≡ (ok (v, true), after))
                  × Linearized k u v (met g table) after)))
  unfolding attempt finish_attempt
  attempt-cases g table honest = elim (prepared-cases (g.before table) k u g.now) [
    | inl (e, p) ↦ inl (e, rw p refl)
    | inr (r, vals, found, p) ↦ inr (
      vals.version,
      elim (update_where-cases (met g table) k r.version vals) [
        | inl miss ↦ inl (rw found (rw p (rw miss refl)))
        | inr (r', there, same, hit) ↦
            let one : r' ≡ r = honest (g.before table) r r' found there same in
            inr (
              Dict.set (met g table) k (write_values vals r'),
              rw found (rw p (rw hit refl)),
              (
                g.now,
                rw one (stored-prepared (met g table) k r u g.now vals (there ∙ ap some one) p),
              ),
            )
      ],
    )
  ]

  -- What the other sessions have done when the UPDATE of an attempt runs, after some that missed.
  abbrev pub acts : (ℕ → Gap) → ℕ → ℕ → Table → Table
  acts gap zero missed table = table
  acts gap (suc n) zero table = met (gap n) table
  acts gap (suc n) (suc missed) table = acts gap n missed (met (gap n) table)

  linearized :
      (gap : ℕ → Gap) (honest : (n : ℕ) → Versioned k (gap n).inside) (n : ℕ) (table : Table)
      (v : ℕ)
      → (attempts n gap table k u).0 ≡ ok v
      → (missed : ℕ) × Linearized k u v (acts gap n missed table) (attempts n gap table k u).1
  unfolding attempts after_attempt
  linearized gap honest zero table v h = cc
  linearized gap honest (suc n) table v h =
      next (is_some u.expected_version || eqb n 0) (attempt (gap n) table k u)
        (linearized gap honest n (met (gap n) table) v) (attempt-cases (gap n) table (honest n)) h
    where
      next :
          (last : Bool) (tried : Result (ℕ × Bool) × Table)
          → ((attempts n gap (met (gap n) table) k u).0 ≡ ok v
              → (missed : ℕ) × Linearized k u v
                  (acts gap n missed (met (gap n) table))
                  (attempts n gap (met (gap n) table) k u).1)
          → ((e : Error) × (tried ≡ (err e, (gap n).before table)))
            ⊎ ((w : ℕ) × ((tried ≡ (ok (w, false), met (gap n) table))
                  ⊎ ((after : Table) × (tried ≡ (ok (w, true), after))
                      × Linearized k u w (met (gap n) table) after)))
          → (after_attempt last (attempts n gap tried.1 k u) tried).0 ≡ ok v
          → (missed : ℕ) × Linearized k u v
              (acts gap (suc n) missed table)
              (after_attempt last (attempts n gap tried.1 k u) tried).1
      next last tried again (inl (e, p)) q = cc (rw p at q)
      next last tried again (inr (w, inr (after, p, l))) q = rw p (
        zero,
        subst (λ x. Linearized k u x (met (gap n) table) after) (ok-injective (rw p at q)) l,
      )
      next true tried again (inr (w, inl p)) q = cc (rw p at q)
      next false tried again (inr (w, inl p)) q =
          let (missed, l) = again (rw p at q) in rw p (suc missed, l)

-- The SQL storage refines the in-memory storage. A write that returns a version is, whatever other
-- sessions commit between its statements, the in-memory `update_task` done at once on the table that
-- its UPDATE met: the one that the other sessions alone have made of the first table. They keep to
-- the versions: within an attempt, a row with the same version is the same row.
pub update_task_refines :
    (gap : ℕ → Gap) (table : Table) (k : String) (u : Update) (v : ℕ)
    → ((n : ℕ) → Versioned k (gap n).inside)
    → (update_task gap table k u).0 ≡ ok v
    → (missed : ℕ) × Linearized k u v
        (acts k u gap (if is_some u.expected_version then 1 else 8) missed table)
        (update_task gap table k u).1
unfolding update_task
update_task_refines gap table k u v honest h =
    linearized k u gap honest (if is_some u.expected_version then 1 else 8) table v h
