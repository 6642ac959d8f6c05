-- ===== src/Sql/Abstract.antt =====
-- The table as the in-memory storage sees it, and sessions that keep to the versions.
use a2akit.Prelude.{
  ℕ, ◌+◌, String, ◌≡◌, inl, inr, refl, sym, ap, ◌∙◌, true, none, some, [], ◌∷◌, ◌==◌, eqb, eqb_iff,
  arith, Bool-cases, eq_iff,
}
use a2akit.Dict
use a2akit.Dict.{Dict, get-set}
use a2akit.Storage.{Storage}
use a2akit.Sql.{Row, Table, Values, row_to_task, write_values, update_where}

module _ {V W : Type 0} (f : V → W) where
  abbrev pub map_values : Dict V → Dict W
  map_values [] = []
  map_values ((k, v) ∷ d) = (k, f v) ∷ map_values d

  pub get-map_values :
      (d : Dict V) (k : String)
      → Dict.get (map_values d) k ≡ elim (Dict.get d k) [ none ↦ none | some v ↦ some (f v) ]
  unfolding Dict.get
  get-map_values [] k = refl
  get-map_values ((j, v) ∷ d) k = elim (Bool-cases (j == k)) [
    | inl e ↦ rw e refl
    | inr e ↦ rw e (get-map_values d k)
  ]

  pub map_values-set :
      (d : Dict V) (k : String) (v : V)
      → map_values (Dict.set d k v) ≡ Dict.set (map_values d) k (f v)
  unfolding Dict.set
  map_values-set [] k v = refl
  map_values-set ((j, w) ∷ d) k v = elim (Bool-cases (j == k)) [
    | inl e ↦ rw e refl
    | inr e ↦ rw e (ap (◌∷◌ (j, f w)) (map_values-set d k v))
  ]

-- The table as the in-memory storage's state.
abbrev pub abstract : Table → Storage
abstract table = record {
  tasks = map_values row_to_task table;
  contexts = [];
  versions = map_values (λ r. r.version) table;
}

-- What another session does to a row: a row whose version is the same is the same row.
abbrev pub Versioned : String → (Table → Table) → Type 0
Versioned k f =
    (table : Table) (r r' : Row)
    → Dict.get table k ≡ some r
    → Dict.get (f table) k ≡ some r'
    → r'.version ≡ r.version
    → r' ≡ r

some_injective : {A : Type 0} {a b : A} → some a ≡ some b → a ≡ b
some_injective e = cc

-- An UPDATE that moves the version on keeps to the versions.
pub update_where-Versioned :
    (k : String) (n : ℕ) (v : Values)
    → v.version ≡ n + 1
    → Versioned k (λ table. (update_where table k n v).1)
unfolding update_where write_values
update_where-Versioned k n v bump table r r' found after same =
    elim (Bool-cases (eqb r.version n)) [
      | inr f ↦
          let kept : some r ≡ some r' = sym found ∙ (rw f at (rw (update_where, found) at after)) in
          sym (some_injective kept)
      | inl t ↦
          let here : (k == k) ≡ true = (eq_iff k k).1 refl in
          let written : Dict.get (Dict.set table k (write_values v r)) k ≡ some r' =
            rw t at (rw (update_where, found) at after) in
          let new : some (write_values v r) ≡ some r' =
            sym (get-set table k k (write_values v r) ∙ rw here refl) ∙ written in
          let moved : v.version ≡ r'.version = ap (λ x. x.version) (some_injective new) in
          absurd (ground (arith, moved, same, bump, eqb_iff r.version n, t))
    ]
