-- ===== src/Dict.antt =====
-- Python's `dict` with string keys, as a list of entries in insertion order: an assignment to a
-- key that is there keeps the key's place, and iteration follows the list.
use a2akit.Prelude.{
  String, ◌≡◌, ◌∙◌, refl, Option, none, some, List, [], ◌∷◌, arith, ◌==◌, eq_iff, if◌then◌else◌,
}

abbrev pub Dict {ℓ} : Type ℓ → Type ℓ
Dict V = List (String × V)

module _ {ℓ} {V : Type ℓ} where
  -- d.get(k)
  unfoldable pub get : Dict V → String → Option V
  get [] k = none
  get ((j, v) ∷ d) k = if j == k then some v else get d k

  -- d[k] = v
  unfoldable pub set : Dict V → String → V → Dict V
  set [] k v = (k, v) ∷ []
  set ((j, w) ∷ d) k v = if j == k then (j, v) ∷ d else (j, w) ∷ set d k v

  -- d.pop(k, None)
  unfoldable pub pop : Dict V → String → Dict V
  pop [] k = []
  pop ((j, w) ∷ d) k = let rest = pop d k in if j == k then rest else (j, w) ∷ rest

  -- d.get(k, default)
  abbrev pub get_or : Dict V → String → V → V
  get_or d k v = elim (get d k) [ none ↦ v | some w ↦ w ]

  -- list(d.values())
  abbrev pub values : Dict V → List V
  values [] = []
  values ((k, v) ∷ d) = v ∷ values d

  -- d.update(e)
  abbrev pub update : Dict V → Dict V → Dict V
  update d [] = d
  update d ((k, v) ∷ e) = update (set d k v) e

  pub get-set :
      (d : Dict V) (k j : String) (v : V) → get (set d k v) j ≡ (if k == j then some v else get d j)
  unfolding get set
  get-set [] k j v = refl
  get-set ((i, w) ∷ d) k j v = ground (arith, eq_iff k j, eq_iff i k, eq_iff i j, get-set d k j v)

  pub get-pop : (d : Dict V) (k j : String) → get (pop d k) j ≡ (if k == j then none else get d j)
  unfolding get pop
  get-pop [] k j = ground arith
  get-pop ((i, w) ∷ d) k j = ground (arith, eq_iff k j, eq_iff i k, eq_iff i j, get-pop d k j)

module _ {ℓ} {V : Type ℓ} where
  get-set_other :
      (d : Dict V) (k j : String) (v : V) (e : Dict V)
      → get ((j, v) ∷ e) k ≡ none
      → (get (set d j v) k ≡ get d k) × (get e k ≡ none)
  unfolding get
  get-set_other d k j v e h = ground (arith, get-set d j k v)

  -- `d.update(e)` keeps what `e` has no key for.
  pub get-update_other : (d e : Dict V) (k : String) → get e k ≡ none → get (update d e) k ≡ get d k
  get-update_other d [] k h = refl
  get-update_other d ((j, v) ∷ e) k h =
      let (kept, rest) = get-set_other d k j v e h in get-update_other (set d j v) e k rest ∙ kept

pub get-nil {ℓ} : {V : Type ℓ} (k : String) → get {V = V} [] k ≡ none
unfolding get
get-nil k = refl

pub ruleset dict_laws = (get-nil, get-set, get-pop)
