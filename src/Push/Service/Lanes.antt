-- ===== src/Push/Service/Lanes.antt =====
-- The lanes of the service are independent of each other.
use a2akit.Prelude.{
  ℕ, ◌≡◌, ◌↔◌, refl, ap, ◌∙◌, Bool-cases, Option-cases, inl, inr, true, eq_iff, Option, none, some,
  List, [], ◌∷◌, ◌++◌, if◌then◌else◌, arith,
}
use a2akit.Wire.{Task}
use a2akit.Push.Store.{TaskPushConfig}
use a2akit.Push.Lane.{Item}
use a2akit.Push.Service.{
  Worker, Key, Workers, same_key, find, remove, is_done, started, serving, ensure, offered,
  enqueue_at, key_of, deliver,
}

same_key_iff : (k j : Key) → (same_key k j ≡ true) ↔ (k ≡ j)
same_key_iff (a, b) (c, d) = ground (arith, eq_iff a c, eq_iff b d)

same_key_refl : (k : Key) → same_key k k ≡ true
same_key_refl k = (same_key_iff k k).1 refl

find-remove :
    (ws : Workers) (k j : Key) → find (remove ws k) j ≡ (if same_key k j then none else find ws j)
unfolding find remove
find-remove [] k j = ground arith
find-remove ((i, w) ∷ ws) k j =
    ground (arith, same_key_iff i k, same_key_iff i j, same_key_iff k j, find-remove ws k j)

or_else : Option Worker → Option Worker → Option Worker
or_else none o = o
or_else (some w) o = some w

or_else-none : (o : Option Worker) → or_else o none ≡ o
unfolding or_else
or_else-none none = refl
or_else-none (some w) = refl

abbrev offered? : ℕ → Item → Option Worker → Option Worker
offered? m x none = none
offered? m x (some w) = some (offered m w x)

find-append : (ws vs : Workers) (j : Key) → find (ws ++ vs) j ≡ or_else (find ws j) (find vs j)
unfolding find or_else
find-append [] vs j = refl
find-append ((i, v) ∷ ws) vs j = ground (arith, find-append ws vs j)

-- A started worker serves its key; the other keys are as before.
find-started :
    (ws : Workers) (k j : Key) (w : Worker)
    → find (remove ws k ++ (k, w) ∷ []) j ≡ (if same_key k j then some w else find ws j)
unfolding find or_else
find-started ws k j w =
    ground (
      arith,
      find-append (remove ws k) ((k, w) ∷ []) j,
      find-remove ws k j,
      or_else-none (find ws j),
    )

find-ensure :
    (ws : Workers) (k j : Key) (c : TaskPushConfig)
    → find (ensure ws k c) j ≡ (if same_key k j then some (serving c (find ws k)) else find ws j)
unfolding ensure
find-ensure ws k j c = elim (Option-cases (find ws k)) [
  | inl n ↦ rw (ensure, n) (find-started ws k j (started c))
  | inr (w, n) ↦ elim (Bool-cases (is_done w.lane.phase)) [
    | inl t ↦ rw (ensure, n) (rw t (find-started ws k j (started c)))
    | inr f ↦ ground (arith, n, f, same_key_iff k j)
  ]
]

find-enqueue_at :
    (m : ℕ) (ws : Workers) (k j : Key) (x : Item)
    → find (enqueue_at m ws k x) j ≡ (if same_key k j then offered? m x (find ws j) else find ws j)
unfolding find enqueue_at
find-enqueue_at m [] k j x = ground arith
find-enqueue_at m ((i, w) ∷ ws) k j x =
    ground (arith, same_key_iff i k, same_key_iff i j, same_key_iff k j, find-enqueue_at m ws k j x)

-- What becomes of the worker under `j` when the configurations are served one after the other.
unfoldable pub offers : ℕ → Task → List TaskPushConfig → Key → Option Worker → Option Worker
offers m t [] j o = o
offers m t (c ∷ cs) j o =
    offers m t cs j (if same_key (key_of t c) j then some (offered m (serving c o) (some t)) else o)

find-offered :
    (m : ℕ) (ws : Workers) (k j : Key) (c : TaskPushConfig) (x : Item)
    → find (enqueue_at m (ensure ws k c) k x) j
      ≡ (if same_key k j then some (offered m (serving c (find ws j)) x) else find ws j)
find-offered m ws k j c x =
    ground (arith, find-enqueue_at m (ensure ws k c) k j x, find-ensure ws k j c, same_key_iff k j)

-- A delivery changes the worker under a key only by the configurations that have this key: each
-- offers the snapshot to the worker that is there, or to a fresh one where there is none or it has
-- left.
pub find-deliver :
    (m : ℕ) (t : Task) (cs : List TaskPushConfig) (ws : Workers) (j : Key)
    → find (deliver m ws cs t) j ≡ offers m t cs j (find ws j)
unfolding deliver offers
find-deliver m t [] ws j = refl
find-deliver m t (c ∷ cs) ws j =
    find-deliver m t cs _ j ∙ ap (offers m t cs j) (find-offered m ws (key_of t c) j c (some t))
