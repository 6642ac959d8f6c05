-- ===== src/Dependencies/Once.antt =====
-- A startup and the shutdown after it.
use mathlib.Core.List.{reverse}
use a2akit.Prelude.{
  ℕ, ◌+◌, ◌≡◌, refl, ap, ◌∙◌, true, false, inl, inr, Option, List, [], ◌∷◌, map, any, eqb,
  if◌then◌else◌,
}
use a2akit.Errors.{Error, ok}
use a2akit.Dependencies.{Value, Container, Call, startup_of, shutdown_of, values, startup, shutdown}
use a2akit.Dependencies.Order.{
  distinct, Uncancelled, stop_all-all, startup-Settled, occurrences, is_dependency, once,
  occurrences-distinct, any-reverse,
}

abbrev pub startups : ℕ → List Call → ℕ
startups i [] = 0
startups i (startup_of j ∷ calls) = (if eqb i j then 1 else 0) + startups i calls
startups i (shutdown_of j ∷ calls) = startups i calls

abbrev pub shutdowns : ℕ → List Call → ℕ
shutdowns i [] = 0
shutdowns i (startup_of j ∷ calls) = shutdowns i calls
shutdowns i (shutdown_of j ∷ calls) = (if eqb i j then 1 else 0) + shutdowns i calls

startups-map : (i : ℕ) (ds : List ℕ) → startups i (map startup_of ds) ≡ occurrences i ds
startups-map i [] = refl
startups-map i (d ∷ ds) = ap (λ n. (if eqb i d then 1 else 0) + n) (startups-map i ds)

shutdowns-map : (i : ℕ) (ds : List ℕ) → shutdowns i (map shutdown_of ds) ≡ occurrences i ds
shutdowns-map i [] = refl
shutdowns-map i (d ∷ ds) = ap (λ n. (if eqb i d then 1 else 0) + n) (shutdowns-map i ds)

occurrences-values :
    (i : ℕ) (vs : List Value) → occurrences i (distinct [] vs) ≡ once (any (is_dependency i) vs)
occurrences-values i vs = occurrences-distinct i vs []

-- The shutdown of a started container calls each dependency once, in the order of the first places
-- in the reversed registry, and the container is then not started.
shutdown-all :
    (stops : ℕ → Option Error) (c : Container)
    → Uncancelled stops
    → c.started ≡ true
    → shutdown stops c ≡ (
      ok tt,
      map shutdown_of (distinct [] (reverse (values c.registry))),
      record c { started = false },
    )
unfolding shutdown
shutdown-all stops c calm t =
    rw (shutdown, t, stop_all-all stops calm (reverse (values c.registry)) []) refl

-- When a startup of a container that is not started succeeds, and no shutdown is cancelled, the
-- shutdown after it succeeds and leaves the container not started; a dependency is started and shut
-- down once if it is registered, under however many keys, and else never.
pub shutdown-startup :
    (starts stops : ℕ → Option Error) (c : Container) (i : ℕ)
    → Uncancelled stops
    → c.started ≡ false
    → (startup starts stops c).0 ≡ ok tt
    → let up = startup starts stops c in
      let down = shutdown stops up.2 in
      (down.0 ≡ ok tt)
      × (down.2.started ≡ false)
      × (startups i up.1 ≡ once (any (is_dependency i) (values c.registry)))
      × (shutdowns i down.1 ≡ once (any (is_dependency i) (values c.registry)))
shutdown-startup starts stops c i calm f h = elim (startup-Settled starts stops c calm f) [
  | inl (all, e) ↦
      let down = shutdown-all stops (record c { started = true }) calm refl in
      rw e (
        rw down (
          refl,
          refl,
          startups-map i (distinct [] (values c.registry))
              ∙ occurrences-values i (values c.registry),
          shutdowns-map i (distinct [] (reverse (values c.registry)))
              ∙ (occurrences-values i (reverse (values c.registry))
                  ∙ ap once (any-reverse (is_dependency i) (values c.registry))),
        ))
  | inr (good, j, rest, x, split, all, fails, e) ↦ cc
]
