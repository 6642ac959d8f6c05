-- ===== src/Dependencies/Order.antt =====
-- Which dependencies are started and shut down, how often and in which order.
use mathlib.Core.List.{reverse, reverse-append, append_assoc, append-nil}
use a2akit.Prelude.{
  ℕ, ◌+◌, ◌≡◌, refl, sym, subst, ap, ◌∙◌, Bool, Bool-cases, Option-cases, true, false, ◌⊎◌, inl,
  inr, Option, none, some, List, [], ◌∷◌, ◌++◌, map, any, any-append, eqb, eqb_iff, if◌then◌else◌,
  arith,
}
use a2akit.Errors.{Error, ok, err, is_cancellation}
use a2akit.Dependencies.{
  Value, dependency, plain, Container, startup_of, shutdown_of, values, is_seen, Progress,
  start_all, stop_each, stop_all, Outcome, startup,
}

-- The dependencies among the values, each at its first place, without those already seen.
abbrev pub distinct : List ℕ → List Value → List ℕ
distinct seen [] = []
distinct seen (plain s ∷ vs) = distinct seen vs
distinct seen (dependency i ∷ vs) =
    let skipped = distinct seen vs in
    let continued = distinct (i ∷ seen) vs in if is_seen i seen then skipped else i ∷ continued

-- No shutdown is cancelled.
abbrev pub Uncancelled : (ℕ → Option Error) → Type 0
Uncancelled stops = (i : ℕ) (e : Error) → stops i ≡ some e → is_cancellation e ≡ false

module _ (starts : ℕ → Option Error) where
  -- The startup of none of them raises.
  abbrev pub AllStart : List ℕ → Type 0
  AllStart [] = Unit
  AllStart (i ∷ is) = (starts i ≡ none) × AllStart is

  -- A loop that started all of `ds`, or the first of them up to one that raised.
  abbrev pub Started : List ℕ → List ℕ → Progress → Type 0
  Started ds done out =
      (AllStart ds × (out ≡ (ok tt, map startup_of ds, done ++ ds)))
      ⊎ ((good : List ℕ) × (i : ℕ) × (rest : List ℕ) × (e : Error) × (ds ≡ good ++ i ∷ rest)
          × AllStart good
          × (starts i ≡ some e)
          × (out ≡ (err e, map startup_of (good ++ i ∷ []), done ++ good)))

  more-Started :
      (i : ℕ) (ds done : List ℕ) (out : Progress)
      → starts i ≡ none
      → Started ds (done ++ i ∷ []) out
      → Started (i ∷ ds) done (out.0, startup_of i ∷ out.1, out.2)
  more-Started i ds done out n (inl (all, e)) = inl (
    (n, all),
    ap (λ o. (o.0, startup_of i ∷ o.1, o.2)) e
        ∙ ap (λ l. (ok tt, startup_of i ∷ map startup_of ds, l)) (append_assoc done (i ∷ []) ds),
  )
  more-Started i ds done out n (inr (good, j, rest, x, split, all, fails, e)) = inr (
    i ∷ good,
    j,
    rest,
    x,
    ap (◌∷◌ i) split,
    (n, all),
    fails,
    ap (λ o. (o.0, startup_of i ∷ o.1, o.2)) e
        ∙ ap (λ l. (err x, startup_of i ∷ map startup_of (good ++ j ∷ []), l))
            (append_assoc done (i ∷ []) good),
  )

  distinct_next :
      (i : ℕ) (vs : List Value) (seen : List ℕ)
      → is_seen i seen ≡ false
      → distinct seen (dependency i ∷ vs) ≡ i ∷ distinct (i ∷ seen) vs
  distinct_next i vs seen f = rw f refl

  start_next :
      (i : ℕ) (vs : List Value) (seen done : List ℕ)
      → is_seen i seen ≡ false
      → starts i ≡ none
      → let out = start_all starts vs (i ∷ seen) (done ++ i ∷ []) in
        start_all starts (dependency i ∷ vs) seen done ≡ (out.0, startup_of i ∷ out.1, out.2)
  unfolding start_all
  start_next i vs seen done f n = rw (f, n) refl

  start_all-Started :
      (vs : List Value) (seen done : List ℕ)
      → Started (distinct seen vs) done (start_all starts vs seen done)
  unfolding start_all
  start_all-Started [] seen done = inl (tt, ap (λ l. (ok tt, [], l)) (sym (append-nil done)))
  start_all-Started (plain s ∷ vs) seen done = start_all-Started vs seen done
  start_all-Started (dependency i ∷ vs) seen done = elim (Bool-cases (is_seen i seen)) [
    | inl t ↦ rw t (start_all-Started vs seen done)
    | inr f ↦ elim (Option-cases (starts i)) [
      | inl n ↦
          subst (λ ds. Started ds done (start_all starts (dependency i ∷ vs) seen done))
            (sym (distinct_next i vs seen f))
            (subst (Started (i ∷ distinct (i ∷ seen) vs) done) (sym (start_next i vs seen done f n))
              (more-Started i _ done _ n (start_all-Started vs (i ∷ seen) (done ++ i ∷ []))))
      | inr (e, n) ↦
          rw (f, n)
            (inr (
              [],
              i,
              distinct (i ∷ seen) vs,
              e,
              refl,
              tt,
              n,
              ap (λ l. (err e, startup_of i ∷ [], l)) (sym (append-nil done)),
            ))
    ]
  ]

module _ (stops : ℕ → Option Error) (calm : Uncancelled stops) where
  stop_each-all : (is : List ℕ) → stop_each stops is ≡ (ok tt, map shutdown_of is)
  unfolding stop_each
  stop_each-all [] = refl
  stop_each-all (i ∷ is) = elim (Option-cases (stops i)) [
    | inl n ↦ rw (n, stop_each-all is) refl
    | inr (e, n) ↦ rw (n, stop_each-all is, calm i e n) refl
  ]

  pub stop_all-all :
      (vs : List Value) (seen : List ℕ)
      → stop_all stops vs seen ≡ (ok tt, map shutdown_of (distinct seen vs))
  unfolding stop_all
  stop_all-all [] seen = refl
  stop_all-all (plain s ∷ vs) seen = stop_all-all vs seen
  stop_all-all (dependency i ∷ vs) seen = elim (Bool-cases (is_seen i seen)) [
    | inl t ↦ rw t (stop_all-all vs seen)
    | inr f ↦ elim (Option-cases (stops i)) [
      | inl n ↦ rw (f, n, stop_all-all vs (i ∷ seen)) refl
      | inr (e, n) ↦ rw (f, n, stop_all-all vs (i ∷ seen), calm i e n) refl
    ]
  ]

-- What a startup comes to: no startup raises and every dependency was started once, in the order of
-- their first places; or one raised, and those before it were shut down in the reverse order.
abbrev pub Settled : (ℕ → Option Error) → Container → Outcome → Type 0
Settled starts c out =
    (AllStart starts (distinct [] (values c.registry))
      × (out
          ≡ (ok tt, map startup_of (distinct [] (values c.registry)), record c { started = true })))
    ⊎ ((good : List ℕ) × (i : ℕ) × (rest : List ℕ) × (e : Error) × (distinct [] (values c.registry)
          ≡ good ++ i ∷ rest)
        × AllStart starts good
        × (starts i ≡ some e)
        × (out ≡ (err e, map startup_of (good ++ i ∷ []) ++ map shutdown_of (reverse good), c)))

-- A container that is not started, where no shutdown is cancelled: either no dependency raises, each
-- is started, once and in the order of their first places, and the container is started; or the
-- first one that raises ends the startup in its exception, those that had started are shut down in
-- the reverse order, once each, the others are never called, and the container is as before.
pub startup-Settled :
    (starts stops : ℕ → Option Error) (c : Container)
    → Uncancelled stops
    → c.started ≡ false
    → Settled starts c (startup starts stops c)
unfolding startup
startup-Settled starts stops c calm f = elim (start_all-Started starts (values c.registry) [] []) [
  | inl (all, e) ↦ inl (all, rw (startup, f, e) refl)
  | inr (good, i, rest, x, split, all, fails, e) ↦ inr (
    good,
    i,
    rest,
    x,
    split,
    all,
    fails,
    rw (startup, f, e, stop_each-all stops calm (reverse good)) refl,
  )
]

abbrev pub occurrences : ℕ → List ℕ → ℕ
occurrences i [] = 0
occurrences i (j ∷ js) = (if eqb i j then 1 else 0) + occurrences i js

abbrev pub is_dependency : ℕ → Value → Bool
is_dependency i (dependency j) = eqb i j
is_dependency i (plain s) = false

abbrev pub once : Bool → ℕ
once true = 1
once false = 0

pub occurrences-distinct :
    (i : ℕ) (vs : List Value) (seen : List ℕ)
    → occurrences i (distinct seen vs)
      ≡ (if is_seen i seen then 0 else once (any (is_dependency i) vs))
occurrences-distinct i [] seen = ground arith
occurrences-distinct i (plain s ∷ vs) seen = occurrences-distinct i vs seen
occurrences-distinct i (dependency j ∷ vs) seen =
    ground
      (arith, eqb_iff i j, occurrences-distinct i vs seen, occurrences-distinct i vs (j ∷ seen))

pub any-reverse : {A : Type 0} (p : A → Bool) (xs : List A) → any p (reverse xs) ≡ any p xs
any-reverse p [] = refl
any-reverse p (x ∷ xs) =
    ap (any p) (reverse-append (x ∷ []) xs)
    ∙ (any-append p (reverse xs) (x ∷ []) ∙ ground (arith, any-reverse p xs))
