-- ===== src/Middleware/Pipeline.antt =====
-- Which middleware is called, and when.
use mathlib.Core.List.{reverse_aux}
use a2akit.Prelude.{
  ◌≡◌, refl, sym, subst, ap, ◌⊎◌, inl, inr, Option, Option-cases, none, some, List, [], ◌∷◌, ◌++◌,
  map,
}
use a2akit.Errors.{Error}
use a2akit.Middleware.{
  Context, Middleware, Call, before_of, dispatched, after_of, Outcome, called, after_all,
  run_pipeline,
}

abbrev pub befores : List Middleware → List Call
befores ms = map (λ m. before_of m.name) ms

abbrev pub afters : List Middleware → List Call
afters ms = map (λ m. after_of m.name) ms

-- No middleware raises after a request.
abbrev pub Calm : List Middleware → Type 0
Calm [] = Unit
Calm (m ∷ ms) = ((failed : Option Error) (c : Context) → (m.after failed c).0 ≡ none) × Calm ms

after_all-Calm :
    (failed : Option Error) (c : Context) (ms : List Middleware)
    → Calm ms
    → after_all failed c ms ≡ (none, afters ms)
unfolding after_all
after_all-Calm failed c [] h = refl
after_all-Calm failed c (m ∷ ms) (h, hs) =
    rw (after_all, h failed c)
      (ap (called (after_of m.name)) (after_all-Calm failed (m.after failed c).1 ms hs))

-- The context after the middleware, each of which was called before the request.
abbrev pub context_after : Context → List Middleware → Context
context_after c [] = c
context_after c (m ∷ ms) = context_after (m.before c).1 ms

-- None of the middleware raises before the request, each on the context that those before it left.
abbrev pub AllPass : Context → List Middleware → Type 0
AllPass c [] = Unit
AllPass c (m ∷ ms) = ((m.before c).0 ≡ none) × AllPass (m.before c).1 ms

-- What a run comes to, with `started` before it: all of the middleware passed and the request ran
-- within them, or one raised and neither those after it nor the request was called.
abbrev pub Bracketed :
    (Context → Option Error) → Context → List Middleware → List Middleware → Outcome → Type 0
Bracketed body c started ms out =
    (AllPass c ms
      × (out ≡ (
        body (context_after c ms),
        befores ms ++ dispatched ∷ afters (reverse_aux ms started),
      )))
    ⊎ ((good : List Middleware) × (m : Middleware) × (rest : List Middleware) × (e : Error) × (ms
          ≡ good ++ m ∷ rest)
        × AllPass c good
        × ((m.before (context_after c good)).0 ≡ some e)
        × (out ≡ (some e, befores good ++ before_of m.name ∷ afters (reverse_aux good started))))

more-Bracketed :
    (body : Context → Option Error) (c : Context) (started ms : List Middleware) (m : Middleware)
    (out : Outcome)
    → (m.before c).0 ≡ none
    → Bracketed body (m.before c).1 (m ∷ started) ms out
    → Bracketed body c started (m ∷ ms) (called (before_of m.name) out)
more-Bracketed body c started ms m out n (inl (pass, e)) =
    inl ((n, pass), ap (called (before_of m.name)) e)
more-Bracketed body c started ms m out n (inr (good, k, rest, x, split, pass, fails, e)) =
    inr (m ∷ good, k, rest, x, ap (◌∷◌ m) split, (n, pass), fails, ap (called (before_of m.name)) e)

pass_on :
    (body : Context → Option Error) (c : Context) (started ms : List Middleware) (m : Middleware)
    → (m.before c).0 ≡ none
    → run_pipeline body c started (m ∷ ms)
      ≡ called (before_of m.name) (run_pipeline body (m.before c).1 (m ∷ started) ms)
unfolding run_pipeline
pass_on body c started ms m n = rw n refl

run_pipeline-from :
    (body : Context → Option Error) (c : Context) (started ms : List Middleware)
    → Calm started
    → Calm ms
    → Bracketed body c started ms (run_pipeline body c started ms)
unfolding run_pipeline
run_pipeline-from body c started [] hs h = inl (tt, rw (after_all-Calm (body c) c started hs) refl)
run_pipeline-from body c started (m ∷ ms) hs (h, rest) = elim (Option-cases (m.before c).0) [
  | inl n ↦ subst (Bracketed body c started (m ∷ ms)) (sym (pass_on body c started ms m n)) (
      more-Bracketed body c started ms m _ n
        (run_pipeline-from body (m.before c).1 (m ∷ started) ms (h, hs) rest))
  | inr (e, n) ↦
      rw (run_pipeline, n, after_all-Calm (some e) (m.before c).1 started hs)
        (inr ([], m, ms, e, refl, tt, n, refl))
]

-- Where no middleware raises after a request: either none raises before it, each on the context that
-- those before it left, and each is called before the request, in order, and after it in the reverse
-- order, and the run raises what the request does on the last context, if anything; or the first
-- that raises before the request ends the run in that exception, the request is never dispatched,
-- and exactly those before it are called again, in the reverse order.
pub run_pipeline-Bracketed :
    (body : Context → Option Error) (c : Context) (ms : List Middleware)
    → Calm ms
    → Bracketed body c [] ms (run_pipeline body c [] ms)
run_pipeline-Bracketed body c ms h = run_pipeline-from body c [] ms tt h
