-- ===== src/Push/Delivery/Attempts.antt =====
-- The retries of a delivery: how many, and the waits between them.
use a2akit.Prelude.{
  ℕ, zero, suc, ◌+◌, ◌-◌, ◌^◌, ◌<◌, ◌≡◌, refl, List, [], ◌∷◌, arith, Bool, Bool-cases, true, false,
  not, ◌⊎◌, inl, inr, ap, subst, ltb,
}
use a2akit.Push.Delivery.{
  Request, Reply, responded, request_error, raised, Event, posted, slept, is_settled, backoff,
  answered, attempts, Log,
}
use a2akit.Errors.{ok}

-- The answers that are worth another attempt.
abbrev pub is_retried : Reply → Bool
is_retried (responded status) = not (is_settled status)
is_retried request_error = true
is_retried (raised e) = false

pub answered-cases :
    (q : Request) (max attempt : ℕ) (r : Reply) (l : Log)
    → ((is_retried r ≡ false) × ((answered q max attempt r l).0 ≡ posted q ∷ []))
      ⊎ ((is_retried r ≡ true)
          × ((answered q max attempt r l).0 ≡ posted q ∷ backoff max attempt l.0))
answered-cases q max attempt (responded status) l = elim (Bool-cases (is_settled status)) [
  | inl t ↦ inl (rw t refl, rw t refl)
  | inr f ↦ inr (rw f refl, rw f refl)
]
answered-cases q max attempt request_error l = inr (refl, refl)
answered-cases q max attempt (raised e) l = inl (refl, refl)

-- The `p` answers from the a-th on are worth another attempt.
abbrev pub AllRetried : (ℕ → Reply) → ℕ → ℕ → Type 0
AllRetried post a zero = Unit
AllRetried post a (suc p) = (is_retried (post a) ≡ true) × AllRetried post (suc a) p

-- The same request `p + 1` times, with a wait between any two that doubles from 2 ^ a on.
abbrev pub schedule : Request → ℕ → ℕ → List Event
schedule q a zero = posted q ∷ []
schedule q a (suc p) = posted q ∷ (slept (2 ^ a) ∷ schedule q (suc a) p)

-- A log of at most `n` attempts, after `a` of them: one more than `p` requests were made, the first
-- `p` were answered so that another attempt is worth while and the last was not, unless it was the
-- n-th; there is one wait between any two requests, from 2 ^ a on, and nothing else.
abbrev pub Retried : (ℕ → Reply) → Request → ℕ → ℕ → List Event → Type 0
Retried post q n a log =
    (p : ℕ) × (log ≡ schedule q a p)
    × (p < n)
    × AllRetried post (suc a) p
    × ((suc p ≡ n) ⊎ (is_retried (post (suc a + p)) ≡ false))

module _ (post : ℕ → Reply) (q : Request) where
  one_post :
      (n a : ℕ)
      → (1 ≡ suc n) ⊎ (is_retried (post (suc a)) ≡ false)
      → Retried post q (suc n) a (posted q ∷ [])
  one_post n a h =
      let here : suc a ≡ suc a + 0 = omega arith in
      (0, refl, omega arith, tt, subst (λ k. (1 ≡ suc n) ⊎ (is_retried (post k) ≡ false)) here h)

  one_more :
      (n a : ℕ) (log : List Event)
      → is_retried (post (suc a)) ≡ true
      → Retried post q (suc n) (suc a) log
      → Retried post q (suc (suc n)) a (posted q ∷ (slept (2 ^ a) ∷ log))
  one_more n a log t (p, l, b, s, e) =
      let here : suc (suc a) + p ≡ suc a + suc p = omega arith in
      (
        suc p,
        ap (λ rest. posted q ∷ (slept (2 ^ a) ∷ rest)) l,
        omega arith,
        (t, s),
        elim e [
          | inl h ↦ inl (ap suc h)
          | inr h ↦ inr (subst (λ k. is_retried (post k) ≡ false) here h)
        ],
      )

  backoff_last : (a max : ℕ) → max ≡ a + 1 → backoff max (suc a) [] ≡ []
  backoff_last a max h = ground arith

  backoff_next :
      (n a max : ℕ) (log : List Event)
      → max ≡ a + suc (suc n)
      → backoff max (suc a) log ≡ slept (2 ^ a) ∷ log
  backoff_next n a max log h =
      let i : suc a - 1 ≡ a = omega arith in
      let t : ltb (suc a) max ≡ true = ground arith in rw (t, i) refl

  -- The loop, entered after `a` of `a + n` attempts with n at least 1.
  pub attempts-Retried :
      (n a max : ℕ)
      → max ≡ a + suc n
      → Retried post q (suc n) a (attempts post q max (suc n) (suc a)).0
  unfolding attempts
  attempts-Retried zero a max h = elim (answered-cases q max (suc a) (post (suc a)) ([], ok tt)) [
    | inl (f, e) ↦ rw e (one_post 0 a (inr f))
    | inr (t, e) ↦ rw (e, backoff_last a max h) (one_post 0 a (inl refl))
  ]
  attempts-Retried (suc n) a max h =
      let rest = attempts post q max (suc n) (suc (suc a)) in
      elim (answered-cases q max (suc a) (post (suc a)) rest) [
        | inl (f, e) ↦ rw e (one_post (suc n) a (inr f))
        | inr (t, e) ↦
            rw (e, backoff_next n a max rest.0 h)
              (one_more n a rest.0 t (attempts-Retried n (suc a) max (omega arith)))
      ]
