-- ===== src/Tests/Parts.antt =====
-- The theorems on dependencies, listings and messages, on concrete data.
use Prim.Native.String.{len, ◌++◌ as ◌&◌}
use text.Mathlib.TextPositions.{len-append}
use a2akit.Prelude.{
  zero, ◌-◌, ◌∙◌, ap, sym, Bool-cases, inl, inr, eq_iff, ℕ, suc, ℤ, pos, negsuc, String, ◌≡◌, refl,
  true, false, Option, none, some, [], ◌∷◌, length, map, ◌==◌, if◌then◌else◌, eqb, arith,
}
use a2akit.Wire.{submitted, SendMessageRequest}
use a2akit.Errors.{Error, ok, value_error}
use a2akit.Dependencies.{
  Container, dependency, plain, startup, shutdown, start_all, stop_all, startup_of, shutdown_of,
}
use a2akit.Dependencies.Order.{Settled, Uncancelled, startup-Settled}
use a2akit.Storage.{view}
use a2akit.Storage.Listing.{ListTasksQuery, filtered}
use a2akit.Storage.Listing.Pages.{TokenLaws, follow, follow-all}
use a2akit.Tests.Data.{question, storage_in}

-- One dependency under two keys, another, and a text.
abbrev container : Container
container = record {
  registry =
      ("Pool", dependency 1)
      ∷ (("key", plain "k") ∷ (("Http", dependency 2) ∷ (("pool", dependency 1) ∷ [])));
  started = false;
}

-- The second dependency cannot start.
abbrev starts : ℕ → Option Error
starts i = if eqb i 2 then some value_error else none

abbrev starts_all : ℕ → Option Error
starts_all i = none

abbrev stops : ℕ → Option Error
stops i = none

stops-Uncancelled : Uncancelled stops
stops-Uncancelled i e h = cc

startup-Settled_example : Settled starts container (startup starts stops container)
startup-Settled_example = startup-Settled starts stops container stops-Uncancelled refl

startup_succeeds : (startup starts_all stops container).0 ≡ ok tt
unfolding startup start_all
startup_succeeds = refl

-- The shutdown calls dependency 1, which started first, before dependency 2.
shutdown_order :
    ((startup starts_all stops container).1 ≡ startup_of 1 ∷ (startup_of 2 ∷ []))
    × ((shutdown stops (record container { started = true })).1
        ≡ shutdown_of 1 ∷ (shutdown_of 2 ∷ []))
unfolding startup start_all shutdown stop_all
shutdown_order = (refl, refl)

abbrev query : ListTasksQuery
query = record {
  context_id = some "c1";
  tenant = none;
  status = none;
  page_size = 1;
  page_token = none;
  history_length = none;
  status_timestamp_after = none;
  include_artifacts = false;
}

-- Tokens in unary: an offset n is written as n + 1 strokes.
strokes : ℕ → String
strokes zero = "1"
strokes (suc n) = "1" & strokes n

abbrev str : ℤ → String
str (pos n) = strokes n
str (negsuc n) = "-" & strokes n

abbrev int : String → Option ℤ
int s = some (pos (len s - 1))

len-strokes : (n : ℕ) → len (strokes n) ≡ suc n
unfolding strokes
len-strokes zero = refl
len-strokes (suc n) = len-append "1" (strokes n) ∙ omega (arith, len-strokes n)

strokes_named : (n : ℕ) → (strokes n == "") ≡ false
strokes_named n = elim (Bool-cases (strokes n == "")) [
  | inl t ↦
      let nil : strokes n ≡ "" = (eq_iff (strokes n) "").0 t in
      let none_left : suc n ≡ 0 = sym (len-strokes n) ∙ ap len nil in
      absurd (omega (arith, none_left))
  | inr f ↦ f
]

laws : TokenLaws int str
laws n = (strokes_named n, ap (λ k. some (pos k)) (strokes_read n))
  where
    strokes_read : (n : ℕ) → len (strokes n) - 1 ≡ n
    strokes_read n = omega (arith, len-strokes n)

follow-all_example :
    follow int str
      (suc (length (filtered (storage_in submitted) query)))
      (storage_in submitted)
      query
      ""
    ≡ some (
        map
          (view query.history_length query.include_artifacts)
          (filtered (storage_in submitted) query))
follow-all_example = follow-all int str (storage_in submitted) query laws (omega arith)

abbrev request : SendMessageRequest
request = record { message = question; tenant = none; configuration = none }
