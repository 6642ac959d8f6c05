-- ===== src/Http/Rpc/Denied.antt =====
-- Requests that a middleware refuses: coroutines that leave the world as it is and show nothing.
use a2akit.Prelude.{
  String, ◌≡◌, refl, Bool, true, false, ◌⊎◌, inl, inr, Option, none, some, is_some, if◌then◌else◌,
}
use a2akit.Errors.{Error, Result, ok, err}
use a2akit.Runtime.{World, Act, pure, raise, try_except, resume, ◌>>=◌, ◌>>◌}
use a2akit.Http.Envelope.{Begun, finish, finally_finish, ended_with, roll_back}
use a2akit.Http.Service.{Response, succeeded, streamed, Payload, health_result}
use a2akit.Http.Rpc.{reply}

abbrev pub is_health : Payload → Bool
is_health health_result = true
is_health _ = false

-- An answer that holds a result, other than that of the health method.
abbrev pub reveals : Result Response → Bool
reveals (ok (succeeded req_id p)) = if is_health p then false else true
reveals (ok (streamed req_id frames raised)) = true
reveals _ = false

pub record Untouched (m : Act Response) : Type 0 where
  pub holds : (w : World) → ((m w).1 ≡ w) × (reveals (m w).0 ≡ false)

-- It raises before it changes anything.
pub record Stops {A : Type 0} (m : Act A) : Type 0 where
  pub stops : (w : World) → (e : Error) × (m w ≡ (err e, w))

module _ {A : Type 0} where
  pub raise-Stops : (e : Error) → Stops (raise {A = A} e)
  unfolding raise
  raise-Stops e = record { stops = λ w. (e, refl) }

  pub if-Stops : (b : Bool) (m n : Act A) → Stops m → Stops n → Stops (if b then m else n)
  if-Stops true m n hm hn = hm
  if-Stops false m n hm hn = hn

  ended_with-Stops : (o : Option Error) (m : Act A) → Stops m → Stops (ended_with o m)
  ended_with-Stops none m h = h
  ended_with-Stops (some e) m h = raise-Stops e

  pub roll_back-Stops : (begun : Begun) (e : Error) → Stops (roll_back {A = A} begun e)
  unfolding roll_back
  roll_back-Stops begun e = ended_with-Stops _ _ (raise-Stops e)

module _ {A B : Type 0} where
  pub bind-Stops : (m : Act A) (f : A → Act B) → Stops m → Stops (m >>= f)
  unfolding ◌>>=◌
  bind-Stops m f h = record { stops = λ w. let (e, same) = h.stops w in (e, rw same refl) }

-- A check that returns nothing or raises, and then a coroutine that stops.
pub check-Stops :
    {A : Type 0} (b : Bool) (e : Error) (m : Act A)
    → Stops m
    → Stops ((if b then pure tt else raise e) >> m)
unfolding ◌>>=◌ pure raise
check-Stops true e m h = record { stops = h.stops }
check-Stops false e m h = record { stops = λ w. (e, refl) }

pub pure-Untouched : (r : Response) → reveals (ok r) ≡ false → Untouched (pure r)
unfolding pure
pure-Untouched r h = record { holds = λ w. (refl, h) }

pub if-Untouched :
    (b : Bool) (m n : Act Response) → Untouched m → Untouched n → Untouched (if b then m else n)
if-Untouched true m n hm hn = hm
if-Untouched false m n hm hn = hn

pub raise-Untouched : (e : Error) → Untouched (raise e)
unfolding raise
raise-Untouched e = record { holds = λ w. (refl, refl) }

pub bind-Untouched : {A : Type 0} (m : Act A) (f : A → Act Response) → Stops m → Untouched (m >>= f)
unfolding ◌>>=◌
bind-Untouched m f h = record { holds = λ w. let (e, same) = h.stops w in rw same (refl, refl) }

-- An exception that the handler turns into an answer.
pub try-Untouched :
    (m : Act Response) (h : Error → Act Response)
    → Stops m
    → ((e : Error) → Untouched (h e))
    → Untouched (try_except m h)
unfolding try_except
try-Untouched m h s t = record { holds = λ w. let (e, same) = s.stops w in rw same ((t e).holds w) }

raised_or-reveals :
    (raised : Option Error) (r : Result Response)
    → reveals r ≡ false
    → reveals (elim raised [ none ↦ r | some e ↦ err e ]) ≡ false
raised_or-reveals none r h = h
raised_or-reveals (some e) r h = refl

pub finally-Untouched :
    (begun : Begun) (m : Act Response) → Untouched m → Untouched (finally_finish begun m)
unfolding finally_finish
finally-Untouched begun m h = record {
  holds = λ w.
      let (same, hidden) = h.holds w in
      (same, raised_or-reveals (finish begun.envelope none begun.started) (m w).0 hidden);
}

reveals-reply :
    (n : Bool) (r : Response) → reveals (ok r) ≡ false → reveals (ok (reply n r)) ≡ false
reveals-reply true r h = refl
reveals-reply false r h = h

resume-reply-Untouched :
    (n : Bool) (r : Result Response) (w' w : World)
    → w' ≡ w
    → reveals r ≡ false
    → ((resume r (λ a. pure (reply n a)) w').1 ≡ w)
      × (reveals (resume r (λ a. pure (reply n a)) w').0 ≡ false)
unfolding pure
resume-reply-Untouched n (ok r) w' w same h = (same, reveals-reply n r h)
resume-reply-Untouched n (err e) w' w same h = (same, refl)

pub reply-Untouched :
    (n : Bool) (m : Act Response) → Untouched m → Untouched (m >>= λ r. pure (reply n r))
unfolding ◌>>=◌
reply-Untouched n m h = record {
  holds =
      λ w. let (same, hidden) = h.holds w in resume-reply-Untouched n (m w).0 (m w).1 w same hidden;
}

pub refusal-Untouched :
    (n : Bool) (r : Response) → reveals (ok r) ≡ false → Untouched (pure (reply n r))
refusal-Untouched n r h = pure-Untouched (reply n r) (reveals-reply n r h)

pub ruleset stop_rules = (raise-Stops, if-Stops, roll_back-Stops, bind-Stops)

pub ruleset denial_rules = (
  pure-Untouched, raise-Untouched, if-Untouched, bind-Untouched, try-Untouched, finally-Untouched,
  reply-Untouched, refusal-Untouched, refl,
)
