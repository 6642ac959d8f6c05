-- ===== src/Http/Rpc/Replies.antt =====
-- Which id an answer carries: coroutines whose answer, where they give one, has a given id.
use a2akit.Prelude.{
  ℕ, String, ◌≡◌, refl, Bool, true, false, Option, none, some, List, if◌then◌else◌,
}
use a2akit.Errors.{Error, Result, ok, err}
use a2akit.Runtime.{World, Act, pure, raise, try_except, handle, resume, ◌>>=◌}
use a2akit.Http.Json.{Json, null, object, find}
use a2akit.Http.Envelope.{Begun, finish, finally_finish}
use a2akit.Http.Service.{Response, no_content, failed, succeeded, streamed}

-- The id of an answer; 204 has no body.
abbrev pub response_id : Response → Option Json
response_id no_content = none
response_id (failed req_id e) = some req_id
response_id (succeeded req_id p) = some req_id
response_id (streamed req_id frames raised) = some req_id

-- The id of a request: that of a notification is none, and what is no object has the id null.
abbrev pub request_id : Option Json → Option Json
request_id (some (object body)) = find body "id"
request_id _ = some null

abbrev pub Answers : Option Json → Result Response → Type 0
Answers o (err e) = Unit
Answers o (ok r) = response_id r ≡ o

pub record Replies (o : Option Json) (m : Act Response) : Type 0 where
  pub holds : (w : World) → Answers o (m w).0

raised_or-Answers :
    (o : Option Json) (raised : Option Error) (r : Result Response)
    → Answers o r
    → Answers o (elim raised [ none ↦ r | some e ↦ err e ])
raised_or-Answers o none r h = h
raised_or-Answers o (some e) r h = tt

module _ {o : Option Json} where
  pub pure-Replies : (r : Response) → response_id r ≡ o → Replies o (pure r)
  unfolding pure
  pure-Replies r h = record { holds = λ w. h }

  pub raise-Replies : (e : Error) → Replies o (raise e)
  unfolding raise
  raise-Replies e = record { holds = λ w. tt }

  resume-Replies :
      {A : Type 0} (r : Result A) (f : A → Act Response) (w : World)
      → ((a : A) → Replies o (f a))
      → Answers o (resume r f w).0
  resume-Replies (ok a) f w h = (h a).holds w
  resume-Replies (err e) f w h = tt

  pub bind-Replies :
      {A : Type 0} (m : Act A) (f : A → Act Response)
      → ((a : A) → Replies o (f a))
      → Replies o (m >>= f)
  unfolding ◌>>=◌
  bind-Replies m f h = record { holds = λ w. resume-Replies (m w).0 f (m w).1 h }

  resume_after-Replies :
      (r : Result Response) (f : Response → Act Response) (w : World)
      → Answers o r
      → ((a : Response) → response_id a ≡ o → Replies o (f a))
      → Answers o (resume r f w).0
  resume_after-Replies (ok a) f w e h = (h a e).holds w
  resume_after-Replies (err x) f w e h = tt

  -- What follows an answer knows its id.
  pub after-Replies :
      (m : Act Response) (f : Response → Act Response)
      → Replies o m
      → ((a : Response) → response_id a ≡ o → Replies o (f a))
      → Replies o (m >>= f)
  unfolding ◌>>=◌
  after-Replies m f s h = record {
    holds = λ w. resume_after-Replies (m w).0 f (m w).1 (s.holds w) h;
  }

  pub if-Replies :
      (b : Bool) (m n : Act Response) → Replies o m → Replies o n → Replies o (if b then m else n)
  if-Replies true m n hm hn = hm
  if-Replies false m n hm hn = hn

  handle-Replies :
      (r : Result Response) (h : Error → Act Response) (w : World)
      → Answers o r
      → ((e : Error) → Replies o (h e))
      → Answers o (handle r h w).0
  handle-Replies (ok r) h w a s = a
  handle-Replies (err e) h w a s = (s e).holds w

  pub try-Replies :
      (m : Act Response) (h : Error → Act Response)
      → Replies o m
      → ((e : Error) → Replies o (h e))
      → Replies o (try_except m h)
  unfolding try_except
  try-Replies m h s t = record { holds = λ w. handle-Replies (m w).0 h (m w).1 (s.holds w) t }

  pub finally-Replies :
      (begun : Begun) (m : Act Response) → Replies o m → Replies o (finally_finish begun m)
  unfolding finally_finish
  finally-Replies begun m h = record {
    holds = λ w. raised_or-Answers o (finish begun.envelope none begun.started) (m w).0 (h.holds w);
  }

pub ruleset reply_rules =
    (pure-Replies, raise-Replies, bind-Replies, if-Replies, try-Replies, finally-Replies, refl)
