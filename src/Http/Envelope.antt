-- ===== src/Http/Envelope.antt =====
-- middleware/base.py: `RequestEnvelope` and `A2AMiddleware`, and the loops over the middleware that
-- every handler writes out: `before_dispatch` in order, with those that it completed the last
-- first, and `after_dispatch` over them. A middleware works on the envelope only.
use a2akit.Prelude.{String, Option, none, some, List, [], ◌∷◌}
use a2akit.Dict.{Dict}
use a2akit.Wire.{SendMessageRequest}
use a2akit.Errors.{Error, err}
use a2akit.Runtime.{Act, raise}
use a2akit.Manager.Messages.{Answer}
use a2akit.Middleware.{HttpRequest}

-- `a2a_error` is the entry `_a2a_error` of the context, an exception.
pub record RequestEnvelope : Type 0 where
  pub params : Option SendMessageRequest
  pub tenant : Option String
  pub context : Dict String
  pub a2a_error : Option Error

pub record A2aMiddleware : Type 0 where
  pub before_dispatch : RequestEnvelope → HttpRequest → Option Error × RequestEnvelope
  pub after_dispatch : RequestEnvelope → Option Answer → Option Error × RequestEnvelope

-- What the first loop leaves: what was raised, the envelope, the middleware that were started.
pub record Begun : Type 0 where
  pub raised : Option Error
  pub envelope : RequestEnvelope
  pub started : List A2aMiddleware

-- for mw in middlewares: await mw.before_dispatch(envelope, request); started.append(mw)
unfoldable pub begin :
    HttpRequest → RequestEnvelope → List A2aMiddleware → List A2aMiddleware → Begun
begin q env started [] = record { raised = none; envelope = env; started = started }
begin q env started (mw ∷ mws) =
    let (raised, env') = mw.before_dispatch env q in
    let rest = begin q env' (mw ∷ started) mws in
    elim raised [
      | none ↦ rest
      | some e ↦ record { raised = some e; envelope = env'; started = started }
    ]

-- for mw in reversed(started): await mw.after_dispatch(envelope, result)
unfoldable pub finish : RequestEnvelope → Option Answer → List A2aMiddleware → Option Error
finish env result [] = none
finish env result (mw ∷ mws) =
    let (raised, env') = mw.after_dispatch env result in
    let rest = finish env' result mws in elim raised [ none ↦ rest | some e ↦ some e ]

module _ {A : Type 0} where
  -- a loop over the middleware, then the rest of the block
  abbrev pub ended_with : Option Error → Act A → Act A
  ended_with none m = m
  ended_with (some e) m = raise e

  -- envelope.context["_a2a_error"] = exc; for mw in reversed(started): ...; raise
  unfoldable pub roll_back : Begun → Error → Act A
  roll_back b e =
      ended_with (finish (record b.envelope { a2a_error = some e }) none b.started) (raise e)

  -- try: body finally: for mw in reversed(started): ...
  unfoldable pub finally_finish : Begun → Act A → Act A
  finally_finish b body w =
      let (r, w') = body w in
      (elim (finish b.envelope none b.started) [ none ↦ r | some e ↦ err e ], w')
