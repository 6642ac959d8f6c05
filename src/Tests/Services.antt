-- ===== src/Tests/Services.antt =====
-- The theorems on the event bus and on the push configurations, on concrete data.
use a2akit.Prelude.{String, ◌≡◌, refl, none, some, [], ◌∷◌, ◌++◌, drop, arith}
use a2akit.Dict
use a2akit.Wire.{StreamEvent, direct_reply}
use a2akit.EventBus.{EventBus, sent, publish, iter_events}
use a2akit.EventBus.Replay.{numbered, upto_terminal, iter_events-resume}
use a2akit.EventBus.Counters.{IsRing, publish-IsRing}
use a2akit.Push.Store.{PushStore, PushConfig, set_config}
use a2akit.Tests.Data.{question}

abbrev pub bus : EventBus
bus = record {
  replay_buffer_size = 2;
  replay_ttl = 60;
  subs = [];
  replay_buffers = [];
  event_counters = [];
  purge_deadlines = [];
}

abbrev reply : StreamEvent
reply = direct_reply question

bus-IsRing : (k : String) → IsRing bus k []
unfolding Dict.get
bus-IsRing k = (refl, refl)

publish-IsRing_example : IsRing (publish bus "t1" reply 5 (λ n. sent)).2 "t1" (reply ∷ [])
publish-IsRing_example = publish-IsRing bus "t1" reply 5 (λ n. sent) (λ k. []) bus-IsRing "t1"

iter_events-resume_example :
    iter_events
      (drop 1 (numbered 0 (reply ∷ [] ++ (reply ∷ [] ++ reply ∷ []))))
      (numbered 2 (reply ∷ [] ++ reply ∷ []))
      (some (some 1))
      2
    ≡ upto_terminal (numbered 1 (reply ∷ [] ++ reply ∷ [] ++ reply ∷ []))
iter_events-resume_example =
    iter_events-resume 2 2 (reply ∷ []) (reply ∷ []) (reply ∷ []) (reply ∷ []) (omega arith)

abbrev hook : PushConfig
hook = record { id = some "p1"; url = "https://example.org"; token = none; authentication = none }

abbrev push_store : PushStore
push_store = (set_config [] "t1" hook "p0").1
