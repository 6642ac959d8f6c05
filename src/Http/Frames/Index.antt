-- ===== src/Http/Frames/Index.antt =====
-- The index of an artifact, the internal keys of a task, and which events become frames.
use text.Mathlib.Text.{starts_with}
use a2akit.Prelude.{
  ℕ, zero, suc, ◌≡◌, ap, refl, String, Bool, true, false, not, ◌==◌, Option, none, some, List, [],
  ◌∷◌, take, drop, any, keep, first, length, length-keep-le, eqb, eqb_iff, if◌then◌else◌, arith,
  Bool-cases, inl, inr, ◌↔◌,
}
use a2akit.Dict
use a2akit.Dict.{Dict, get-set}
use a2akit.Wire.{
  Task, Artifact, StreamEvent, snapshot, message, status_update, artifact_update, direct_reply,
  terminal_marker,
}
use a2akit.EventBus.{BufferedEvent, is_stream_terminal}
use a2akit.Push.Delivery.{sanitized}
use a2akit.Http.Frames.{
  Wrapped, task_payload, message_payload, status_payload, artifact_payload, Frame, cached_index,
  one_more, sanitize_task_v10, artifact_index, later_frames, is_direct_reply, wrap_stream_event_v10,
}

keep_full :
    {A : Type 0} (p : A → Bool) (xs : List A) → length (keep p xs) ≡ length xs → keep p xs ≡ xs
keep_full p [] h = refl
keep_full p (x ∷ xs) h = ground (arith, length-keep-le p xs, keep_full p xs)

abbrev is_public : {V : Type 0} → String × V → Bool
is_public entry = not (starts_with entry.0 "_")

-- A task on the wire of v1.0 is the task that push delivery sends: both drop the internal keys.
pub sanitize_task_v10-sanitized : (t : Task) → sanitize_task_v10 t ≡ sanitized t
unfolding sanitize_task_v10
sanitize_task_v10-sanitized t =
    elim (Bool-cases (eqb (length (keep is_public t.metadata)) (length t.metadata))) [
      | inl e ↦ rw (e, keep_full is_public t.metadata ((eqb_iff _ _).0 e)) refl
      | inr e ↦ rw e refl
    ]

-- The events that are shown: none after the first terminal marker, and no direct reply.
abbrev pub until_terminal : List BufferedEvent → List BufferedEvent
until_terminal [] = []
until_terminal (b ∷ bs) = b ∷ (if is_stream_terminal b.event then [] else until_terminal bs)

direct_open : (e : StreamEvent) → is_direct_reply e ≡ true → is_stream_terminal e ≡ false
unfolding is_stream_terminal
direct_open (StreamEvent.direct_reply m) h = refl
direct_open (StreamEvent.snapshot t) h = cc
direct_open (StreamEvent.message m) h = cc
direct_open (StreamEvent.status_update t c s) h = cc
direct_open (StreamEvent.artifact_update t c a p l) h = cc
direct_open (StreamEvent.terminal_marker t c s) h = cc

one_more-suc : (o : Option ℕ) (i : ℕ) → (one_more o ≡ some (suc i)) ↔ (o ≡ some i)
one_more-suc none i = (λ h. cc, λ h. cc)
one_more-suc (some j) i = (λ h. ground (arith, h), λ h. ground (arith, h))

one_more-zero : (o : Option ℕ) → one_more o ≡ some 0 → false ≡ true
one_more-zero none h = cc
one_more-zero (some j) h = ground (arith, h)

-- The index of an artifact is the place of the first one with the identifier.
pub artifact_index_first :
    (k : String) (xs : List Artifact) (i : ℕ)
    → (artifact_index k xs ≡ some i) ↔ (
        (any (λ a. a.artifact_id == k) (take i xs) ≡ false)
        × (a : Artifact) × (first (λ x. true) (drop i xs) ≡ some a)
        × ((a.artifact_id == k) ≡ true))
unfolding artifact_index
artifact_index_first k [] zero = (λ h. cc, λ (n, a, h, e). cc)
artifact_index_first k [] (suc i) = (λ h. cc, λ (n, a, h, e). cc)
artifact_index_first k (x ∷ xs) zero = elim (Bool-cases (x.artifact_id == k)) [
  | inl e ↦ rw e (λ h. (refl, x, refl, e), λ h. refl)
  | inr e ↦ rw e (λ h. cc (one_more-zero (artifact_index k xs) h), λ (n, a, h, q). cc)
]
artifact_index_first k (x ∷ xs) (suc i) =
    let (there, back) = artifact_index_first k xs i in
    let (down, up) = one_more-suc (artifact_index k xs) i in
    elim (Bool-cases (x.artifact_id == k)) [
      | inl e ↦ rw e (λ h. ground (arith, h), λ (n, a, h, q). cc)
      | inr e ↦ rw e (λ h. there (down h), λ h. up (back h))
    ]

abbrev pub artifacts_of : Option Task → List Artifact
artifacts_of none = []
artifacts_of (some t) = t.artifacts

-- The place of the first artifact with the identifier, if there is one.
abbrev pub IsPlace : String → List Artifact → Option ℕ → Type 0
IsPlace k xs o =
    (i : ℕ)
    → (o ≡ some i) ↔ (
        (any (λ a. a.artifact_id == k) (take i xs) ≡ false)
        × (a : Artifact) × (first (λ x. true) (drop i xs) ≡ some a)
        × ((a.artifact_id == k) ≡ true))

-- What the payload of an event is, where `known` is the last snapshot of each task.
abbrev pub Shows : (String → Option Task) → StreamEvent → Wrapped → Type 0
Shows known (direct_reply m) v = v ≡ message_payload m
Shows known (terminal_marker task_id context_id status) v =
    v ≡ status_payload task_id context_id status
Shows known (snapshot t) v = v ≡ task_payload (sanitized t)
Shows known (message m) v = v ≡ message_payload m
Shows known (status_update task_id context_id status) v =
    v ≡ status_payload task_id context_id status
Shows known (artifact_update task_id context_id a append last) v =
    (o : Option ℕ) × (v ≡ artifact_payload task_id context_id a append last o)
    × IsPlace a.artifact_id (artifacts_of (known task_id)) o

abbrev pub learned : (String → Option Task) → StreamEvent → String → Option Task
learned known (snapshot t) = λ k. if t.id == k then some (sanitized t) else known k
learned known _ = known

-- One frame for each of the events, in order: the event's identifier and its payload.
abbrev pub AllShown : (String → Option Task) → List BufferedEvent → List Frame → Type 0
AllShown known [] [] = Unit
AllShown known [] (f ∷ fs) = true ≡ false
AllShown known (b ∷ bs) [] = true ≡ false
AllShown known (b ∷ bs) (f ∷ fs) =
    (f.0 ≡ some b.id) × Shows known b.event f.1 × AllShown (learned known b.event) bs fs

artifact_index-IsPlace :
    (k : String) (t : Option Task) → IsPlace k (artifacts_of t) (cached_index t k)
unfolding artifact_index
artifact_index-IsPlace k none i = artifact_index_first k [] i
artifact_index-IsPlace k (some t) i = artifact_index_first k t.artifacts i

-- The cache holds the last snapshots.
abbrev Agrees : (String → Option Task) → Dict Task → Type 0
Agrees known cache = (k : String) → known k ≡ Dict.get cache k

wrap-Shows :
    (known : String → Option Task) (e : StreamEvent) (cache : Dict Task)
    → Agrees known cache
    → Shows known e (wrap_stream_event_v10 e cache).0
unfolding wrap_stream_event_v10
wrap-Shows known (StreamEvent.direct_reply m) cache h = refl
wrap-Shows known (StreamEvent.terminal_marker t c s) cache h = refl
wrap-Shows known (StreamEvent.snapshot t) cache h = ap task_payload (sanitize_task_v10-sanitized t)
wrap-Shows known (StreamEvent.message m) cache h = refl
wrap-Shows known (StreamEvent.status_update t c s) cache h = refl
wrap-Shows known (StreamEvent.artifact_update t c a p l) cache h =
    (_, refl, rw (h t) (artifact_index-IsPlace a.artifact_id (Dict.get cache t)))

wrap-Agrees :
    (known : String → Option Task) (e : StreamEvent) (cache : Dict Task)
    → Agrees known cache
    → Agrees (learned known e) (wrap_stream_event_v10 e cache).1
unfolding wrap_stream_event_v10
wrap-Agrees known (StreamEvent.direct_reply m) cache h = h
wrap-Agrees known (StreamEvent.terminal_marker t c s) cache h = h
wrap-Agrees known (StreamEvent.snapshot t) cache h =
    λ k. rw (sanitize_task_v10-sanitized t, get-set cache t.id k (sanitized t), h k) refl
wrap-Agrees known (StreamEvent.message m) cache h = h
wrap-Agrees known (StreamEvent.status_update t c s) cache h = h
wrap-Agrees known (StreamEvent.artifact_update t c a p l) cache h = h

later_frames-AllShown :
    (bs : List BufferedEvent) (known : String → Option Task) (cache : Dict Task)
    → Agrees known cache
    → AllShown known
        (keep (λ b. not (is_direct_reply b.event)) (until_terminal bs))
        (later_frames cache bs)
unfolding later_frames
later_frames-AllShown [] known cache h = tt
later_frames-AllShown (b ∷ bs) known cache h =
    let cache' = (wrap_stream_event_v10 b.event cache).1 in
    let shown = wrap-Shows known b.event cache h in
    elim (Bool-cases (is_direct_reply b.event)) [
      | inl e ↦ rw (e, direct_open b.event e) (later_frames-AllShown bs known cache h)
      | inr e ↦ elim (Bool-cases (is_stream_terminal b.event)) [
        | inl t ↦ rw (e, t) (refl, shown, tt)
        | inr t ↦
            rw (e, t)
              (
                refl,
                shown,
                later_frames-AllShown bs (learned known b.event) cache'
                    (wrap-Agrees known b.event cache h),
              )
      ]
    ]

-- The frames after the first one are, in their order, those of the events up to the first terminal
-- marker that are no direct replies, each with its event's identifier and the event as it is: a task
-- without its internal keys, a status, a message, or an artifact with its flags and with its place
-- in the last snapshot of its task that was sent or cached before, if it has one there.
pub later_frames_shown :
    (bs : List BufferedEvent) (cache : Dict Task)
    → AllShown
        (Dict.get cache)
        (keep (λ b. not (is_direct_reply b.event)) (until_terminal bs))
        (later_frames cache bs)
later_frames_shown bs cache = later_frames-AllShown bs (Dict.get cache) cache (λ k. refl)
