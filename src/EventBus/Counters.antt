-- ===== src/EventBus/Counters.antt =====
-- Event identifiers and the ring buffer: what `publish` keeps of every task.
use a2akit.Prelude.{
  ℕ, zero, suc, ◌+◌, ◌-◌, String, ◌≡◌, refl, sym, subst, ap, ◌∙◌, Bool, false, ◌&&◌, ◌||◌, none,
  List, [], ◌∷◌, ◌++◌, any, length, length-append, length-drop, drop, arith, ◌==◌, eq_refl, eq_iff,
  leb, Bool-cases, inl, inr, if◌then◌else◌,
}
use mathlib.Core.Path.{ap₂}
use a2akit.Dict
use a2akit.Dict.{Dict, get-set, get-pop}
use a2akit.Wire.{StreamEvent}
use a2akit.EventBus.{
  EventBus, BufferedEvent, SendOutcome, counter_of, buffer_of, append_bounded, forget, forget_all,
  expired_keys, purge_expired, stored, publish, cleanup,
}
use a2akit.EventBus.Replay.{numbered, numbered-append, drop-append}

-- The events of a task since its last purge are its log: they are numbered from 1 on, the counter is
-- their number, and the buffer holds the newest of them, as many as it has room for.
abbrev pub IsRing : EventBus → String → List StreamEvent → Type 0
IsRing bus task_id log =
    (counter_of bus task_id ≡ length log)
    × (buffer_of bus task_id ≡ drop (length log - bus.replay_buffer_size) (numbered 0 log))

-- The task has a purge that is due.
abbrev pub purge_due : Dict ℕ → ℕ → String → Bool
purge_due deadlines now k = any (λ e. e.0 == k && leb e.1 now) deadlines

length-numbered : (n : ℕ) (es : List StreamEvent) → length (numbered n es) ≡ length es
length-numbered n [] = refl
length-numbered n (e ∷ es) = ap suc (length-numbered (n + 1) es)

module _ {A : Type 0} where
  drop-nil : (n : ℕ) → drop {A = A} n [] ≡ []
  drop-nil zero = refl
  drop-nil (suc n) = refl

  drop-drop : (n m : ℕ) (xs : List A) → drop m (drop n xs) ≡ drop (n + m) xs
  drop-drop zero m xs = ap (λ k. drop k xs) (omega arith)
  drop-drop (suc n) m [] = drop-nil m ∙ sym (drop-nil (suc n + m))
  drop-drop (suc n) m (x ∷ xs) = drop-drop n m xs ∙ ap (λ k. drop k (x ∷ xs)) (suc_add n m)
    where
      suc_add : (n m : ℕ) → suc (n + m) ≡ suc n + m
      suc_add n m = omega arith

  -- Bounding what is already bounded keeps the newest of all.
  append_bounded_newest :
      (size : ℕ) (xs : List A) (x : A)
      → append_bounded size (drop (length xs - size) xs) x
        ≡ drop (length (xs ++ x ∷ []) - size) (xs ++ x ∷ [])
  append_bounded_newest size xs x =
      let l = length xs in
      let kept = drop-append (l - size) xs (x ∷ []) (omega arith) in
      let total : length (xs ++ x ∷ []) ≡ l + 1 = length-append xs (x ∷ []) in
      let left : length (drop (l - size) (xs ++ x ∷ [])) ≡ l + 1 - (l - size) =
        length-drop (l - size) (xs ++ x ∷ []) ∙ ap (λ n. n - (l - size)) total in
      rw (← kept) (
        drop-drop (l - size) (length (drop (l - size) (xs ++ x ∷ [])) - size) (xs ++ x ∷ [])
        ∙ ap (λ n. drop n (xs ++ x ∷ [])) (omega (arith, total, left)))

append-ring :
    (size : ℕ) (log : List StreamEvent) (e : StreamEvent)
    → append_bounded size
        (drop (length log - size) (numbered 0 log))
        (record { id = length log + 1; event = e })
      ≡ drop (length (log ++ e ∷ []) - size) (numbered 0 (log ++ e ∷ []))
append-ring size log e =
    let last : BufferedEvent = record { id = length log + 1; event = e } in
    let all : numbered 0 (log ++ e ∷ []) ≡ numbered 0 log ++ last ∷ [] =
      numbered-append 0 log (e ∷ [])
      ∙ ap (λ n. numbered 0 log ++ record { id = n + 1; event = e } ∷ []) (omega arith) in
    ap (λ n. append_bounded size (drop (n - size) (numbered 0 log)) last)
      (sym (length-numbered 0 log))
    ∙ (append_bounded_newest size (numbered 0 log) last
        ∙ (ap (λ zs. drop (length zs - size) zs) (sym all)
            ∙ ap (λ n. drop (n - size) (numbered 0 (log ++ e ∷ [])))
                (length-numbered 0 (log ++ e ∷ []))))

forget-IsRing :
    (bus : EventBus) (j k : String) (log : List StreamEvent)
    → IsRing bus k log
    → IsRing (forget bus j) k (if j == k then [] else log)
forget-IsRing bus j k log (c, b) =
    let gone = get-pop bus.replay_buffers j k in
    let uncounted = get-pop bus.event_counters j k in
    elim (Bool-cases (j == k)) [
      | inl same ↦ rw same (
        ground (arith, uncounted),
        ground (arith, gone) ∙ sym (drop-nil (0 - bus.replay_buffer_size)),
      )
      | inr other ↦ rw other (ground (arith, uncounted), ground (arith, gone))
    ]

forget_all-IsRing :
    (bus : EventBus) (keys : List String) (k : String) (log : List StreamEvent)
    → IsRing bus k log
    → IsRing (forget_all bus keys) k (if any (λ j. j == k) keys then [] else log)
unfolding forget_all
forget_all-IsRing bus [] k log r = r
forget_all-IsRing bus (j ∷ keys) k log r =
    subst (IsRing (forget_all (forget bus j) keys) k) (either (any (λ i. i == k) keys) (j == k)) (
      forget_all-IsRing (forget bus j) keys k (if j == k then [] else log)
        (forget-IsRing bus j k log r))
  where
    either : (a b : Bool) → (if a then [] else if b then [] else log) ≡ (if b || a then [] else log)
    either a b = ground arith

any-expired :
    (d : Dict ℕ) (now : ℕ) (k : String) → any (λ j. j == k) (expired_keys d now) ≡ purge_due d now k
unfolding expired_keys
any-expired [] now k = refl
any-expired ((j, deadline) ∷ d) now k = ground (arith, any-expired d now k)

purge_expired-IsRing :
    (bus : EventBus) (now : ℕ) (k : String) (log : List StreamEvent)
    → IsRing bus k log
    → IsRing (purge_expired bus now) k (if purge_due bus.purge_deadlines now k then [] else log)
unfolding purge_expired
purge_expired-IsRing bus now k log r =
    rw (← any-expired bus.purge_deadlines now k)
      (forget_all-IsRing bus (expired_keys bus.purge_deadlines now) k log r)

stored-IsRing :
    (live : EventBus) (j : String) (e : StreamEvent) (k : String) (log : List StreamEvent)
    → IsRing live k log
    → IsRing (stored live j e) k (if j == k then log ++ e ∷ [] else log)
stored-IsRing live j e k log (c, b) =
    let counted = get-set live.event_counters j k (counter_of live j + 1) in
    let kept = get-set live.replay_buffers j k (
      append_bounded live.replay_buffer_size (buffer_of live j)
        (record { id = counter_of live j + 1; event = e })) in
    elim (Bool-cases (j == k)) [
      | inl same ↦
          let buffered : buffer_of (stored live j e) k
              ≡ append_bounded live.replay_buffer_size (buffer_of live k)
                  (record { id = counter_of live k + 1; event = e }) =
            ground (arith, kept, eq_iff j k) in
          let counter : counter_of (stored live j e) k ≡ counter_of live k + 1 =
            ground (arith, counted, eq_iff j k) in
          rw same (
            omega (arith, counter, c, length-append log (e ∷ [])),
            buffered
                ∙ ap₂
                    (λ l n.
                      append_bounded live.replay_buffer_size l (record { id = n + 1; event = e }))
                    b c
                ∙ append-ring live.replay_buffer_size log e,
          )
      | inr other ↦ rw other (ground (arith, counted, c), ground (arith, kept, b))
    ]

-- On a bus where the counter and the buffer of every task are those of its log: publishing an event
-- empties the log of each task whose purge is due and appends the event to the log of its own task,
-- and the counter and the buffer of every task are those of its log again.
pub publish-IsRing :
    (bus : EventBus) (task_id : String) (e : StreamEvent) (now : ℕ) (outcome : ℕ → SendOutcome)
    (log : String → List StreamEvent)
    → ((k : String) → IsRing bus k (log k))
    → (k : String)
    → let live = if purge_due bus.purge_deadlines now k then [] else log k in
      IsRing (publish bus task_id e now outcome).2 k (if task_id == k then live ++ e ∷ [] else live)
unfolding publish
publish-IsRing bus task_id e now outcome log r k =
    stored-IsRing (purge_expired bus now) task_id e k _
      (purge_expired-IsRing bus now k (log k) (r k))

pub cleanup-IsRing :
    (bus : EventBus) (task_id : String) (now : ℕ) (k : String) (log : List StreamEvent)
    → IsRing bus k log
    → IsRing (cleanup bus task_id now) k (
        if purge_due (Dict.set bus.purge_deadlines task_id (now + bus.replay_ttl)) now k
        then []
        else log)
unfolding cleanup
cleanup-IsRing bus task_id now k log r = purge_expired-IsRing _ now k log r

forget-counter :
    (bus : EventBus) (j k : String)
    → (j == k) ≡ false
    → counter_of (forget bus j) k ≡ counter_of bus k
forget-counter bus j k h = ground (arith, get-pop bus.event_counters j k)

misses_rest :
    (j k : String) (v : ℕ) (d : Dict ℕ)
    → Dict.get ((j, v) ∷ d) k ≡ none
    → ((j == k) ≡ false) × (Dict.get d k ≡ none)
unfolding Dict.get
misses_rest j k v d h = ground arith

forget_all-counter :
    (bus : EventBus) (d : Dict ℕ) (now : ℕ) (k : String)
    → Dict.get d k ≡ none
    → counter_of (forget_all bus (expired_keys d now)) k ≡ counter_of bus k
unfolding expired_keys forget_all
forget_all-counter bus [] now k h = refl
forget_all-counter bus ((j, deadline) ∷ d) now k h =
    let (other, rest) = misses_rest j k deadline d h in
    elim (Bool-cases (leb deadline now)) [
      | inl e ↦ rw e (forget_all-counter (forget bus j) d now k rest ∙ forget-counter bus j k other)
      | inr e ↦ rw e (forget_all-counter bus d now k rest)
    ]

-- The identifier that `publish` returns is the task's counter afterwards, and where no purge of the
-- task is pending it is one more than the counter before.
pub publish-id :
    (bus : EventBus) (task_id : String) (e : StreamEvent) (now : ℕ) (outcome : ℕ → SendOutcome)
    → Dict.get bus.purge_deadlines task_id ≡ none
    → ((publish bus task_id e now outcome).0
        ≡ counter_of (publish bus task_id e now outcome).2 task_id)
      × ((publish bus task_id e now outcome).0 ≡ counter_of bus task_id + 1)
unfolding publish purge_expired
publish-id bus task_id e now outcome h =
    let live = purge_expired bus now in
    (
      ground (
        arith,
        eq_refl task_id,
        get-set live.event_counters task_id task_id (counter_of live task_id + 1),
      ),
      ap (λ n. n + 1) (forget_all-counter bus bus.purge_deadlines now task_id h),
    )
