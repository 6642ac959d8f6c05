-- ===== src/EventBus/Replay.antt =====
-- Reconnection: replay and live events together are the log after the client's last event.
use a2akit.Prelude.{
  ℕ, zero, suc, ◌+◌, ◌-◌, ◌≤◌, ◌<◌, ◌≡◌, refl, subst, ap, ◌∙◌, Bool, false, none, some, List, [],
  ◌∷◌, ◌++◌, length, length-append, length-drop, drop, arith, Bool-cases, inl, inr, if◌then◌else◌,
  any,
}
use mathlib.Core.List.{append-nil}
use native.Mathlib.Nat.{add_assoc}
use a2akit.Wire.{StreamEvent}
use a2akit.EventBus.{BufferedEvent, is_stream_terminal, replay, live_events, iter_events}

-- The events of a task from number n + 1 on, as `publish` numbers them.
abbrev pub numbered : ℕ → List StreamEvent → List BufferedEvent
numbered n [] = []
numbered n (e ∷ es) = record { id = n + 1; event = e } ∷ numbered (n + 1) es

pub drop-append :
    {A : Type 0} (n : ℕ) (xs ys : List A) → n ≤ length xs → drop n (xs ++ ys) ≡ drop n xs ++ ys
drop-append zero xs ys h = refl
drop-append (suc n) [] ys h = absurd (omega arith)
drop-append (suc n) (x ∷ xs) ys h = drop-append n xs ys (omega arith)

-- A stream up to and with its first terminal event.
abbrev pub upto_terminal : List BufferedEvent → List BufferedEvent
upto_terminal [] = []
upto_terminal (b ∷ rest) = if is_stream_terminal b.event then b ∷ [] else b ∷ upto_terminal rest

abbrev closes : List BufferedEvent → Bool
closes = any (λ b. is_stream_terminal b.event)

pub numbered-append :
    (n : ℕ) (xs ys : List StreamEvent)
    → numbered n (xs ++ ys) ≡ numbered n xs ++ numbered (n + length xs) ys
numbered-append n [] ys = ap (λ k. numbered k ys) (omega arith)
numbered-append n (x ∷ xs) ys =
    ap (◌∷◌ (record { id = n + 1; event = x }))
      (numbered-append (n + 1) xs ys ∙ ap (λ k. numbered (n + 1) xs ++ numbered k ys) (omega arith))

upto-append :
    (xs ys : List BufferedEvent)
    → upto_terminal (xs ++ ys) ≡ (if closes xs then upto_terminal xs else xs ++ upto_terminal ys)
upto-append [] ys = refl
upto-append (x ∷ xs) ys = ground (arith, upto-append xs ys)

live-all :
    (n last : ℕ) (es : List StreamEvent)
    → last ≤ n
    → live_events (numbered n es) last ≡ upto_terminal (numbered n es)
unfolding live_events
live-all n last [] h = refl
live-all n last (e ∷ es) h = ground (arith, live-all (n + 1) last es)

live-skip :
    (n last : ℕ) (xs ys : List StreamEvent)
    → n + length xs ≤ last
    → live_events (numbered n (xs ++ ys)) last ≡ live_events (numbered (n + length xs) ys) last
unfolding live_events
live-skip n last [] ys h = ap (λ k. live_events (numbered k ys) last) (omega arith)
live-skip n last (x ∷ xs) ys h = ground (arith, live-skip (n + 1) last xs ys, add_one n (length xs))
  where
    add_one : (n m : ℕ) → n + suc m ≡ n + 1 + m
    add_one n m = omega arith

replay-skip :
    (n after last : ℕ) (xs ys : List StreamEvent)
    → n + length xs ≤ after
    → replay (numbered n (xs ++ ys)) after last ≡ replay (numbered (n + length xs) ys) after last
unfolding replay
replay-skip n after last [] ys h = ap (λ k. replay (numbered k ys) after last) (omega arith)
replay-skip n after last (x ∷ xs) ys h =
    ground (arith, replay-skip (n + 1) after last xs ys, add_one n (length xs))
  where
    add_one : (n m : ℕ) → n + suc m ≡ n + 1 + m
    add_one n m = omega arith

abbrev last_id : ℕ → ℕ → List StreamEvent → ℕ
last_id n last [] = last
last_id n last (e ∷ es) = n + length (e ∷ es)

last_id-pos :
    (n last : ℕ) (es : List StreamEvent) → 0 < length es → last_id n last es ≡ n + length es
last_id-pos n last [] h = absurd (omega arith)
last_id-pos n last (e ∷ es) h = refl

last_id-le : (n : ℕ) (es : List StreamEvent) → last_id n 0 es ≤ n + length es
last_id-le n [] = omega arith
last_id-le n (e ∷ es) = omega arith

last_id-next : (n : ℕ) (es : List StreamEvent) → last_id (n + 1) (n + 1) es ≡ n + suc (length es)
last_id-next n [] = omega arith
last_id-next n (e ∷ es) = omega arith

-- The replay phase past the client's last event.
replay-all :
    (n after last : ℕ) (es : List StreamEvent)
    → after ≤ n
    → ((replay (numbered n es) after last).0 ≡ upto_terminal (numbered n es))
      × ((replay (numbered n es) after last).2 ≡ closes (numbered n es))
      × (closes (numbered n es) ≡ false
          → ((replay (numbered n es) after last).1 ≡ last_id n last es)
            × (upto_terminal (numbered n es) ≡ numbered n es))
unfolding replay
replay-all n after last [] h = (refl, refl, λ c. (refl, refl))
replay-all n after last (e ∷ es) h =
    let ih = replay-all (n + 1) after (n + 1) es (omega arith) in
    (ground (arith, ih.0), ground (arith, ih.1), λ c. ground (arith, ih.2, last_id-next n es))

live-after :
    (n : ℕ) (unseen during later : List StreamEvent)
    → live_events (numbered (n + length unseen) (during ++ later)) (last_id n 0 (unseen ++ during))
      ≡ upto_terminal (numbered (n + length (unseen ++ during)) later)
live-after n unseen [] later =
    rw (append-nil unseen) (live-all (n + length unseen) _ later (last_id-le n unseen))
live-after n unseen (d ∷ during) later =
    let total : length (unseen ++ d ∷ during) ≡ length unseen + suc (length during) =
      length-append unseen (d ∷ during) in
    rw (last_id-pos n 0 (unseen ++ d ∷ during) (omega (arith, total))) (
      live-skip (n + length unseen) _ (d ∷ during) later (omega (arith, total))
      ∙ rw (total, ← add_assoc n (length unseen) (suc (length during)))
          (live-all (n + length unseen + suc (length during)) _ later (omega arith)))

resumed :
    (n : ℕ) (unseen during later : List StreamEvent)
    → (if (replay (numbered n (unseen ++ during)) n 0).2
        then (replay (numbered n (unseen ++ during)) n 0).0
        else (replay (numbered n (unseen ++ during)) n 0).0
          ++ live_events
              (numbered (n + length unseen) (during ++ later))
              (replay (numbered n (unseen ++ during)) n 0).1)
      ≡ upto_terminal (numbered n (unseen ++ during ++ later))
resumed n unseen during later =
    let (out, done, rest) = replay-all n n 0 (unseen ++ during) (omega arith) in
    rw (numbered-append n (unseen ++ during) later) (
      rw
        (
          upto-append (numbered n (unseen ++ during))
              (numbered (n + length (unseen ++ during)) later),
          done,
          out,
        )
        (elim (Bool-cases (closes (numbered n (unseen ++ during)))) [
          | inl c ↦ rw c refl
          | inr c ↦
              rw (c, (rest c).0, (rest c).1)
                (ap (◌++◌ (numbered n (unseen ++ during))) (live-after n unseen during later))
        ]))

-- The same for any buffer that begins with an event that the client saw, or right after it.
iter_events-from :
    (b snapshot_id : ℕ) (seen unseen during later : List StreamEvent)
    → iter_events
        (numbered b (seen ++ (unseen ++ during)))
        (numbered (b + length seen + length unseen) (during ++ later))
        (some (some (b + length seen)))
        snapshot_id
      ≡ upto_terminal (numbered (b + length seen) (unseen ++ during ++ later))
unfolding iter_events
iter_events-from b snapshot_id seen unseen during later =
    rw (replay-skip b (b + length seen) 0 seen (unseen ++ during) (omega arith))
      (resumed (b + length seen) unseen during later)

drop-numbered :
    (j n : ℕ) (es : List StreamEvent)
    → j ≤ length es
    → drop j (numbered n es) ≡ numbered (n + j) (drop j es)
drop-numbered zero n es h = ap (λ k. numbered k es) (omega arith)
drop-numbered (suc j) n [] h = absurd (omega arith)
drop-numbered (suc j) n (e ∷ es) h =
    drop-numbered j (n + 1) es (omega arith) ∙ ap (λ k. numbered k (drop j es)) (omega arith)

-- A client that saw the log of a task up to `seen` resumes, after `unseen` was published, while
-- `during` is published between its subscription and the replay, and `later` after it. Where what it
-- missed until the replay is no more than the replay buffer holds, and its live stream loses no
-- event, it gets the rest of the log, in order, each event once, up to the first terminal event.
pub iter_events-resume :
    (size snapshot_id : ℕ) (seen unseen during later : List StreamEvent)
    → length (unseen ++ during) ≤ size
    → let log = seen ++ (unseen ++ during) in
      iter_events
        (drop (length log - size) (numbered 0 log))
        (numbered (length seen + length unseen) (during ++ later))
        (some (some (length seen)))
        snapshot_id
      ≡ upto_terminal (numbered (length seen) (unseen ++ during ++ later))
iter_events-resume size snapshot_id seen unseen during later h =
    let log = seen ++ (unseen ++ during) in
    let lost = length log - size in
    let total : length log ≡ length seen + length (unseen ++ during) =
      length-append seen (unseen ++ during) in
    let fits : lost ≤ length seen = omega (arith, total) in
    let place : lost + length (drop lost seen) ≡ length seen =
      omega (arith, length-drop lost seen, fits) in
    let buffer : drop lost (numbered 0 log) ≡ numbered lost (drop lost seen ++ (unseen ++ during)) =
      drop-numbered lost 0 log (omega (arith, fits, total))
      ∙ (ap (λ n. numbered n (drop lost log)) (omega arith)
          ∙ ap (numbered lost) (drop-append lost seen (unseen ++ during) fits)) in
    rw buffer (
      subst
        (λ n.
          iter_events (numbered lost (drop lost seen ++ (unseen ++ during)))
            (numbered (n + length unseen) (during ++ later)) (some (some n)) snapshot_id
          ≡ upto_terminal (numbered n (unseen ++ during ++ later)))
        place (iter_events-from lost snapshot_id (drop lost seen) unseen during later))

-- A first subscription gets what is published after its bookmark, each event once.
pub iter_events-first :
    (n : ℕ) (buffer : List BufferedEvent) (later : List StreamEvent)
    → iter_events buffer (numbered n later) none n ≡ upto_terminal (numbered n later)
unfolding iter_events
iter_events-first n buffer later = live-all n n later (omega arith)
