-- ===== src/Redis/Retry.antt =====
-- `RedisOperationHandle.nack`: where an operation is after it, and between its commands.
use a2akit.Prelude.{
  ℕ, zero, suc, ◌+◌, ◌<◌, ◌≤◌, String, ◌≡◌, ◌∙◌, sym, subst, refl, true, false, eqb, ◌⊎◌, inl, inr,
  none, some, [], ◌∷◌, ◌++◌, take, ltb, arith, Bool-cases, eqb_iff,
}
use a2akit.Redis.Server.{Entry, Redis, Documented, run}
use a2akit.Redis.Broker.{OperationHandle, nack, retried, due_at}
use a2akit.Redis.Kept.{has_op, IsKept, distinct}

-- The next attempt at an operation: not before the delay is over, if there is one.
abbrev pub IsNext : OperationHandle → ℕ → ℕ → Entry → Type 0
IsNext h now delay e =
    (e.op ≡ h.serialized_op)
    × (e.attempt ≡ some (h.attempt + 1))
    × (((delay ≡ 0) × (e.not_before ≡ none)) ⊎ ((0 < delay) × (e.not_before ≡ some (now + delay))))

module _ (r : Redis) where
  -- After `nack`: the operation is outstanding again with one attempt more, or it is the last of
  -- the dead letters, and then the attempts are used up.
  abbrev pub IsRetried : OperationHandle → ℕ → ℕ → r.State → r.State → Type 0
  IsRetried h now delay s s' =
      ((h.attempt < h.max_retries)
        × (r.dead_letters s' ≡ r.dead_letters s)
        × (i : ℕ) × (e : Entry) × (r.outstanding s' i ≡ some e)
        × IsNext h now delay e)
      ⊎ ((h.max_retries ≤ h.attempt)
          × (e : Entry) × (r.dead_letters s' ≡ r.dead_letters s ++ e ∷ [])
          × IsNext h now 0 e)

retried-IsNext :
    (h : OperationHandle) (now delay : ℕ) → IsNext h now delay (retried h (due_at now delay))
retried-IsNext h now zero = (refl, refl, inl (refl, refl))
retried-IsNext h now (suc delay) =
    let delayed : ltb 0 (suc delay) ≡ true = ground arith in
    (refl, refl, inr (omega arith, rw delayed refl))

module _ (r : Redis) (d : Documented r) where
  not_next :
      (msg_id : ℕ) (e : Entry) (s : r.State)
      → r.outstanding s msg_id ≡ some e
      → eqb msg_id (r.next_id s) ≡ false
  not_next msg_id e s found =
      let apart = distinct r d s (r.next_id s) msg_id e (d.next_is_new s) found in
      ground (arith, apart, eqb_iff (r.next_id s) msg_id, eqb_iff msg_id (r.next_id s))

  gone_after_xadd :
      (msg_id : ℕ) (e e' : Entry) (s : r.State)
      → r.outstanding s msg_id ≡ some e
      → r.has_room s ≡ true
      → r.outstanding (r.hdel msg_id (r.xadd e' (r.xack msg_id s))) msg_id ≡ none
  gone_after_xadd msg_id e e' s found room =
      let other : eqb msg_id (r.next_id (r.xack msg_id s)) ≡ false =
        rw (d.xack_next msg_id s) (not_next msg_id e s found) in
      d.hdel_outstanding msg_id msg_id _
      ∙ d.xadd_other e' (r.xack msg_id s) msg_id (d.xack_room msg_id s ∙ room) other
      ∙ d.xack_same msg_id s

  -- With the laws of Redis, and room in the streams: `nack` of a message that is outstanding takes
  -- it off the group. While attempts are left, its operation is outstanding under another
  -- identifier with the next attempt, not before the delay is over, and no dead letter is added;
  -- otherwise it is added to the dead letters.
  pub nack-IsRetried :
      (h : OperationHandle) (now delay : ℕ) (e : Entry) (s : r.State)
      → r.outstanding s h.msg_id ≡ some e
      → r.has_room s ≡ true
      → (r.outstanding (run r (nack h now delay) s) h.msg_id ≡ none)
        × IsRetried r h now delay s (run r (nack h now delay) s)
  unfolding nack
  nack-IsRetried h now delay e s found room =
      let dead = retried h none in
      let again = retried h (due_at now delay) in
      let acked = r.xack h.msg_id s in
      elim (Bool-cases (ltb h.max_retries (h.attempt + 1))) [
        | inl over ↦
            let used : h.max_retries ≤ h.attempt = ground (arith, over) in
            rw over (
              d.hdel_outstanding h.msg_id h.msg_id _ ∙ d.xack_same h.msg_id (r.xadd_dead dead s),
              inr (
                used,
                dead,
                d.hdel_dead_letters h.msg_id _
                    ∙ d.xack_dead_letters h.msg_id _
                    ∙ d.dead_added dead s room,
                retried-IsNext h now 0,
              ),
            )
        | inr under ↦
            let left : h.attempt < h.max_retries = ground (arith, under) in
            rw under (
              gone_after_xadd h.msg_id e again s found room,
              inl (
                left,
                d.hdel_dead_letters h.msg_id _
                    ∙ d.xadd_dead_letters again acked
                    ∙ d.xack_dead_letters h.msg_id s,
                r.next_id acked,
                again,
                d.hdel_outstanding h.msg_id _ _ ∙ d.xadd_new again acked,
                retried-IsNext h now delay,
              ),
            )
      ]

  lost :
      (msg_id : ℕ) (op : String) (s : r.State)
      → ((i : ℕ) (e : Entry) → r.outstanding s i ≡ some e → e.op ≡ op → i ≡ msg_id)
      → has_op op (r.dead_letters s) ≡ false
      → ¬ IsKept r op (r.xack msg_id s)
  lost msg_id op s only dead (inr h) = cc (rw (d.xack_dead_letters msg_id s) at h)
  lost msg_id op s only dead (inl (i, e, found, same)) = elim (Bool-cases (eqb i msg_id)) [
    | inl hit ↦
        let p : i ≡ msg_id = (eqb_iff i msg_id).0 hit in
        cc (subst (λ x. r.outstanding (r.xack msg_id s) x ≡ some e) p found, d.xack_same msg_id s)
    | inr miss ↦
        let p : i ≡ msg_id = only i e (sym (d.xack_other i msg_id s miss) ∙ found) same in
        cc ((eqb_iff i msg_id).1 p, miss)
  ]

  -- The two commands of a retry are sent in a pipeline without a transaction, XACK first. With the
  -- laws of Redis: where the message is the only one with its operation, and attempts are left, a
  -- process that stops between the two has lost the operation: it is neither outstanding nor among
  -- the dead letters.
  pub retry_gap :
      (h : OperationHandle) (now delay : ℕ) (s : r.State)
      → h.attempt < h.max_retries
      → ((i : ℕ) (e : Entry) → r.outstanding s i ≡ some e → e.op ≡ h.serialized_op → i ≡ h.msg_id)
      → has_op h.serialized_op (r.dead_letters s) ≡ false
      → ¬ IsKept r h.serialized_op (run r (take 1 (nack h now delay)) s)
  unfolding nack
  retry_gap h now delay s left only dead =
      let under : ltb h.max_retries (h.attempt + 1) ≡ false = ground (arith, left) in
      rw under (lost h.msg_id h.serialized_op s only dead)
