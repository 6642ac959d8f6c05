-- ===== src/Redis/Kept.antt =====
-- At least once: no operation is lost, wherever the process stops.
use a2akit.Prelude.{
  ℕ, ◌+◌, String, ◌≡◌, ◌∙◌, refl, subst, Bool, true, false, ◌==◌, ◌⊎◌, inl, inr, Option, none, some,
  List, [], ◌∷◌, any, any-append, eqb, eqb_iff, eq_refl, ltb, arith, Bool-cases,
}
use a2akit.Runtime.{RunTask}
use a2akit.Redis.Server.{Entry, Redis, Documented, xadd_dead, xack, hdel, Step, run_step}
use a2akit.Redis.Broker.{
  one, requeue_not_due, not_due, discard, attempt_of, read_decoded, claim_decoded, receive, claim,
  undecodable,
}

abbrev pub has_op : String → List Entry → Bool
has_op op es = any (λ e. e.op == op) es

module _ (r : Redis) where
  -- The group still has to handle an entry with the operation, or it is among the dead letters.
  abbrev pub IsKept : String → r.State → Type 0
  IsKept op s =
      ((i : ℕ) × (e : Entry) × (r.outstanding s i ≡ some e) × (e.op ≡ op))
      ⊎ (has_op op (r.dead_letters s) ≡ true)

  -- Before the first step, between any two, and after the last: wherever the process stops.
  abbrev pub Throughout : (r.State → Type 0) → List Step → r.State → Type 0
  Throughout P [] s = P s
  Throughout P (c ∷ cs) s = P s × Throughout P cs (run_step r c s)

module _ (r : Redis) (d : Documented r) where
  pub distinct :
      (s : r.State) (i j : ℕ) (e : Entry)
      → r.outstanding s i ≡ none
      → r.outstanding s j ≡ some e
      → (eqb i j) ≡ false
  distinct s i j e missing found = elim (Bool-cases (eqb i j)) [
    | inr n ↦ n
    | inl same ↦
        let p : i ≡ j = (eqb_iff i j).0 same in cc (subst (λ x. r.outstanding s x ≡ none) p missing)
  ]

  -- The operation of the entry that XADD has put among the dead letters.
  dead_added-has_op :
      (e : Entry) (op : String) (s : r.State)
      → r.has_room s ≡ true
      → e.op ≡ op
      → has_op op (r.dead_letters (r.xadd_dead e s)) ≡ true
  dead_added-has_op e op s room same =
      rw (d.dead_added e s room, any-append (λ x. x.op == op) (r.dead_letters s) (e ∷ [])) ground
        (arith, same, eq_refl op)

  -- From the dead letters nothing is taken.
  dead_kept :
      (op : String) (i : ℕ) (s : r.State)
      → has_op op (r.dead_letters s) ≡ true
      → (has_op op (r.dead_letters (r.xack i s)) ≡ true)
        × (has_op op (r.dead_letters (r.hdel i s)) ≡ true)
  dead_kept op i s h = (rw (d.xack_dead_letters i s) h, rw (d.hdel_dead_letters i s) h)

  -- XADD of an entry, XACK of another and HDEL leave the new entry outstanding.
  requeued :
      (msg_id : ℕ) (e e' : Entry) (s : r.State)
      → r.outstanding s msg_id ≡ some e
      → r.outstanding (r.hdel msg_id (r.xack msg_id (r.xadd e' s))) (r.next_id s) ≡ some e'
  requeued msg_id e e' s found =
      d.hdel_outstanding msg_id (r.next_id s) _
      ∙ d.xack_other (r.next_id s) msg_id _ (distinct s _ _ e (d.next_is_new s) found)
      ∙ d.xadd_new e' s

  requeue_not_due-IsKept :
      (msg_id : ℕ) (e : Entry) (s : r.State)
      → r.outstanding s msg_id ≡ some e
      → Throughout r (IsKept r e.op) (requeue_not_due msg_id e) s
  unfolding requeue_not_due
  requeue_not_due-IsKept msg_id e s found =
      (inl (msg_id, e, found, refl), inl (r.next_id s, e, requeued msg_id e e s found, refl))

  discard-IsKept :
      (msg_id : ℕ) (e : Entry) (s : r.State)
      → r.outstanding s msg_id ≡ some e
      → r.has_room s ≡ true
      → Throughout r (IsKept r e.op) (discard msg_id e) s
  discard-IsKept msg_id e s found room =
      let added = dead_added-has_op (undecodable e) e.op s room refl in
      (inl (msg_id, e, found, refl), (inr added, inr (dead_kept e.op msg_id _ added).0))

  -- The dead letters first, then XACK, then HDEL.
  buried-IsKept :
      (msg_id : ℕ) (e e' : Entry) (s : r.State)
      → r.outstanding s msg_id ≡ some e
      → r.has_room s ≡ true
      → e'.op ≡ e.op
      → Throughout r
          (IsKept r e.op)
          (one (xadd_dead e') ∷ (one (xack msg_id) ∷ (one (hdel msg_id) ∷ [])))
          s
  buried-IsKept msg_id e e' s found room same =
      let added = dead_added-has_op e' e.op s room same in
      let acked = (dead_kept e.op msg_id _ added).0 in
      (
        inl (msg_id, e, found, refl),
        (inr added, (inr acked, inr (dead_kept e.op msg_id _ acked).1)),
      )

  module _ (max_retries : ℕ) (deserialize : Entry → Option RunTask) where
    read_decoded-IsKept :
        (msg_id : ℕ) (e : Entry) (op : Option RunTask) (s : r.State)
        → r.outstanding s msg_id ≡ some e
        → r.has_room s ≡ true
        → Throughout r (IsKept r e.op) (read_decoded max_retries deserialize msg_id e op).0 s
    read_decoded-IsKept msg_id e none s found room = discard-IsKept msg_id e s found room
    read_decoded-IsKept msg_id e (some op) s found room = inl (msg_id, e, found, refl)

    claim_decoded-IsKept :
        (msg_id : ℕ) (e : Entry) (claimed : ℕ) (op : Option RunTask) (s : r.State)
        → r.outstanding s msg_id ≡ some e
        → r.has_room s ≡ true
        → Throughout r
            (IsKept r e.op)
            (claim_decoded max_retries deserialize msg_id e claimed op).0
            s
    claim_decoded-IsKept msg_id e claimed none s found room = discard-IsKept msg_id e s found room
    claim_decoded-IsKept msg_id e claimed (some op) s found room =
        let counted = d.hincrby_outstanding msg_id msg_id s ∙ found in
        elim (Bool-cases (ltb max_retries (attempt_of e + claimed))) [
          | inl over ↦ rw over (
            inl (msg_id, e, found, refl),
            buried-IsKept msg_id e _ (r.hincrby msg_id s) counted (d.hincrby_room msg_id s ∙ room)
                refl,
          )
          | inr under ↦ rw under (inl (msg_id, e, found, refl), inl (msg_id, e, counted, refl))
        ]

    -- With the laws of Redis, and room in the streams: whatever the broker does with a message that
    -- it has read, or with one that it has claimed from a consumer that died, and wherever its
    -- process stops meanwhile, the operation of the message is outstanding or among the dead letters.
    pub handling-IsKept :
        (msg_id : ℕ) (e : Entry) (crashes now : ℕ) (s : r.State)
        → r.outstanding s msg_id ≡ some e
        → r.has_room s ≡ true
        → Throughout r (IsKept r e.op) (receive max_retries deserialize msg_id e now).0 s
          × Throughout r
              (IsKept r e.op)
              (claim max_retries deserialize msg_id (some e) crashes now).0
              s
    unfolding receive claim
    handling-IsKept msg_id e crashes now s found room = elim (Bool-cases (not_due e now)) [
      | inl later ↦
          rw later
            (requeue_not_due-IsKept msg_id e s found, requeue_not_due-IsKept msg_id e s found)
      | inr due ↦ rw due (
        read_decoded-IsKept msg_id e (deserialize e) s found room,
        claim_decoded-IsKept msg_id e (crashes + 1) (deserialize e) s found room,
      )
    ]
