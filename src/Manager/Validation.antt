-- ===== src/Manager/Validation.antt =====
-- Which messages a follow-up accepts, and what a duplicate does.
use a2akit.Prelude.{
  String, ◌≡◌, ◌⊎◌, inl, inr, ◌↔◌, refl, ap, sym, subst, not, ◌&&◌, ◌==◌, if◌then◌else◌, Bool, true,
  false, Option, none, some, eq_iff,
}
use a2akit.Wire.{Task, Message, is_terminal, is_turn_end}
use a2akit.Errors.{
  Error, Result, ok, task_terminal_state, context_mismatch, task_not_accepting_messages,
}
use a2akit.Push.Store.{text_or}
use a2akit.Manager.{
  validated, truthy, is_agent_role, has_message, submit_follow_up, load_and_validate,
}
use a2akit.Storage.{load_task}
use a2akit.Runtime.{World, pause, ◌>>=◌, pure, raise, get_version, load}

-- The task is open, the message names no other context, and it is the message's turn: the task
-- waits for input, or the message is the agent's.
abbrev pub Welcome : Message → Task → Type 0
Welcome m t =
    (is_terminal t.status.state ≡ false)
    × ((truthy m.context_id ≡ false) ⊎ (text_or m.context_id "" ≡ t.context_id))
    × ((is_turn_end t.status.state ≡ true) ⊎ (is_agent_role m.role ≡ true))

same_context :
    (m : Message) (t : Task)
    → ((truthy m.context_id && not (text_or m.context_id "" == t.context_id)) ≡ false)
      ↔ ((truthy m.context_id ≡ false) ⊎ (text_or m.context_id "" ≡ t.context_id))
same_context m t = go (truthy m.context_id) (text_or m.context_id "" == t.context_id) (eq_iff _ _)
  where
    go : {P : Type 0} (b c : Bool) → ((c ≡ true) ↔ P) → ((b && not c) ≡ false) ↔ ((b ≡ false) ⊎ P)
    go false c e = (λ h. inl refl, λ h. refl)
    go true true e = (λ h. inr (e.0 refl), λ h. refl)
    go true false e = (λ h. cc, λ h. elim h [ inl q ↦ cc | inr p ↦ cc (e.1 p) ])

its_turn : (a b : Bool) → ((not a && not b) ≡ false) ↔ ((a ≡ true) ⊎ (b ≡ true))
its_turn true b = (λ h. inl refl, λ h. refl)
its_turn false true = (λ h. inr refl, λ h. refl)
its_turn false false = (λ h. cc, λ h. elim h [ inl q ↦ cc | inr p ↦ cc ])

some_injective : {a b : Task} → some a ≡ some b → a ≡ b
some_injective e = cc

pair_ok : {a b : Task} {w : World} → ◌≡◌ {A = Result Task × World} (ok a, w) (ok b, w) → a ≡ b
pair_ok e = cc

-- Three guards in a row pass exactly when none of them holds.
guards :
    (a b c : Bool) (x y z : Error) (t t' : Task) (w : World)
    → ((if a then raise x else if b then raise y else if c then raise z else pure t') w) ≡ (ok t, w)
      ↔ ((some t' ≡ some t) × (a ≡ false) × (b ≡ false) × (c ≡ false))
unfolding raise pure
guards true b c x y z t t' w = (λ h. cc, λ (e, p, q, r). cc)
guards false true c x y z t t' w = (λ h. cc, λ (e, p, q, r). cc)
guards false false true x y z t t' w = (λ h. cc, λ (e, p, q, r). cc)
guards false false false x y z t t' w =
    (λ h. (ap some (pair_ok h), refl, refl, refl), λ (e, p, q, r). cc)

-- The preconditions of a follow-up pass exactly on a task that exists and welcomes the message.
pub validated_iff :
    (m : Message) (found : Option Task) (t : Task) (w : World)
    → (validated m found w ≡ (ok t, w)) ↔ ((found ≡ some t) × Welcome m t)
unfolding validated raise
validated_iff m none t w = (λ h. cc, λ (e, q). cc)
validated_iff m (some t') t w =
    let g =
      guards (is_terminal t'.status.state)
        (truthy m.context_id && not (text_or m.context_id "" == t'.context_id))
        (not (is_turn_end t'.status.state) && not (is_agent_role m.role)) task_terminal_state
        context_mismatch (task_not_accepting_messages t'.status.state) t t' w in
    let context = same_context m t' in
    let turn = its_turn (is_turn_end t'.status.state) (is_agent_role m.role) in
    (
      λ h.
          let (e, p, q, r) = g.0 h in
          (e, subst (Welcome m) (some_injective e) (p, context.0 q, turn.0 r)),
      λ (e, welcome).
          let (p', q', r') = subst (Welcome m) (sym (some_injective e)) welcome in
          g.1 (e, p', context.1 q', turn.1 r'),
    )

load_and_validate-Welcome :
    (k : String) (m : Message) (t : Task) (w : World)
    → load_task (pause w).storage k none true ≡ some t
    → Welcome m t
    → load_and_validate k m w ≡ (ok t, pause w)
unfolding load_and_validate load ◌>>=◌
load_and_validate-Welcome k m t w found welcome =
    rw found ((validated_iff m (some t) t (pause w)).1 (refl, welcome))

-- A follow-up whose message is in the task's history writes nothing: it answers with the task, and
-- tells the caller that it is not new. What other writers do before its two reads is all that
-- happens.
pub submit_follow_up_duplicate :
    (k : String) (m : Message) (t : Task) (w : World)
    → load_task (pause (pause w)).storage k none true ≡ some t
    → Welcome m t
    → has_message m.message_id t ≡ true
    → submit_follow_up k m w ≡ (ok (t, false), pause (pause w))
unfolding submit_follow_up get_version ◌>>=◌ pure
submit_follow_up_duplicate k m t w found welcome twin =
    rw (load_and_validate-Welcome k m t (pause w) found welcome) (rw twin refl)
