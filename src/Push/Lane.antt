-- ===== src/Push/Lane.antt =====
-- push/delivery.py: the queue of one webhook, `_enqueue`, and its worker, `_queue_worker`. The queue
-- is `asyncio.Queue(maxsize=m)`, where 0 stands for no bound.
pub mod Order
use a2akit.Prelude.{
  ℕ, suc, Bool, false, Option, none, some, List, [], ◌∷◌, ◌++◌, length, leb, eqb, if◌then◌else◌,
}
use a2akit.Wire.{Task, is_terminal}

-- A snapshot, or the sentinel that ends the worker.
abbrev pub Item : Type 0
Item = Option Task

-- Queue.full
abbrev pub is_full : ℕ → ℕ → Bool
is_full m n = if eqb m 0 then false else leb m n

-- The loop of `_enqueue`: while the queue is full its oldest entry is dropped. An empty queue takes
-- the item.
unfoldable pub enqueue {ℓ} : {A : Type ℓ} → ℕ → List A → A → List A
enqueue m [] x = x ∷ []
enqueue m (y ∷ q) x =
    let rest = enqueue m q x in if is_full m (suc (length q)) then rest else y ∷ (q ++ x ∷ [])

-- Where the worker stands: in `queue.get`, in `_deliver_single`, or past its loop.
pub data Phase : Type 0 where
  waiting : Phase
  sending : Task → Phase
  stopped : Phase

pub record Lane : Type 0 where
  pub queue : List Item
  pub phase : Phase

abbrev pub fresh_lane : Lane
fresh_lane = record { queue = []; phase = waiting }

unfoldable pub put : ℕ → Lane → Item → Lane
put m l x = record l { queue = enqueue m l.queue x }

-- What the worker does with the item that it takes.
abbrev pub taken : Item → Phase
taken none = stopped
taken (some t) = sending t

-- After the delivery of `t`, whatever became of it: the worker leaves once the queue is drained and
-- the state is terminal.
unfoldable pub delivered : List Item → Task → Phase
delivered [] t = if is_terminal t.status.state then stopped else waiting
delivered (x ∷ q) t = waiting

-- The idle timeout: the worker goes on if an item came in, and else leaves.
unfoldable pub idle : List Item → Phase
idle [] = stopped
idle (x ∷ q) = waiting

-- The steps of a lane, from its opening: with the items that were put on its queue, in order, and
-- those that its worker took.
pub data Run (m : ℕ) : List Item → List Item → Lane → Type 0 where
  opens : Run m [] [] fresh_lane
  arrives :
      {all ts : List Item} {l : Lane}
      → (x : Item) → Run m all ts l
      → Run m (all ++ x ∷ []) ts (put m l x)
  takes :
      {all ts q : List Item} (x : Item)
      → Run m all ts (record { queue = x ∷ q; phase = waiting })
      → Run m all (ts ++ x ∷ []) (record { queue = q; phase = taken x })
  finishes :
      {all ts q : List Item} (t : Task)
      → Run m all ts (record { queue = q; phase = sending t })
      → Run m all ts (record { queue = q; phase = delivered q t })
  times_out :
      {all ts q : List Item}
      → Run m all ts (record { queue = q; phase = waiting })
      → Run m all ts (record { queue = q; phase = idle q })
  cancelled :
      {all ts : List Item} {l : Lane} → Run m all ts l → Run m all ts (record l { phase = stopped })
