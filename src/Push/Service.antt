-- ===== src/Push/Service.antt =====
-- push/delivery.py: `WebhookDeliveryService.deliver`. The dictionaries `_delivery_queues` and
-- `_queue_workers` always have the same keys, a task's and a configuration's identifier: they are
-- one list of entries here, in order of insertion.
pub mod Lanes
use a2akit.Prelude.{
  ℕ, String, Bool, true, false, ◌&&◌, ◌==◌, Option, none, some, List, [], ◌∷◌, ◌++◌, if◌then◌else◌,
}
use a2akit.Wire.{Task}
use a2akit.Push.Store.{TaskPushConfig, text_or}
use a2akit.Push.Lane.{Item, Phase, stopped, Lane, fresh_lane, put}

-- A worker with the configuration that it was started with, and its queue.
pub record Worker : Type 0 where
  pub config : TaskPushConfig
  pub lane : Lane

abbrev pub Key : Type 0
Key = String × String

abbrev pub Workers : Type 0
Workers = List (Key × Worker)

abbrev pub same_key : Key → Key → Bool
same_key (a, b) (c, d) = (a == c) && (b == d)

unfoldable pub find : Workers → Key → Option Worker
find [] k = none
find ((j, w) ∷ ws) k = if same_key j k then some w else find ws k

unfoldable pub remove : Workers → Key → Workers
remove [] k = []
remove ((j, w) ∷ ws) k = let rest = remove ws k in if same_key j k then rest else (j, w) ∷ rest

-- `Task.done`
abbrev pub is_done : Phase → Bool
is_done stopped = true
is_done _ = false

abbrev pub started : TaskPushConfig → Worker
started c = record { config = c; lane = fresh_lane }

-- The worker that serves the key: the one there is, unless it has left, or a new one.
abbrev pub serving : TaskPushConfig → Option Worker → Worker
serving c none = started c
serving c (some w) = if is_done w.lane.phase then started c else w

unfoldable pub ensure : Workers → Key → TaskPushConfig → Workers
ensure ws k c = elim (find ws k) [
  | none ↦ remove ws k ++ (k, started c) ∷ []
  | some w ↦ if is_done w.lane.phase then remove ws k ++ (k, started c) ∷ [] else ws
]

abbrev pub offered : ℕ → Worker → Item → Worker
offered m w x = record w { lane = put m w.lane x }

-- `_enqueue` on the queue of a key that is there
unfoldable pub enqueue_at : ℕ → Workers → Key → Item → Workers
enqueue_at m [] k x = []
enqueue_at m ((j, w) ∷ ws) k x =
    let rest = enqueue_at m ws k x in
    if same_key j k then (j, offered m w x) ∷ ws else (j, w) ∷ rest

abbrev pub key_of : Task → TaskPushConfig → Key
key_of t c = (t.id, text_or c.config.id "default")

unfoldable pub deliver : ℕ → Workers → List TaskPushConfig → Task → Workers
deliver m ws [] t = ws
deliver m ws (c ∷ cs) t =
    deliver m (enqueue_at m (ensure ws (key_of t c) c) (key_of t c) (some t)) cs t
