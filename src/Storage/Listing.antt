-- ===== src/Storage/Listing.antt =====
-- storage/memory.py: `list_tasks`. Page tokens are texts that `str` writes and `int` reads, which
-- are arguments. A timestamp is held as its ISO text, and one that is missing as the empty text.
pub mod Pages
use Prim.Native.String.{compare}
use package.text.Mathlib.Text.{is_le, is_lt}
use Prim.Native.Nat.{Ordering}
use a2akit.Prelude.{
  ℕ, suc, ◌+◌, ◌-◌, ℤ, pos, negsuc, String, Bool, true, false, not, ◌&&◌, ◌==◌, Option, none, some,
  List, [], ◌∷◌, map, keep, length, take, drop, ltb, leb, if◌then◌else◌,
}
use a2akit.Dict
use a2akit.Wire.{TaskState, TaskState-discrete, Task, MetaValue, text, meta_tenant_key}
use a2akit.Storage.{Storage, view}

pub record ListTasksQuery : Type 0 where
  pub context_id : Option String
  pub tenant : Option String
  pub status : Option TaskState
  pub page_size : ℕ
  pub page_token : Option String
  pub history_length : Option ℤ
  pub status_timestamp_after : Option String
  pub include_artifacts : Bool

pub record ListTasksResult : Type 0 where
  pub tasks : List Task
  pub next_page_token : String
  pub page_size : ℕ
  pub total_size : ℕ

-- `_sort_key(t) > _sort_key(s)`: the timestamp, then the identifier
abbrev pub is_after : Task → Task → Bool
is_after t s = elim (compare t.status.timestamp s.status.timestamp) [
  | Ordering.lt ↦ false
  | Ordering.gt ↦ true
  | Ordering.eq ↦ is_lt (compare s.id t.id)
]

unfoldable pub insert : Task → List Task → List Task
insert t [] = t ∷ []
insert t (s ∷ ts) = let rest = insert t ts in if is_after s t then s ∷ rest else t ∷ (s ∷ ts)

-- `sorted(tasks, key=_sort_key, reverse=True)`, which keeps the order of equal keys
unfoldable pub sorted : List Task → List Task
sorted [] = []
sorted (t ∷ ts) = insert t (sorted ts)

-- `given and bad`, for an optional text: no test where it is missing or empty
abbrev pub accepts : Option String → (String → Bool) → Bool
accepts none test = true
accepts (some s) test = if s == "" then true else test s

abbrev has_status : Option TaskState → TaskState → Bool
has_status none s = true
has_status (some q) s = elim (TaskState-discrete s q) [ yes same ↦ true | no other ↦ false ]

abbrev is_text : Option MetaValue → String → Bool
is_text (some (text s)) tenant = s == tenant
is_text _ tenant = false

unfoldable pub is_listed : ListTasksQuery → Task → Bool
is_listed q t =
    accepts q.context_id (λ c. t.context_id == c)
    && (has_status q.status t.status.state
        && (accepts q.tenant (λ x. is_text (Dict.get t.metadata meta_tenant_key) x)
            && accepts q.status_timestamp_after (λ x. not (is_le (compare t.status.timestamp x)))))

abbrev pub filtered : Storage → ListTasksQuery → List Task
filtered st q = keep (is_listed q) (sorted (Dict.values st.tasks))

abbrev pub add : ℤ → ℕ → ℤ
add (pos n) k = pos (n + k)
add (negsuc n) k = if leb (suc n) k then pos (k - suc n) else negsuc (n - k)

-- An index of a slice counts from the end where it is negative, and then stops at 0.
abbrev pub index : ℕ → ℤ → ℕ
index l (pos n) = n
index l (negsuc n) = l - suc n

-- filtered[offset : offset + page_size]
abbrev pub page : List Task → ℤ → ℕ → List Task
page ts offset k =
    let l = length ts in
    let start = index l offset in take (index l (add offset k) - start) (drop start ts)

abbrev pub below : ℤ → ℕ → Bool
below (pos n) total = ltb n total
below (negsuc n) total = true

abbrev or_zero : Option ℤ → ℤ
or_zero none = pos 0
or_zero (some z) = z

module _ (int : String → Option ℤ) (str : ℤ → String) where
  abbrev pub offset_of : Option String → ℤ
  offset_of none = pos 0
  offset_of (some token) = if token == "" then pos 0 else or_zero (int token)

  unfoldable pub list_tasks : Storage → ListTasksQuery → ListTasksResult
  list_tasks st q =
      let ts = filtered st q in
      let offset = offset_of q.page_token in
      let next = add offset q.page_size in
      record {
        tasks = map (view q.history_length q.include_artifacts) (page ts offset q.page_size);
        next_page_token = if below next (length ts) then str next else "";
        page_size = q.page_size;
        total_size = length ts;
      }
