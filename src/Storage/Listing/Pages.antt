-- ===== src/Storage/Listing/Pages.antt =====
-- Following the page tokens.
use a2akit.Prelude.{
  ℕ, zero, suc, ◌+◌, ◌-◌, ◌≤◌, ◌≡◌, refl, sym, ap, ◌∙◌, ℤ, pos, String, Bool-cases, inl, inr, false,
  ◌==◌, Option, none, some, List, [], ◌∷◌, ◌++◌, map, length, take, drop, length-drop,
  append-take-drop, ltb, if◌then◌else◌, arith,
}
use a2akit.Wire.{Task}
use a2akit.Storage.{Storage, view}
use a2akit.Storage.Listing.{ListTasksQuery, is_listed, filtered, page, offset_of, list_tasks}

module _ {A : Type 0} where
  drop-drop : (n k m : ℕ) (xs : List A) → m ≡ n + k → drop k (drop n xs) ≡ drop m xs
  drop-drop zero k m xs h = let same : k ≡ m = omega arith in ap (λ i. drop i xs) same
  drop-drop (suc n) k zero xs h = absurd (omega arith)
  drop-drop (suc n) zero (suc m) [] h = refl
  drop-drop (suc n) (suc k) (suc m) [] h = refl
  drop-drop (suc n) k (suc m) (x ∷ xs) h = drop-drop n k m xs (omega arith)

  drop-all : (n : ℕ) (xs : List A) → length xs ≤ n → drop n xs ≡ []
  drop-all zero [] h = refl
  drop-all zero (x ∷ xs) h = absurd (omega arith)
  drop-all (suc n) [] h = refl
  drop-all (suc n) (x ∷ xs) h = drop-all n xs (omega arith)

  take-all : (n : ℕ) (xs : List A) → length xs ≤ n → take n xs ≡ xs
  take-all zero [] h = refl
  take-all zero (x ∷ xs) h = absurd (omega arith)
  take-all (suc n) [] h = refl
  take-all (suc n) (x ∷ xs) h = ap (◌∷◌ x) (take-all n xs (omega arith))

  map-append : {B : Type 0} (f : A → B) (xs ys : List A) → map f (xs ++ ys) ≡ map f xs ++ map f ys
  map-append f [] ys = refl
  map-append f (x ∷ xs) ys = ap (◌∷◌ (f x)) (map-append f xs ys)

module _ (int : String → Option ℤ) (str : ℤ → String) where
  -- What `str` writes of an offset is not empty, and `int` reads it back.
  abbrev pub TokenLaws : Type 0
  TokenLaws = (n : ℕ) → ((str (pos n) == "") ≡ false) × (int (str (pos n)) ≡ some (pos n))

  abbrev pub at : ListTasksQuery → String → ListTasksQuery
  at q token = record q { page_token = some token }

  abbrev pub prefixed : List Task → Option (List Task) → Option (List Task)
  prefixed ts none = none
  prefixed ts (some us) = some (ts ++ us)

  -- A client that asks for one page after the other until no token comes back; nothing where it has
  -- asked `fuel` times in vain.
  unfoldable pub follow : ℕ → Storage → ListTasksQuery → String → Option (List Task)
  follow zero st q token = none
  follow (suc fuel) st q token =
      let r = list_tasks int str st (at q token) in
      let rest = follow fuel st q r.next_page_token in
      if r.next_page_token == "" then some r.tasks else prefixed r.tasks rest

  filtered-at :
      (st : Storage) (q : ListTasksQuery) (token : String)
      → filtered st (at q token) ≡ filtered st q
  unfolding is_listed
  filtered-at st q token = refl

  shown : ListTasksQuery → List Task → List Task
  shown q ts = map (view q.history_length q.include_artifacts) ts

  page-pos : (ts : List Task) (n k : ℕ) → page ts (pos n) k ≡ take k (drop n ts)
  page-pos ts n k = let same : (n + k) - n ≡ k = omega arith in ap (λ i. take i (drop n ts)) same

  list_tasks-at :
      (st : Storage) (q : ListTasksQuery) (token : String) (n : ℕ)
      → offset_of int str (some token) ≡ pos n
      → let r = list_tasks int str st (at q token) in
        (r.tasks ≡ shown q (take q.page_size (drop n (filtered st q))))
        × (r.next_page_token ≡ (
            if ltb (n + q.page_size) (length (filtered st q))
            then str (pos (n + q.page_size))
            else ""))
        × (r.total_size ≡ length (filtered st q))
  unfolding list_tasks shown
  list_tasks-at st q token n e =
      rw (list_tasks, e, filtered-at st q token)
        (
          ap (map (view q.history_length q.include_artifacts))
              (page-pos (filtered st q) n q.page_size),
          refl,
          refl,
        )

  offset_of-str : (n : ℕ) → TokenLaws → offset_of int str (some (str (pos n))) ≡ pos n
  offset_of-str n laws = let (named, read) = laws n in rw (named, read) refl

  first_rest :
      (q : ListTasksQuery) (ts : List Task) (n k : ℕ)
      → shown q (take k (drop n ts)) ++ shown q (drop (n + k) ts) ≡ shown q (drop n ts)
  unfolding shown
  first_rest q ts n k =
      let v = view q.history_length q.include_artifacts in
      sym (map-append v (take k (drop n ts)) (drop (n + k) ts))
      ∙ ap (map v) (
          ap (λ r. take k (drop n ts) ++ r) (sym (drop-drop n k (n + k) ts refl))
          ∙ append-take-drop k (drop n ts))

  module _ (st : Storage) (q : ListTasksQuery) (laws : TokenLaws) (size : 1 ≤ q.page_size) where
    -- The page at an offset is the last.
    follow-last :
        (fuel n : ℕ) (token : String)
        → offset_of int str (some token) ≡ pos n
        → ltb (n + q.page_size) (length (filtered st q)) ≡ false
        → follow (suc fuel) st q token ≡ some (shown q (drop n (filtered st q)))
    unfolding follow
    follow-last fuel n token e f =
        let ts = filtered st q in
        let (tasks, next, total) = list_tasks-at st q token n e in
        let here : (list_tasks int str st (at q token)).next_page_token ≡ "" = next ∙ rw f refl in
        let all : length (drop n ts) ≤ q.page_size = ground (arith, length-drop n ts) in
        rw (follow, here, tasks) (ap (λ r. some (shown q r)) (take-all q.page_size (drop n ts) all))

    -- From an offset on, the pages that follow.
    follow-from :
        (fuel n : ℕ) (token : String)
        → offset_of int str (some token) ≡ pos n
        → length (filtered st q) ≤ n + fuel
        → follow (suc fuel) st q token ≡ some (shown q (drop n (filtered st q)))
    unfolding follow shown
    follow-from zero n token e h = follow-last zero n token e (ground arith)
    follow-from (suc fuel) n token e h =
        elim (Bool-cases (ltb (n + q.page_size) (length (filtered st q)))) [
          | inr f ↦ follow-last (suc fuel) n token e f
          | inl t ↦
              let k = q.page_size in
              let (tasks, next, total) = list_tasks-at st q token n e in
              let here : (list_tasks int str st (at q token)).next_page_token ≡ str (pos (n + k)) =
                next ∙ rw t refl in
              let (named, read) = laws (n + k) in
              let rest =
                follow-from fuel (n + k) (str (pos (n + k))) (offset_of-str (n + k) laws)
                  (omega arith) in
              rw (follow, here, named, tasks, rest) (ap some (first_rest q (filtered st q) n k))
        ]

    -- With a page size of at least 1, and tokens that are read as they were written: a client that
    -- starts without a token and follows the tokens is done after at most one request for each task
    -- that passes the filter, and one more; it has then seen exactly these tasks, once each, in the
    -- order of the sort.
    pub follow-all :
        follow (suc (length (filtered st q))) st q ""
        ≡ some (map (view q.history_length q.include_artifacts) (filtered st q))
    unfolding shown
    follow-all = follow-from (length (filtered st q)) 0 "" refl (omega arith)
