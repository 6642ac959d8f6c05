-- ===== src/Push/Lane/Order.antt =====
-- The order of a lane's deliveries, and the bound of its queue.
use mathlib.Core.List.Sublist
use mathlib.Core.List.{Sublist}
use mathlib.Core.List.{append_assoc}
use a2akit.Prelude.{
  ℕ, suc, ◌+◌, ◌-◌, ◌≤◌, ◌<◌, ◌≡◌, ◌≢◌, refl, sym, ap, subst, ◌∙◌, Bool-cases, inl, inr, Option,
  none, some, List, [], ◌∷◌, ◌++◌, length, drop, length-append, arith,
}
use a2akit.Push.Lane.{
  Item, is_full, enqueue, Lane, put, Run, opens, arrives, takes, finishes, times_out, cancelled,
}

abbrev pub last {ℓ} : {A : Type ℓ} → List A → Option A
last [] = none
last (x ∷ []) = some x
last (x ∷ (y ∷ xs)) = last (y ∷ xs)

module _ {ℓ} {A : Type ℓ} where
  enqueue_free : (m : ℕ) (q : List A) (x : A) → length q < m → enqueue m q x ≡ q ++ x ∷ []
  unfolding enqueue
  enqueue_free m [] x h = refl
  enqueue_free m (y ∷ q) x h = ground arith

  -- On a queue within its bound, which is not 0, the newest entries stay and the new one follows
  -- them: the oldest is dropped when the queue is full, and none when it is not.
  pub enqueue_newest :
      (m : ℕ) (q : List A) (x : A)
      → m ≢ 0
      → length q ≤ m
      → enqueue m q x ≡ drop ((length q + 1) - m) (q ++ x ∷ [])
  unfolding enqueue
  enqueue_newest m [] x nz h = let e : 0 ≡ 1 - m = omega arith in ap (λ n. drop n (x ∷ [])) e
  enqueue_newest m (y ∷ q) x nz h = elim (Bool-cases (is_full m (suc (length q)))) [
    | inl t ↦
        let e : 1 ≡ (suc (length q) + 1) - m = ground arith in
        rw t (enqueue_free m q x (omega arith) ∙ ap (λ n. drop n (y ∷ (q ++ x ∷ []))) e)
    | inr f ↦
        let e : 0 ≡ (suc (length q) + 1) - m = ground arith in
        rw f (ap (λ n. drop n (y ∷ (q ++ x ∷ []))) e)
  ]

  length-enqueue-le : (m : ℕ) (q : List A) (x : A) → m ≢ 0 → length (enqueue m q x) ≤ m
  unfolding enqueue
  length-enqueue-le m [] x nz = omega (arith)
  length-enqueue-le m (y ∷ q) x nz =
      ground (arith, length-enqueue-le m q x nz, length-append q (x ∷ []))

  enqueue-Sublist : (m : ℕ) (q : List A) (x : A) → Sublist (enqueue m q x) (q ++ x ∷ [])
  unfolding enqueue
  enqueue-Sublist m [] x = Sublist.refl (x ∷ [])
  enqueue-Sublist m (y ∷ q) x = elim (Bool-cases (is_full m (suc (length q)))) [
    | inl t ↦ rw t (Sublist.cons y (enqueue-Sublist m q x))
    | inr f ↦ rw f (Sublist.refl (y ∷ (q ++ x ∷ [])))
  ]

  enqueue-append : (m : ℕ) (q : List A) (x : A) → (kept : List A) × (enqueue m q x ≡ kept ++ x ∷ [])
  unfolding enqueue
  enqueue-append m [] x = ([], refl)
  enqueue-append m (y ∷ q) x = elim (Bool-cases (is_full m (suc (length q)))) [
    | inl t ↦ rw t (enqueue-append m q x)
    | inr f ↦ rw f (y ∷ q, refl)
  ]

  last-append : (xs : List A) (x : A) → last (xs ++ x ∷ []) ≡ some x
  last-append [] x = refl
  last-append (y ∷ []) x = refl
  last-append (y ∷ (z ∷ xs)) x = last-append (z ∷ xs) x

  last-enqueue : (m : ℕ) (ts q : List A) (x : A) → last (ts ++ enqueue m q x) ≡ some x
  last-enqueue m ts q x =
      let (kept, e) = enqueue-append m q x in
      ap (λ r. last (ts ++ r)) e
      ∙ (ap last (sym (append_assoc ts kept (x ∷ []))) ∙ last-append (ts ++ kept) x)

  kept_in_order :
      (m : ℕ) (all ts q : List A) (x : A)
      → Sublist (ts ++ q) all
      → Sublist (ts ++ enqueue m q x) (all ++ x ∷ [])
  kept_in_order m all ts q x h =
      Sublist.trans (Sublist.append (Sublist.refl ts) (enqueue-Sublist m q x)) (
        subst (λ r. Sublist r (all ++ x ∷ [])) (append_assoc ts q (x ∷ []))
          (Sublist.append h (Sublist.refl (x ∷ []))))

-- In every run of a lane, what its worker took, then what waits on its queue, is in the order of
-- arrival: some arrivals may be missing, none is there twice or out of order.
pub Run-InOrder :
    (m : ℕ) (all ts : List Item) (l : Lane) → Run m all ts l → Sublist (ts ++ l.queue) all
unfolding put
Run-InOrder m _ _ _ opens = Sublist.refl []
Run-InOrder m _ ts _ (arrives {all = all} {l = l} x r) =
    kept_in_order m all ts l.queue x (Run-InOrder m all ts l r)
Run-InOrder m all _ _ (takes {ts = ts} {q = q} x r) =
    subst (λ s. Sublist s all) (sym (append_assoc ts (x ∷ []) q)) (Run-InOrder m all ts _ r)
Run-InOrder m all ts _ (finishes t r) = Run-InOrder m all ts _ r
Run-InOrder m all ts _ (times_out r) = Run-InOrder m all ts _ r
Run-InOrder m all ts _ (cancelled r) = Run-InOrder m all ts _ r

-- In every run of a lane, the last item to arrive is the last that its worker took or that waits.
pub Run-newest :
    (m : ℕ) (all ts : List Item) (l : Lane) → Run m all ts l → last (ts ++ l.queue) ≡ last all
unfolding put
Run-newest m _ _ _ opens = refl
Run-newest m _ ts _ (arrives {all = all} {l = l} x r) =
    last-enqueue m ts l.queue x ∙ sym (last-append all x)
Run-newest m all _ _ (takes {ts = ts} {q = q} x r) =
    ap last (append_assoc ts (x ∷ []) q) ∙ Run-newest m all ts _ r
Run-newest m all ts _ (finishes t r) = Run-newest m all ts _ r
Run-newest m all ts _ (times_out r) = Run-newest m all ts _ r
Run-newest m all ts _ (cancelled r) = Run-newest m all ts _ r
