-- ===== src/Runtime/Outcomes.antt =====
-- Two more judgements on coroutines: what holds of the world when one returns, and which exceptions
-- one may raise. One rule for each way to build a coroutine.
use a2akit.Prelude.{◌≡◌, refl, ap, subst, Bool, true, false, if◌then◌else◌}
use a2akit.Errors.{Error, Result, ok, err, err-injective}
use a2akit.Runtime.{Act, World, pure, raise, try_except, handle, resume, ◌>>=◌}

-- When `m` returns, `Q` holds of the world.
pub record Gives {A : Type 0} (Q : World → Type 0) (m : Act A) : Type 0 where
  pub gives : (w : World) (a : A) → (m w).0 ≡ ok a → Q (m w).1

-- What `m` raises is among `E`.
pub record Raises {A : Type 0} (E : Error → Type 0) (m : Act A) : Type 0 where
  pub only : (w : World) (e : Error) → (m w).0 ≡ err e → E e

module _ {A B : Type 0} {Q : World → Type 0} where
  resume-Gives :
      (r : Result A) (f : A → Act B) (w : World) (b : B)
      → ((a : A) → Gives Q (f a))
      → (resume r f w).0 ≡ ok b
      → Q (resume r f w).1
  resume-Gives (ok a) f w b g h = (g a).gives w b h
  resume-Gives (err e) f w b g h = cc

  pub bind-Gives : (m : Act A) (f : A → Act B) → ((a : A) → Gives Q (f a)) → Gives Q (m >>= f)
  unfolding ◌>>=◌
  bind-Gives m f g = record { gives = λ w b h. resume-Gives (m w).0 f (m w).1 b g h }

module _ {A : Type 0} {Q : World → Type 0} where
  pub raise-Gives : (e : Error) → Gives Q (raise {A = A} e)
  unfolding raise
  raise-Gives e = record { gives = λ w a h. cc }

  pub if-Gives : (b : Bool) (m n : Act A) → Gives Q m → Gives Q n → Gives Q (if b then m else n)
  if-Gives true m n gm gn = gm
  if-Gives false m n gm gn = gn

  handle-Gives :
      (r : Result A) (h : Error → Act A) (w : World) (a : A)
      → (r ≡ ok a → Q w)
      → ((e : Error) → Gives Q (h e))
      → (handle r h w).0 ≡ ok a
      → Q (handle r h w).1
  handle-Gives (ok x) h w a q g e = q e
  handle-Gives (err x) h w a q g e = (g x).gives w a e

  pub try-Gives :
      (m : Act A) (h : Error → Act A)
      → Gives Q m
      → ((e : Error) → Gives Q (h e))
      → Gives Q (try_except m h)
  unfolding try_except
  try-Gives m h gm gh = record {
    gives = λ w a e. handle-Gives (m w).0 h (m w).1 a (gm.gives w a) gh e;
  }

pub ruleset gives_rules = (bind-Gives, raise-Gives, if-Gives, try-Gives)

module _ {A B : Type 0} {E : Error → Type 0} where
  resume-Raises :
      (r : Result A) (f : A → Act B) (w : World) (e : Error)
      → (r ≡ err e → E e)
      → ((a : A) → Raises E (f a))
      → (resume r f w).0 ≡ err e
      → E e
  resume-Raises (ok a) f w e q g h = (g a).only w e h
  resume-Raises (err x) f w e q g h = q (ap err (err-injective h))

  pub bind-Raises :
      (m : Act A) (f : A → Act B) → Raises E m → ((a : A) → Raises E (f a)) → Raises E (m >>= f)
  unfolding ◌>>=◌
  bind-Raises m f r g = record {
    only = λ w e h. resume-Raises (m w).0 f (m w).1 e (r.only w e) g h;
  }

module _ {A : Type 0} {E : Error → Type 0} where
  pub pure-Raises : (a : A) → Raises E (pure a)
  unfolding pure
  pure-Raises a = record { only = λ w e h. cc }

  pub raise-Raises : (x : Error) → E x → Raises E (raise {A = A} x)
  unfolding raise
  raise-Raises x ex = record { only = λ w e h. subst E (err-injective h) ex }

  pub if-Raises :
      (b : Bool) (m n : Act A)
      → (b ≡ true → Raises E m)
      → (b ≡ false → Raises E n)
      → Raises E (if b then m else n)
  if-Raises true m n gm gn = gm refl
  if-Raises false m n gm gn = gn refl

  handle-Raises :
      (r : Result A) (h : Error → Act A) (w : World) (e : Error)
      → ((x : Error) → Raises E (h x))
      → (handle r h w).0 ≡ err e
      → E e
  handle-Raises (ok x) h w e g q = cc
  handle-Raises (err x) h w e g q = (g x).only w e q

  pub try-Raises :
      (m : Act A) (h : Error → Act A) → ((e : Error) → Raises E (h e)) → Raises E (try_except m h)
  unfolding try_except
  try-Raises m h gh = record { only = λ w e q. handle-Raises (m w).0 h (m w).1 e gh q }

pub ruleset raises_rules = (bind-Raises, pure-Raises, raise-Raises, if-Raises, try-Raises)
