-- ===== src/Exec/Leaves.antt =====
-- What an action leaves behind when it throws, in the state it is started in.
use ratchet_usb.Prelude.{◌≡◌, refl, ap, subst, Bool, true, false}
use ratchet_usb.Outcome.{Result, Error, ok, err}
use ratchet_usb.Exec.{Exec, pure, lift, calls, gets, modify, guard, after, ◌>>=◌, ◌>>◌}

pub record Leaves {S A : Type 0} (P : S → Type 0) (s : S) (m : Exec S A) : Type 0 where
  pub at : (t : S) (e : Error) → m s ≡ (err e, t) → P t

module _ {S B : Type 0} {P : S → Type 0} {s : S} where
  pub Leaves-pure : (b : B) → Leaves P s (pure b)
  unfolding pure
  Leaves-pure b = record { at = λ t e h. absurd (cc h) }

  -- Only what comes after a change matters, since a change does not throw.
  pub Leaves-modify : (f : S → S) (k : Exec S B) → Leaves P (f s) k → Leaves P s (modify f >> k)
  unfolding ◌>>=◌ modify
  Leaves-modify f k l = record { at = λ t e h. l.at t e h }

module _ {S A B : Type 0} {P : S → Type 0} {s : S} (p : P s) where
  pub Leaves-lift :
      (r : Result A) (k : A → Exec S B)
      → ((a : A) → r ≡ ok a → Leaves P s (k a))
      → Leaves P s (lift r >>= k)
  unfolding ◌>>=◌ lift
  Leaves-lift (ok a) k l = record { at = λ t e h. (l a refl).at t e h }
  Leaves-lift (err x) k l = record { at = λ t e h. subst P (ap (λ q. q.1) h) p }

  pub Leaves-calls :
      (g : S → Result A) (k : A → Exec S B)
      → ((a : A) → g s ≡ ok a → Leaves P s (k a))
      → Leaves P s (calls g >>= k)
  unfolding ◌>>=◌ calls lift
  Leaves-calls g k l = record { at = λ t e h. (Leaves-lift (g s) k l).at t e h }

  pub Leaves-gets :
      (g : S → A) (k : A → Exec S B) → Leaves P s (k (g s)) → Leaves P s (gets g >>= k)
  unfolding ◌>>=◌ gets
  Leaves-gets g k l = record { at = λ t e h. l.at t e h }

module _ {S B : Type 0} {P : S → Type 0} {s : S} (p : P s) where
  pub Leaves-guard :
      (test : Bool) (e : Error) (k : Exec S B)
      → (test ≡ true → Leaves P s k)
      → Leaves P s (guard test e >> k)
  unfolding ◌>>=◌ guard
  Leaves-guard true e k l = record { at = λ t x h. (l refl).at t x h }
  Leaves-guard false e k l = record { at = λ t x h. subst P (ap (λ q. q.1) h) p }

-- A step that keeps the state where it throws, and then changes that do not throw.
module _ {S A B : Type 0} {P : S → Type 0} {s : S} where
  pub Leaves-then :
      (m : Exec S A) (k : A → Exec S B)
      → Leaves P s m
      → ((a : A) (t : S) → m s ≡ (ok a, t) → Leaves P t (k a))
      → Leaves P s (m >>= k)
  unfolding ◌>>=◌
  Leaves-then m k l more = record { at = λ t e h. by_run (m s) refl t e h }
    where
      by_run :
          (run : Result A × S) → m s ≡ run → (t : S) (e : Error) → after run k ≡ (err e, t) → P t
      by_run (ok a, u) g t e h = (more a u g).at t e h
      by_run (err x, u) g t e h = subst P (ap (λ q. q.1) h) (l.at u x g)

module _ {S A : Type 0} {P Q : S → Type 0} {s : S} where
  pub Leaves-weaken : (m : Exec S A) → ((t : S) → P t → Q t) → Leaves P s m → Leaves Q s m
  Leaves-weaken m f l = record { at = λ t e h. f t (l.at t e h) }
