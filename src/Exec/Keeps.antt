-- ===== src/Exec/Keeps.antt =====
-- Invariants of the object, kept on every path: those that throw too.
use ratchet_usb.Prelude.{Bool, true, false}
use ratchet_usb.Outcome.{Result, Error, ok, err}
use ratchet_usb.Exec.{Exec, pure, lift, calls, gets, modify, guard, after, ◌>>=◌}

pub record Keeps {S A : Type 0} (P : S → Type 0) (m : Exec S A) : Type 0 where
  pub at : (s : S) → P s → P (m s).1

module _ {S A : Type 0} {P : S → Type 0} where
  pub Keeps-pure : (a : A) → Keeps P (pure a)
  unfolding pure
  Keeps-pure a = record { at = λ s p. p }

  pub Keeps-lift : (called : Result A) → Keeps P (lift called)
  unfolding lift
  Keeps-lift called = record { at = λ s p. p }

  pub Keeps-calls : (f : S → Result A) → Keeps P (calls f)
  unfolding calls
  Keeps-calls f = record { at = λ s p. p }

  pub Keeps-gets : (look : S → A) → Keeps P (gets look)
  unfolding gets
  Keeps-gets look = record { at = λ s p. p }

module _ {S : Type 0} {P : S → Type 0} where
  pub Keeps-modify : (f : S → S) → ((s : S) → P s → P (f s)) → Keeps P (modify f)
  unfolding modify
  Keeps-modify f h = record { at = h }

  pub Keeps-guard : (b : Bool) (e : Error) → Keeps P (guard b e)
  unfolding guard
  Keeps-guard true e = record { at = λ s p. p }
  Keeps-guard false e = record { at = λ s p. p }

module _ {S A B : Type 0} {P : S → Type 0} where
  Keeps-after :
      (done : Result A × S) (next : A → Exec S B)
      → P done.1
      → ((a : A) → Keeps P (next a))
      → P (after done next).1
  Keeps-after (ok a, s) next p keeps = (keeps a).at s p
  Keeps-after (err e, s) next p keeps = p

  pub Keeps-bind :
      (first : Exec S A) (next : A → Exec S B)
      → Keeps P first
      → ((a : A) → Keeps P (next a))
      → Keeps P (first >>= next)
  unfolding ◌>>=◌
  Keeps-bind first next keeps_first keeps_next = record {
    at = λ s p. Keeps-after (first s) next (keeps_first.at s p) keeps_next;
  }

pub ruleset keeps_rules =
    (Keeps-pure, Keeps-lift, Keeps-calls, Keeps-gets, Keeps-guard, Keeps-modify, Keeps-bind)
