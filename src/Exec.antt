-- ===== src/Exec.antt =====
-- Code that changes an object and may throw: the object is handed on also when an error is thrown.
pub mod Keeps
pub mod Done
pub mod Leaves
use ratchet_usb.Prelude.{Bool, true, false}
use ratchet_usb.Outcome.{Result, Error, ok, err}

abbrev pub Exec : Type 0 → Type 0 → Type 0
Exec S A = S → Result A × S

module _ {S A : Type 0} where
  unfoldable pub pure : A → Exec S A
  pure a s = (ok a, s)

  -- A call that does not touch the object.
  unfoldable pub lift : Result A → Exec S A
  lift r s = (r, s)

  -- A call that reads the object.
  unfoldable pub calls : (S → Result A) → Exec S A
  calls f s = (f s, s)

  unfoldable pub gets : (S → A) → Exec S A
  gets f s = (ok (f s), s)

unfoldable pub modify : {S : Type 0} → (S → S) → Exec S (Unit {0})
modify f s = (ok tt, f s)

unfoldable pub guard : {S : Type 0} → Bool → Error → Exec S (Unit {0})
guard true e s = (ok tt, s)
guard false e s = (err e, s)

module _ {S A B : Type 0} where
  abbrev pub after : Result A × S → (A → Exec S B) → Result B × S
  after (ok a, s) f = f a s
  after (err e, s) f = (err e, s)

  infixl 5 ◌>>=◌
  -- Opening this opens the other actions too.
  unfoldable pub ◌>>=◌ : Exec S A → (A → Exec S B) → Exec S B
  unfolding pure lift calls gets modify guard
  ◌>>=◌ m f s = after (m s) f

infixl 5 ◌>>◌
abbrev pub ◌>>◌ : {S B : Type 0} → Exec S (Unit {0}) → Exec S B → Exec S B
m >> k = m >>= λ _. k
