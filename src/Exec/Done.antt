-- ===== src/Exec/Done.antt =====
-- What a run that ends without an error has passed through.
use ratchet_usb.Prelude.{◌≡◌, refl, ap, Bool, true, false}
use ratchet_usb.Outcome.{ok-injective, Result, Error, ok, err, ◌>=>◌}
use ratchet_usb.Exec.{gets, modify, pure, Exec, lift, calls, guard, after, ◌>>=◌, ◌>>◌}

module _ {ℓ κ} {A : Type ℓ} {B : Type κ} where
  pub then-ok :
      (r : Result A) (f : A → Result B) (b : B)
      → (r >=> f) ≡ ok b
      → (a : A) × (r ≡ ok a) × (f a ≡ ok b)
  then-ok (ok a) f b h = (a, refl, h)
  then-ok (err e) f b h = absurd (cc h)

module _ {S A B : Type 0} where
  after-ok :
      (done : Result A × S) (f : A → Exec S B) (b : B) (t : S)
      → after done f ≡ (ok b, t)
      → (a : A) × (u : S) × (done ≡ (ok a, u)) × (f a u ≡ (ok b, t))
  after-ok (ok a, u) f b t h = (a, u, refl, h)
  after-ok (err e, u) f b t h = absurd (cc h)

  pub bind-ok :
      (m : Exec S A) (f : A → Exec S B) (s t : S) (b : B)
      → (m >>= f) s ≡ (ok b, t)
      → (a : A) × (u : S) × (m s ≡ (ok a, u)) × (f a u ≡ (ok b, t))
  unfolding ◌>>=◌
  bind-ok m f s t b h = after-ok (m s) f b t h

  lifted-ok :
      (r : Result A) (f : A → Exec S B) (s t : S) (b : B)
      → after (r, s) f ≡ (ok b, t)
      → (a : A) × (r ≡ ok a) × (f a s ≡ (ok b, t))
  lifted-ok (ok a) f s t b h = (a, refl, h)
  lifted-ok (err e) f s t b h = absurd (cc h)

  pub lift-ok :
      (r : Result A) (f : A → Exec S B) (s t : S) (b : B)
      → (lift r >>= f) s ≡ (ok b, t)
      → (a : A) × (r ≡ ok a) × (f a s ≡ (ok b, t))
  unfolding ◌>>=◌ lift
  lift-ok r f s t b h = lifted-ok r f s t b h

  pub calls-ok :
      (g : S → Result A) (f : A → Exec S B) (s t : S) (b : B)
      → (calls g >>= f) s ≡ (ok b, t)
      → (a : A) × (g s ≡ ok a) × (f a s ≡ (ok b, t))
  unfolding ◌>>=◌ calls
  calls-ok g f s t b h = lifted-ok (g s) f s t b h

pub guard-ok :
    {S B : Type 0} (test : Bool) (e : Error) (k : Exec S B) (s t : S) (b : B)
    → (guard test e >> k) s ≡ (ok b, t)
    → (test ≡ true) × (k s ≡ (ok b, t))
unfolding ◌>>=◌ guard
guard-ok true e k s t b h = (refl, h)
guard-ok false e k s t b h = absurd (cc h)

module _ {S B : Type 0} where
  pub gets-ok :
      {A : Type 0} (g : S → A) (f : A → Exec S B) (s t : S) (b : B)
      → (gets g >>= f) s ≡ (ok b, t)
      → f (g s) s ≡ (ok b, t)
  unfolding ◌>>=◌ gets
  gets-ok g f s t b h = h

  pub modify-ok :
      (g : S → S) (k : Exec S B) (s t : S) (b : B)
      → (modify g >> k) s ≡ (ok b, t)
      → k (g s) ≡ (ok b, t)
  unfolding ◌>>=◌ modify
  modify-ok g k s t b h = h

  pub pure-ok : (a b : B) (s t : S) → pure a s ≡ (ok b, t) → (a ≡ b) × (s ≡ t)
  unfolding pure
  pure-ok a b s t h = (ok-injective (ap (λ q. q.0) h), ap (λ q. q.1) h)
