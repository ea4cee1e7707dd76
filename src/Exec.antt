-- ===== src/Exec.antt =====
-- Services that read and write the database and may raise: a state and exception monad, and
-- `transaction.atomic`, which undoes the writes of a block that raises.
use ecommerce.Prelude.{◌≡◌, refl, Bool, true, false, Option, none, some, arith}

pub data Error : Type 0 where
  value_error validation_error does_not_exist multiple_objects integrity_error : Error
  out_of_stock checkout_error gateway_error : Error

pub data Result (A : Type 0) : Type 0 where
  ok : A → Result A
  err : Error → Result A

abbrev pub is_ok : {A : Type 0} → Result A → Bool
is_ok (ok a) = true
is_ok (err e) = false

abbrev pub Exec : Type 0 → Type 0 → Type 0
Exec S A = S → Result A × S

module _ {S : Type 0} where
  abbrev pub pure : {A : Type 0} → A → Exec S A
  pure a s = (ok a, s)

  abbrev pub raise : {A : Type 0} → Error → Exec S A
  raise e s = (err e, s)

  abbrev pub gets : {A : Type 0} → (S → A) → Exec S A
  gets f s = (ok (f s), s)

  abbrev pub modify : (S → S) → Exec S (Unit {0})
  modify f s = (ok tt, f s)

  abbrev pub raise_if : Bool → Error → Exec S (Unit {0})
  raise_if true e s = (err e, s)
  raise_if false e s = (ok tt, s)

  abbrev pub or_raise : {A : Type 0} → Option A → Error → Exec S A
  or_raise none e s = (err e, s)
  or_raise (some a) e s = (ok a, s)

  infixl 5 ◌>>=◌ ◌>>◌
  abbrev pub ◌>>=◌ : {A B : Type 0} → Exec S A → (A → Exec S B) → Exec S B
  ◌>>=◌ m f s = let (r, s') = m s in elim r [ ok a ↦ f a s' | err e ↦ (err e, s') ]

  abbrev pub ◌>>◌ : {A B : Type 0} → Exec S A → Exec S B → Exec S B
  m >> k = m >>= λ _. k

  abbrev pub settle : {A : Type 0} → S → Result A × S → Result A × S
  settle s (ok a, s') = (ok a, s')
  settle s (err e, s') = (err e, s)

  -- @transaction.atomic: a block that raises leaves the state as it was.
  abbrev pub atomic : {A : Type 0} → Exec S A → Exec S A
  atomic m s = settle s (m s)

  -- An atomic block that raises has changed nothing.
  pub atomic-rollback :
      {A : Type 0} (m : Exec S A) (s : S) (e : Error) → (atomic m s).0 ≡ err e → (atomic m s).1 ≡ s
  atomic-rollback {A} m s e h = helper (m s) h
    where
      helper : (p : Result A × S) → (settle s p).0 ≡ err e → (settle s p).1 ≡ s
      helper (ok a, s') q = cc
      helper (err e', s') q = refl

  -- What an atomic call comes to: it returns and `P` holds of the new state, or it raises and the
  -- state is the old one.
  abbrev pub Outcome : {A : Type 0} → S → (S → Type 0) → Result A × S → Type 0
  Outcome s P (ok a, s') = P s'
  Outcome s P (err e, s') = s' ≡ s

  -- The same, with what the call returns.
  abbrev pub Returns : {A : Type 0} → S → (A → S → Type 0) → Result A × S → Type 0
  Returns s P (ok a, s') = P a s'
  Returns s P (err e, s') = s' ≡ s

  pub Returns-intro :
      {A : Type 0} (s : S) (P : A → S → Type 0) (p : Result A × S) (a : A) (s' : S)
      → p ≡ (ok a, s')
      → P a s'
      → Returns s P p
  Returns-intro s P p a s' e h = rw e h

  pub Returns-failed :
      {A : Type 0} (s : S) (P : A → S → Type 0) (p : Result A × S)
      → is_ok p.0 ≡ false
      → p.1 ≡ s
      → Returns s P p
  Returns-failed s P (ok a, s') e h = cc
  Returns-failed s P (err x, s') e h = h

  pub Returns-Outcome :
      {A : Type 0} (s : S) (P : A → S → Type 0) (Q : S → Type 0) (p : Result A × S)
      → ((a : A) (s' : S) → P a s' → Q s')
      → Returns s P p
      → Outcome s Q p
  Returns-Outcome s P Q (ok a, s') f h = f a s' h
  Returns-Outcome s P Q (err e, s') f h = h

  pub Outcome-intro :
      {A : Type 0} (s : S) (P : S → Type 0) (p : Result A × S)
      → (is_ok p.0 ≡ true → P p.1)
      → (is_ok p.0 ≡ false → p.1 ≡ s)
      → Outcome s P p
  Outcome-intro s P (ok a, s') h k = h refl
  Outcome-intro s P (err e, s') h k = k refl

  pub Outcome-map :
      {A : Type 0} (s : S) (P Q : S → Type 0) (p : Result A × S)
      → ((s' : S) → P s' → Q s')
      → Outcome s P p
      → Outcome s Q p
  Outcome-map s P Q (ok a, s') f h = f s' h
  Outcome-map s P Q (err e, s') f h = h

  -- An invariant of the states between calls.
  pub Outcome-keeps :
      {A : Type 0} (s : S) (P : S → Type 0) (p : Result A × S) → P s → Outcome s P p → P p.1
  Outcome-keeps s P (ok a, s') h k = k
  Outcome-keeps s P (err e, s') h k = rw k h

  -- What holds after a call that returned.
  pub Outcome-ok :
      {A : Type 0} (s : S) (P : S → Type 0) (p : Result A × S)
      → Outcome s P p
      → is_ok p.0 ≡ true
      → P p.1
  Outcome-ok s P (ok a, s') k e = k
  Outcome-ok s P (err c, s') k e = cc

  -- A call that raised changed nothing.
  pub Outcome-failed :
      {A : Type 0} (s : S) (P : S → Type 0) (p : Result A × S)
      → Outcome s P p
      → is_ok p.0 ≡ false
      → p.1 ≡ s
  Outcome-failed s P (ok a, s') k e = cc
  Outcome-failed s P (err c, s') k e = k

  pub atomic-failed :
      {A : Type 0} (m : Exec S A) (s : S) → is_ok (atomic m s).0 ≡ false → (atomic m s).1 ≡ s
  atomic-failed m s h = ground arith

  -- A block, after a first call that is known to return or to raise.
  pub bind_ok :
      {A B : Type 0} (m : Exec S A) (f : A → Exec S B) (s s' : S) (a : A)
      → m s ≡ (ok a, s')
      → (m >>= f) s ≡ f a s'
  bind_ok m f s s' a h = rw (◌>>=◌, h, h) refl

  pub bind_err :
      {A B : Type 0} (m : Exec S A) (f : A → Exec S B) (s s' : S) (e : Error)
      → m s ≡ (err e, s')
      → (m >>= f) s ≡ (err e, s')
  bind_err m f s s' e h = rw (◌>>=◌, h, h) refl

  pub is_ok-atomic : {A : Type 0} (m : Exec S A) (s : S) → is_ok (atomic m s).0 ≡ is_ok (m s).0
  is_ok-atomic m s = ground arith

  pub Returns-settled :
      {A : Type 0} (s : S) (P : A → S → Type 0) (p : Result A × S)
      → Returns s P p
      → Returns s P (settle s p)
  Returns-settled s P (ok a, s') k = k
  Returns-settled s P (err e, s') k = refl
