-- ===== src/Base/Exec.antt =====
-- `&mut self` methods that return `Result`: the state comes back beside an error too, since what
-- was written before an early return stays written.
use mathlib.Core.Path.{◌≡◌, refl, ap}
use mathlib.Core.List.{List, [], ◌∷◌}
use open_shield.Base.Lists.{All}
use open_shield.Base.Outcome.{Result, ok, err}

abbrev pub Exec {ℓ} : Type ℓ → Type ℓ → Type ℓ → Type ℓ
Exec E S A = S → Result E A × S

module _ {ℓ} {E S : Type ℓ} where
  abbrev pub pure : {A : Type ℓ} → A → Exec E S A
  pure a s = (ok a, s)

  -- `e?` for an `e` that leaves the object alone.
  abbrev pub lift : {A : Type ℓ} → Result E A → Exec E S A
  lift r s = (r, s)

  abbrev pub self : Exec E S S
  self s = (ok s, s)

  abbrev pub modify : (S → S) → Exec E S (Unit {ℓ})
  modify f s = (ok tt, f s)

  abbrev pub continue : {A B : Type ℓ} → Result E A → (A → Exec E S B) → Exec E S B
  continue (ok a) f s = f a s
  continue (err e) f s = (err e, s)

  infixl 10 ◌>>=◌ ◌>>◌
  abbrev pub ◌>>=◌ : {A B : Type ℓ} → Exec E S A → (A → Exec E S B) → Exec E S B
  ◌>>=◌ m f s = continue (m s).0 f (m s).1

  abbrev pub ◌>>◌ : {A B : Type ℓ} → Exec E S A → Exec E S B → Exec E S B
  m >> n = m >>= λ _. n

module _ {ℓ} {E S A B : Type ℓ} where
  -- To prove a property of a method that first makes a step which leaves the object alone: the
  -- step's error ends the method there, and the rest may use what a success says.
  pub lift_cases :
      (P : Result E B × S → Type ℓ) (r : Result E A) (f : A → Exec E S B) (s : S)
      → ((e : E) → P (err e, s))
      → ((a : A) → r ≡ ok a → P (f a s))
      → P (continue r f s)
  lift_cases P (ok a) f s fail pass = pass a refl
  lift_cases P (err e) f s fail pass = fail e

  pub continue_ok :
      (r : Result E A) (f : A → Exec E S B) (s : S) (a : A) → r ≡ ok a → continue r f s ≡ f a s
  continue_ok (ok a) f s b h = let e : a ≡ b = cc in ap (λ c. f c s) e
  continue_ok (err e) f s b h = cc

  -- The same for a step that may change the object.
  pub bind_cases :
      (P : Result E B × S → Type ℓ) (r : Result E A × S) (f : A → Exec E S B)
      → ((e : E) (t : S) → r ≡ (err e, t) → P (err e, t))
      → ((a : A) (t : S) → r ≡ (ok a, t) → P (f a t))
      → P (continue r.0 f r.1)
  bind_cases P (ok a, t) f fail pass = pass a t refl
  bind_cases P (err e, t) f fail pass = fail e t refl

-- How one pass of a `for` loop ends: the loop goes on, or `break`s.
pub data Flow {ℓ} (A : Type ℓ) : Type ℓ where
  continues : A → Flow A
  breaks : A → Flow A

module _ {ℓ} {E S P : Type ℓ} where
  abbrev pub resume : Flow P → (P → Exec E S P) → Exec E S P
  resume (continues p) k = k p
  resume (breaks p) k = pure p

  -- What holds after a pass: the invariant, or after an error what the caller may rely on.
  abbrev pub AfterPass : (P → S → Type ℓ) → (S → Type ℓ) → Result E (Flow P) × S → Type ℓ
  AfterPass I Left (ok (continues p), s) = I p s
  AfterPass I Left (ok (breaks p), s) = I p s
  AfterPass I Left (err e, s) = Left s

  abbrev pub AfterLoop : (P → S → Type ℓ) → (S → Type ℓ) → Result E P × S → Type ℓ
  AfterLoop I Left (ok p, s) = I p s
  AfterLoop I Left (err e, s) = Left s

module _ {ℓ} {E S A P : Type ℓ} where
  -- `for a in list { body }`, with the loop's variables in `P`; an error leaves the function.
  unfoldable pub for_each : (P → A → Exec E S (Flow P)) → P → List A → Exec E S P
  for_each body p [] = pure p
  for_each body p (a ∷ rest) = do flow ← body p a; resume flow (λ q. for_each body q rest)

  module _ (I : P → S → Type ℓ) (Left : S → Type ℓ) (Q : A → Type ℓ)
      (body : P → A → Exec E S (Flow P))
      (pass : (p : P) (a : A) (s : S) → I p s → Q a → AfterPass I Left (body p a s)) where
    pub for_each_inv :
        (p : P) (list : List A) (s : S)
        → I p s
        → All Q list
        → AfterLoop I Left (for_each body p list s)
    unfolding for_each
    for_each_inv p [] s i q = i
    for_each_inv p (a ∷ rest) s i q =
        go (body p a s) (pass p a s i q.0) (λ p' s' i'. for_each_inv p' rest s' i' q.1)
      where
        go :
            (r : Result E (Flow P) × S)
            → AfterPass I Left r
            → ((p' : P) (s' : S) → I p' s' → AfterLoop I Left (for_each body p' rest s'))
            → AfterLoop I Left
                (continue r.0 (λ flow. resume flow (λ p'. for_each body p' rest)) r.1)
        go (ok (continues p'), s') i' k = k p' s' i'
        go (ok (breaks p'), s') i' k = i'
        go (err e, s') i' k = i'
