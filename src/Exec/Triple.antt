-- ===== src/Exec/Triple.antt =====
-- What holds after an action, whether it returns or fails.
use artifact_registry_servic.Base.{◌≡◌, refl}
use artifact_registry_servic.Domain.Errors.{Error}
use artifact_registry_servic.Exec.{
  Result, ok, err, Exec, return, fail, lift, continue, ◌>>=◌, map_result, on_error, attempt,
}

module _ {S A : Type 0} where
  abbrev pub Post : (A → S → Type 0) → (Error → S → Type 0) → Result A → S → Type 0
  Post Q R (ok a) s = Q a s
  Post Q R (err e) s = R e s

  -- From a state of `P` the action returns in `Q` or fails in `R`.
  pub record Triple (P : S → Type 0) (m : Exec S A) (Q : A → S → Type 0) (R : Error → S → Type 0)
      : Type 0 where
    pub at : (s : S) → P s → Post Q R (m s).0 (m s).1

module _ {S A : Type 0} (Q : A → S → Type 0) (R : Error → S → Type 0) where
  Post-map :
      (f : Error → Error) (r : Result A) (s : S)
      → Post Q (λ e. R (f e)) r s
      → Post Q R (map_result f r) s
  Post-map f (ok a) s h = h
  Post-map f (err e) s h = h

module _ {S A : Type 0} {P : S → Type 0} {Q : A → S → Type 0} {R : Error → S → Type 0} where
  pub Triple-return : (a : A) → ((s : S) → P s → Q a s) → Triple P (return a) Q R
  Triple-return a h = record { at = h }

  pub Triple-fail : (e : Error) → ((s : S) → P s → R e s) → Triple P (fail e) Q R
  Triple-fail e h = record { at = h }

  pub Triple-on_error :
      (f : Error → Error) (m : Exec S A) → Triple P m Q (λ e. R (f e)) → Triple P (on_error f m) Q R
  Triple-on_error f m t = record { at = λ s h. Post-map Q R f (m s).0 (m s).1 (t.at s h) }

module _ {S A B : Type 0} (Q : A → S → Type 0) (Q' : B → S → Type 0) (R : Error → S → Type 0) where
  Post-continue :
      (f : A → Exec S B) (r : Result A) (s : S)
      → ((a : A) → Triple (Q a) (f a) Q' R)
      → Post Q R r s
      → Post Q' R (continue r f s).0 (continue r f s).1
  Post-continue f (ok a) s t h = (t a).at s h
  Post-continue f (err e) s t h = h

module _ {S A B : Type 0} {P : S → Type 0} {Q : A → S → Type 0} {Q' : B → S → Type 0}
    {R : Error → S → Type 0} where
  pub Triple-bind :
      (m : Exec S A) (f : A → Exec S B)
      → Triple P m Q R
      → ((a : A) → Triple (Q a) (f a) Q' R)
      → Triple P (m >>= f) Q' R
  Triple-bind m f t u = record { at = λ s h. Post-continue Q Q' R f (m s).0 (m s).1 u (t.at s h) }

module _ {S A : Type 0} {P : S → Type 0} {Q : A → S → Type 0} {R : Error → S → Type 0} where
  -- The caller of `attempt` is given what holds of the result.
  pub Triple-attempt :
      (m : Exec S A) (R' : Error → S → Type 0)
      → Triple P m Q R
      → Triple P (attempt m) (λ r s. Post Q R r s) R'
  Triple-attempt m R' t = record { at = t.at }

module _ {S A : Type 0} {P : S → Type 0} where
  -- A computed result leaves the state.
  pub Triple-lift :
      (r : Result A) → Triple P (lift r) (λ a s. P s × (r ≡ ok a)) (λ e s. P s × (r ≡ err e))
  Triple-lift (ok a) = record { at = λ s h. (h, refl) }
  Triple-lift (err e) = record { at = λ s h. (h, refl) }

  -- A fact that the state's predicate carries may be used.
  pub Triple-fact :
      {F : Type 0} {Q : A → S → Type 0} {R : Error → S → Type 0} (m : Exec S A)
      → (F → Triple P m Q R)
      → Triple (λ s. P s × F) m Q R
  Triple-fact m t = record { at = λ s h. (t h.1).at s h.0 }

  pub Triple-weaken :
      {Q Q' : A → S → Type 0} {R R' : Error → S → Type 0} (m : Exec S A)
      → Triple P m Q R
      → ((a : A) (s : S) → Q a s → Q' a s)
      → ((e : Error) (s : S) → R e s → R' e s)
      → Triple P m Q' R'
  Triple-weaken {Q} {Q'} {R} {R'} m t q r = record { at = λ s h. go (m s).0 (m s).1 (t.at s h) }
    where
      go : (x : Result A) (s : S) → Post Q R x s → Post Q' R' x s
      go (ok a) s k = q a s k
      go (err e) s k = r e s k

  -- What follows from either outcome holds of the outcome.
  pub Triple-outcome :
      {Q : A → S → Type 0} {R : Error → S → Type 0} (m : Exec S A) (C : Result A → S → Type 0)
      (s : S)
      → Triple P m Q R
      → P s
      → ((a : A) (s' : S) → Q a s' → C (ok a) s')
      → ((e : Error) (s' : S) → R e s' → C (err e) s')
      → C (m s).0 (m s).1
  Triple-outcome {Q} {R} m C s t p q r = go (m s).0 (m s).1 (t.at s p)
    where
      go : (x : Result A) (s' : S) → Post Q R x s' → C x s'
      go (ok a) s' k = q a s' k
      go (err e) s' k = r e s' k
