-- ===== src/Exec.antt =====
-- Go functions that read and write shared state and may fail. What was written before an error
-- stays written, so the state comes back beside the error too.
pub mod Triple
use artifact_registry_servic.Base.{◌≡◌, refl, ◌⊎◌, inl, inr}
use artifact_registry_servic.Domain.Errors.{Error}

pub data Result {ℓ} (A : Type ℓ) : Type ℓ where
  ok : A → Result A
  err : Error → Result A

pub Result-cases {ℓ} :
    {A : Type ℓ} (outcome : Result A)
    → ((value : A) × (outcome ≡ ok value)) ⊎ ((x : Error) × (outcome ≡ err x))
Result-cases (ok value) = inl (value, refl)
Result-cases (err x) = inr (x, refl)

pub ok_injective {ℓ} : {A : Type ℓ} {a b : A} → ok a ≡ ok b → a ≡ b
ok_injective e = cc

pub ok≢err {ℓ} : {A : Type ℓ} {a : A} {e : Error} → ok a ≡ err e → ⊥
ok≢err e = cc

abbrev pub Exec : Type 0 → Type 0 → Type 0
Exec S A = S → Result A × S

abbrev pub map_result : {A : Type 0} → (Error → Error) → Result A → Result A
map_result f (ok a) = ok a
map_result f (err e) = err (f e)

module _ {S : Type 0} where
  abbrev pub return : {A : Type 0} → A → Exec S A
  return a s = (ok a, s)

  abbrev pub fail : {A : Type 0} → Error → Exec S A
  fail e s = (err e, s)

  abbrev pub lift : {A : Type 0} → Result A → Exec S A
  lift r s = (r, s)

  abbrev pub continue : {A B : Type 0} → Result A → (A → Exec S B) → Exec S B
  continue (ok value) next s = next value s
  continue (err x) next s = (err x, s)

  infixl 5 ◌>>=◌ ◌>>◌
  abbrev pub ◌>>=◌ : {A B : Type 0} → Exec S A → (A → Exec S B) → Exec S B
  ◌>>=◌ m f s = continue (m s).0 f (m s).1

  abbrev pub ◌>>◌ : {A B : Type 0} → Exec S A → Exec S B → Exec S B
  m >> k = m >>= λ _. k

  -- `if err != nil { return nil, f(err) }` behind a call.
  abbrev pub on_error : {A : Type 0} → (Error → Error) → Exec S A → Exec S A
  on_error f m s = (map_result f (m s).0, (m s).1)

  -- A call whose error the caller inspects.
  abbrev pub attempt : {A : Type 0} → Exec S A → Exec S (Result A)
  attempt m s = (ok (m s).0, (m s).1)
