-- ===== src/Sqlite/Rows/Laws.antt =====
-- The order that ORDER BY gives.
use mathlib.Core.List.{Perm}
use mathlib.Core.List.Perm
use artifact_registry_servic.Base.{
  String, eq_iff, Bool, false, true, List, [], ◌∷◌, ◌++◌, ◌≡◌, refl, All, Bool-cases, inl, inr,
  text_ltb, arith,
}
use artifact_registry_servic.Base.Text.Laws.{text_ltb_irrefl, text_ltb_asymm}
use artifact_registry_servic.Sqlite.Rows.{insert_row, sort_rows, desc}

module _ {A : Type 0} (before : A → A → Bool) where
  insert_row-perm : (x : A) (xs : List A) → Perm (insert_row before x xs) (x ∷ xs)
  unfolding insert_row
  insert_row-perm x [] = Perm.refl (x ∷ [])
  insert_row-perm x (y ∷ ys) = elim (Bool-cases (before x y)) [
    | inl e ↦ rw e (Perm.refl (x ∷ y ∷ ys))
    | inr e ↦ rw e (Perm.trans (Perm.cons y (insert_row-perm x ys)) (Perm.swap x y ys))
  ]

  -- ORDER BY neither loses nor repeats rows.
  pub sort_rows-perm : (xs : List A) → Perm (sort_rows before xs) xs
  unfolding sort_rows
  sort_rows-perm [] = Perm.refl []
  sort_rows-perm (x ∷ xs) =
      Perm.trans (insert_row-perm x (sort_rows before xs)) (Perm.cons x (sort_rows-perm xs))

  insert_row-All :
      (P : A → Type 0) (x : A) (xs : List A) → P x → All P xs → All P (insert_row before x xs)
  unfolding insert_row
  insert_row-All P x [] p h = (p, tt)
  insert_row-All P x (y ∷ ys) p (q, h) = elim (Bool-cases (before x y)) [
    | inl e ↦ rw e (p, (q, h))
    | inr e ↦ rw e (q, insert_row-All P x ys p h)
  ]

  pub sort_rows-All : (P : A → Type 0) (xs : List A) → All P xs → All P (sort_rows before xs)
  unfolding sort_rows
  sort_rows-All P [] h = tt
  sort_rows-All P (x ∷ xs) (p, h) =
      insert_row-All P x (sort_rows before xs) p (sort_rows-All P xs h)

  -- A row that goes before all others comes first, though it was inserted last.
  pub sort_rows-append_first :
      (xs : List A) (r : A)
      → All (λ x. before x r ≡ false) xs
      → sort_rows before (xs ++ r ∷ []) ≡ r ∷ sort_rows before xs
  unfolding sort_rows
  sort_rows-append_first [] r h = refl
  sort_rows-append_first (x ∷ xs) r (p, h) =
      rw (sort_rows-append_first xs r h) (unfold insert_row in rw p)

-- In descending order a row with a greater key does not come behind one with a smaller key.
pub desc_later {ℓ} :
    {A : Type ℓ} (key : A → String) (ties : A → A → Bool) (x r : A)
    → text_ltb (key x) (key r) ≡ true
    → desc key ties x r ≡ false
desc_later key ties x r h =
    ground (arith, text_ltb_asymm (key x) (key r), text_ltb_irrefl (key r), eq_iff (key x) (key r))

-- Rows of the greatest key, inserted last, come first in descending order.
pub sort_rows-desc_latest :
    {A : Type 0} (key : A → String) (ties : A → A → Bool) (xs : List A) (r : A)
    → All (λ x. text_ltb (key x) (key r) ≡ true) xs
    → sort_rows (desc key ties) (xs ++ r ∷ []) ≡ r ∷ sort_rows (desc key ties) xs
sort_rows-desc_latest {A} key ties xs r h = sort_rows-append_first (desc key ties) xs r (go xs h)
  where
    go :
        (ys : List A)
        → All (λ x. text_ltb (key x) (key r) ≡ true) ys
        → All (λ x. desc key ties x r ≡ false) ys
    go [] k = tt
    go (y ∷ ys) (p, k) = (desc_later key ties y r p, go ys k)

-- Two rows, the first inserted with the greater key, keep their order.
pub two_rows :
    {A : Type 0} (key : A → String) (ties : A → A → Bool) (x y : A)
    → text_ltb (key y) (key x) ≡ true
    → sort_rows (desc key ties) (x ∷ y ∷ []) ≡ x ∷ y ∷ []
unfolding sort_rows
two_rows key ties x y h = unfold insert_row in rw h
