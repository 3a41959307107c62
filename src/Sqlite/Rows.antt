-- ===== src/Sqlite/Rows.antt =====
-- ORDER BY over a text column. Rows with equal keys stand in the order that `ties` gives.
pub mod Laws
use artifact_registry_servic.Base.{
  String, ◌==◌, Bool, ◌&&◌, ◌||◌, List, [], ◌∷◌, text_ltb, if◌then◌else◌,
}

module _ {A : Type 0} where
  insert_row : (A → A → Bool) → A → List A → List A
  insert_row before x [] = x ∷ []
  insert_row before x (y ∷ ys) =
      let rest = y ∷ insert_row before x ys in if before x y then x ∷ y ∷ ys else rest

  -- Rows sorted so that `before` rows come first.
  unfoldable pub sort_rows : (A → A → Bool) → List A → List A
  unfolding insert_row
  sort_rows before [] = []
  sort_rows before (x ∷ xs) = insert_row before x (sort_rows before xs)

abbrev pub desc {ℓ} : {A : Type ℓ} → (A → String) → (A → A → Bool) → A → A → Bool
desc key ties x y = text_ltb (key y) (key x) || (key x == key y && ties x y)

abbrev pub asc {ℓ} : {A : Type ℓ} → (A → String) → (A → A → Bool) → A → A → Bool
asc key ties x y = text_ltb (key x) (key y) || (key x == key y && ties x y)
