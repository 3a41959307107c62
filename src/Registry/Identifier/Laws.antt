-- ===== src/Registry/Identifier/Laws.antt =====
-- The identifiers that `validateIdentifier` accepts, and the storage keys made of them.
use Prim.Native.Char.{code}
use text.Mathlib.TextLemmas.{cons-append, cons-eq-cons, head-eq_of_cons-eq, tail-eq_of_cons-eq}
use artifact_registry_servic.Base.{
  ℕ, String, ◌<>◌, ◌==◌, ◌≡◌, refl, sym, ap, ◌∙◌, inl, inr, Bool, true, false, not, ◌&&◌, ◌||◌,
  arith, eqb, leb, ltb, all_chars, Bool-cases, is_space, is_blank, trim_left, trim_right,
  trim_space, byte_len, if◌then◌else◌,
}
use artifact_registry_servic.Base.Text.Split.{no_slash, slash, slash-append}
use artifact_registry_servic.Base.Text.Trim.{all_chars_weaken}
use artifact_registry_servic.Domain.Errors.{sentinel, invalid_input, is}
use artifact_registry_servic.Exec.{Result, ok, err, ok≢err}
use artifact_registry_servic.Platform.{Platform}
use artifact_registry_servic.Registry.Identifier.{
  is_alpha_num, check_runes, validate_identifier, storage_key,
}

-- Letters, digits, `-`, `_` and `.`.
abbrev pub is_identifier_char : ℕ → Bool
is_identifier_char c = is_alpha_num c || eqb c b'-' || eqb c b'_' || eqb c b'.'

-- Whether an error is `ErrInvalidInput` to `errors.Is`.
abbrev pub Rejects : Result (Unit {0}) → Type 0
Rejects (ok _) = ⊥
Rejects (err e) = is e invalid_input ≡ true

abbrev pub Answers : Bool → Result (Unit {0}) → Type 0
Answers true r = r ≡ ok tt
Answers false r = Rejects r

de_morgan : (a b c d : Bool) → (not a && (not b && (not c && not d))) ≡ not (a || b || c || d)
de_morgan a b c d = ground arith

check_runes-Answers :
    (go : Platform) (whole s : String)
    → Answers (all_chars is_identifier_char s) (check_runes go whole s)
unfolding check_runes
check_runes-Answers go whole String.[] = refl
check_runes-Answers go whole (String.◌∷◌ c s) =
    rw de_morgan (elim (Bool-cases (is_identifier_char (code c))) [
      | inl e ↦ rw e (check_runes-Answers go whole s)
      | inr e ↦ rw e refl
    ])

-- The two tests in front of the loop.
guarded :
    (go : Platform) (s : String) (n : ℕ) (r : Result (Unit {0}))
    → Answers (all_chars is_identifier_char s) r
    → Answers
        (not (s == "") && (leb n 128 && all_chars is_identifier_char s))
        (if s == "" || ltb 128 n then err (sentinel invalid_input) else r)
guarded go s n r h = elim (Bool-cases (s == "")) [
  | inl e ↦ rw e refl
  | inr e ↦ rw e (elim (Bool-cases (leb n 128)) [
    | inl small ↦ let fits : ltb 128 n ≡ false = ground arith in rw small (rw fits h)
    | inr big ↦ let over : ltb 128 n ≡ true = ground arith in rw big (rw over refl)
  ])
]

-- An identifier is accepted exactly if, without the white space around it, it is not empty, has at
-- most 128 bytes and only letters, digits, `-`, `_` and `.`; any other is refused with
-- `ErrInvalidInput`.
pub validate_identifier-Answers :
    (go : Platform) (s : String)
    → let t = trim_space s in
      Answers
        (not (t == "") && (leb (byte_len t) 128 && all_chars is_identifier_char t))
        (validate_identifier go s)
unfolding validate_identifier
validate_identifier-Answers go s =
    guarded go (trim_space s) (byte_len (trim_space s))
      (check_runes go (trim_space s) (trim_space s))
      (check_runes-Answers go (trim_space s) (trim_space s))

-- Two texts cut at their first slash.
slash_injective :
    (a a' x x' : String)
    → no_slash a ≡ true
    → no_slash a' ≡ true
    → a <> "/" <> x ≡ a' <> "/" <> x'
    → (a ≡ a') × (x ≡ x')
slash_injective String.[] String.[] x x' h h' e =
    (refl, tail-eq_of_cons-eq (sym (slash-append x) ∙ e ∙ slash-append x'))
slash_injective String.[] (String.◌∷◌ d a') x x' h h' e =
    let same : slash ≡ d = head-eq_of_cons-eq (sym (slash-append x) ∙ e ∙ cons-append d a' _) in
    absurd (ground (arith, ap code same))
slash_injective (String.◌∷◌ c a) String.[] x x' h h' e =
    let same : c ≡ slash = head-eq_of_cons-eq (sym (cons-append c a _) ∙ e ∙ slash-append x') in
    absurd (ground (arith, ap code same))
slash_injective (String.◌∷◌ c a) (String.◌∷◌ d a') x x' h h' e =
    let cut : String.◌∷◌ c (a <> "/" <> x) ≡ String.◌∷◌ d (a' <> "/" <> x') =
      sym (cons-append c a _) ∙ e ∙ cons-append d a' _ in
    let (same, rest) =
      slash_injective a a' x x' (ground arith) (ground arith) (tail-eq_of_cons-eq cut) in
    (cons-eq-cons.1 (head-eq_of_cons-eq cut, same), rest)

-- Artifacts of different type, name or version are stored under different keys, if none of the
-- three has a slash.
pub storage_key_injective :
    (type name version type' name' version' : String)
    → no_slash type ≡ true
    → no_slash name ≡ true
    → no_slash version ≡ true
    → no_slash type' ≡ true
    → no_slash name' ≡ true
    → no_slash version' ≡ true
    → storage_key type name version ≡ storage_key type' name' version'
    → (type ≡ type') × (name ≡ name') × (version ≡ version')
unfolding storage_key
storage_key_injective t n v t' n' v' ht hn hv ht' hn' hv' e =
    let (et, e1) = slash_injective t t' _ _ ht ht' e in
    let (en, e2) = slash_injective n n' _ _ hn hn' e1 in
    (et, en, (slash_injective v v' "artifact" "artifact" hv hv' (join v ∙ e2 ∙ sym (join v'))).0)
  where
    join : (s : String) → s <> "/" <> "artifact" ≡ s <> "/artifact"
    join s = refl

module _ (p : ℕ → Bool) (spaces : (c : ℕ) → is_space c ≡ true → p c ≡ true) where
  blank_all : (s : String) → is_blank s ≡ true → all_chars p s ≡ true
  unfolding is_blank
  blank_all String.[] h = refl
  blank_all (String.◌∷◌ c s) h = ground (arith, spaces (code c), blank_all s)

  all_of_trim_right : (s : String) → all_chars p (trim_right s) ≡ true → all_chars p s ≡ true
  unfolding trim_right
  all_of_trim_right String.[] h = h
  all_of_trim_right (String.◌∷◌ c s) h = elim (Bool-cases (is_blank (String.◌∷◌ c s))) [
    | inl e ↦ blank_all (String.◌∷◌ c s) e
    | inr e ↦ ground (arith, all_of_trim_right s)
  ]

  all_of_trim_left : (s : String) → all_chars p (trim_left s) ≡ true → all_chars p s ≡ true
  unfolding trim_left
  all_of_trim_left String.[] h = h
  all_of_trim_left (String.◌∷◌ c s) h = ground (arith, spaces (code c), all_of_trim_left s)

  all_of_trim_space : (s : String) → all_chars p (trim_space s) ≡ true → all_chars p s ≡ true
  unfolding trim_space
  all_of_trim_space s h = all_of_trim_left s (all_of_trim_right (trim_left s) h)

identifier_no_slash : (c : ℕ) → is_identifier_char c ≡ true → not (eqb c b'/') ≡ true
identifier_no_slash c h = ground arith

space_no_slash : (c : ℕ) → is_space c ≡ true → not (eqb c b'/') ≡ true
unfolding is_space
space_no_slash c h = ground arith

accepted : (b : Bool) (r : Result (Unit {0})) → Answers b r → r ≡ ok tt → b ≡ true
accepted true r k e = refl
accepted false (ok _) k e = elim k [ ]
accepted false (err x) k e = absurd (ok≢err (sym e))

last_of_three : (a b c : Bool) → (a && (b && c)) ≡ true → c ≡ true
last_of_three a b c h = ground arith

-- An accepted identifier has no slash, the white space around it included.
pub validate_identifier-no_slash :
    (go : Platform) (s : String) → validate_identifier go s ≡ ok tt → no_slash s ≡ true
validate_identifier-no_slash go s h =
    all_of_trim_space (λ c. not (eqb c b'/')) space_no_slash s
      (all_chars_weaken is_identifier_char _ identifier_no_slash (trim_space s)
        (last_of_three _ _ _ (accepted _ _ (validate_identifier-Answers go s) h)))
