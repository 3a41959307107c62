-- ===== src/Sqlite/Errors/Search.antt =====
-- The search in a text that sqlite.go writes out.
use Prim.Native.Char.{code}
use text.Mathlib.TextLemmas.{nil-append, cons-append, append-nil}
use text.Mathlib.TextEquality.{Char-path}
use artifact_registry_servic.Base.{
  ◌+◌, String, ◌<>◌, ◌==◌, eq_iff, ◌≡◌, ◌↔◌, refl, sym, ap, ◌∙◌, true, false, Bool-cases, inl, inr,
  eqb, ltb, arith, byte_len, has_prefix,
}
use artifact_registry_servic.Sqlite.Errors.{contains_str, contains}

-- The text `sub` stands somewhere in `s`.
abbrev pub Occurs : String → String → Type 0
Occurs sub s = (before : String) × (after : String) × (s ≡ before <> (sub <> after))

has_prefix_starts : (s p : String) → has_prefix s p ≡ true → (r : String) × (s ≡ p <> r)
unfolding has_prefix
has_prefix_starts s String.[] h = (s, sym (nil-append s))
has_prefix_starts String.[] (String.◌∷◌ d p) h = cc
has_prefix_starts (String.◌∷◌ c s) (String.◌∷◌ d p) h = elim (Bool-cases (eqb (code c) (code d))) [
  | inl same ↦
      let (r, e) = has_prefix_starts s p (rw same at h) in
      let here : c ≡ d = Char-path c d (ground arith) in
      (r, ap (String.◌∷◌ c) e ∙ ap (λ x. String.◌∷◌ x (p <> r)) here ∙ sym (cons-append d p r))
  | inr other ↦ cc (rw other at h)
]

has_prefix-append : (p r : String) → has_prefix (p <> r) p ≡ true
unfolding has_prefix
has_prefix-append String.[] r = refl
has_prefix-append (String.◌∷◌ c p) r =
    rw (cons-append c p r) (ground (arith, has_prefix-append p r))

contains_str-Occurs : (s sub : String) → contains_str s sub ≡ true → Occurs sub s
unfolding contains_str
contains_str-Occurs String.[] sub h =
    let (r, e) = has_prefix_starts "" sub h in ("", r, e ∙ sym (nil-append (sub <> r)))
contains_str-Occurs (String.◌∷◌ c s) sub h = elim (Bool-cases (has_prefix (String.◌∷◌ c s) sub)) [
  | inl here ↦
      let (r, e) = has_prefix_starts (String.◌∷◌ c s) sub here in
      ("", r, e ∙ sym (nil-append (sub <> r)))
  | inr later ↦
      let (a, b, e) = contains_str-Occurs s sub (rw later at h) in
      (String.◌∷◌ c a, b, ap (String.◌∷◌ c) e ∙ sym (cons-append c a (sub <> b)))
]

contains_str_here : (s sub : String) → has_prefix s sub ≡ true → contains_str s sub ≡ true
unfolding contains_str
contains_str_here String.[] sub h = h
contains_str_here (String.◌∷◌ c s) sub h = rw h refl

contains_str_later : (a sub b : String) → contains_str (a <> (sub <> b)) sub ≡ true
unfolding contains_str
contains_str_later String.[] sub b =
    rw (nil-append (sub <> b)) (contains_str_here (sub <> b) sub (has_prefix-append sub b))
contains_str_later (String.◌∷◌ c a) sub b =
    rw (cons-append c a (sub <> b)) (ground (arith, contains_str_later a sub b))

byte_len-append : (s t : String) → byte_len (s <> t) ≡ byte_len s + byte_len t
unfolding byte_len
byte_len-append String.[] t = ap byte_len (nil-append t) ∙ omega arith
byte_len-append (String.◌∷◌ c s) t =
    ap byte_len (cons-append c s t) ∙ omega (arith, byte_len-append s t)

byte_len_empty : (s : String) → ltb 0 (byte_len s) ≡ false → s ≡ ""
unfolding byte_len
byte_len_empty String.[] h = refl
byte_len_empty (String.◌∷◌ c s) h = absurd (ground arith)

-- The search finds a text exactly if it occurs.
pub contains-Occurs : (s sub : String) → (contains s sub ≡ true) ↔ Occurs sub s
unfolding contains
contains-Occurs s sub = (found, there)
  where
    found : contains s sub ≡ true → Occurs sub s
    found h = elim (Bool-cases (s == sub)) [
      | inl same ↦ ("", "", (eq_iff s sub).0 same ∙ sym (nil-append (sub <> "") ∙ append-nil sub))
      | inr other ↦ contains_str-Occurs s sub (ground arith)
    ]

    there : Occurs sub s → contains s sub ≡ true
    there (a, b, e) =
        let long : byte_len s ≡ byte_len a + (byte_len sub + byte_len b) =
          ap byte_len e ∙ byte_len-append a (sub <> b) ∙ omega (arith, byte_len-append sub b) in
        let searched : contains_str s sub ≡ true = rw e (contains_str_later a sub b) in
        elim (Bool-cases (ltb 0 (byte_len s))) [
          | inl some_text ↦ ground (arith, searched, long)
          | inr blank ↦
              let same : s ≡ sub =
                byte_len_empty s blank ∙ sym (byte_len_empty sub (ground (arith, long))) in
              ground (arith, long, (eq_iff s sub).1 same)
        ]
