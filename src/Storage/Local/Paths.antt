-- ===== src/Storage/Local/Paths.antt =====
-- The files of artifacts, by their types, names and versions.
use text.Mathlib.TextLemmas.{append_cancel_left, append-eq-nil_iff}
use mathlib.Core.List.{reverse, reverse_aux-eq}
use artifact_registry_servic.Base.{
  String, ◌<>◌, ◌==◌, eq_iff, ◌≡◌, refl, sym, ap, ◌∙◌, Bool-cases, inl, inr, Bool, true, false,
  List, [], ◌∷◌, ◌++◌, split, arith, ◌&&◌, if◌then◌else◌,
}
use artifact_registry_servic.Base.Text.Split.{no_slash, split-append, split-no_slash}
use artifact_registry_servic.Platform.{Platform}
use artifact_registry_servic.Storage.Path.{join_parts}
use artifact_registry_servic.Storage.Path.Laws.{
  is_plain, walk, visit-plain, parent-plain, is_rooted, parts_of, written, join-written,
}
use artifact_registry_servic.Storage.Local.{full_path}
use artifact_registry_servic.Registry.Identifier.{storage_key}
use artifact_registry_servic.Registry.Identifier.Laws.{storage_key_injective}

split-storage_key :
    (t n v : String)
    → no_slash t ≡ true
    → no_slash n ≡ true
    → no_slash v ≡ true
    → split (storage_key t n v) b'/' ≡ t ∷ n ∷ v ∷ "artifact" ∷ []
unfolding storage_key
split-storage_key t n v ht hn hv = rw (split-append t (n <> "/" <> v <> "/" <> "artifact")) (
    rw (split-append n (v <> "/" <> "artifact")) (
      rw (split-append v "artifact") (
        rw (split-no_slash t ht) (
          rw (split-no_slash n hn)
            (rw (split-no_slash v hv) (rw (split-no_slash "artifact" refl) refl))))))

slash_not_empty : (a x : String) → (a <> "/" <> x == "") ≡ false
slash_not_empty a x = elim (Bool-cases (a <> "/" <> x == "")) [
  | inr e ↦ e
  | inl e ↦
      let (first, others) = append-eq-nil_iff.0 ((eq_iff (a <> "/" <> x) "").0 e) in
      let (here, last) = append-eq-nil_iff.0 others in absurd (slash_is_text here)
]
  where
    slash_is_text : ◌≡◌ {A = String} "/" "" → ⊥
    slash_is_text h = ground (arith, eq_iff "/" "")

storage_key_not_empty : (t n v : String) → (storage_key t n v == "") ≡ false
unfolding storage_key
storage_key_not_empty t n v = slash_not_empty t (n <> "/" <> v <> "/artifact")

-- The last parts of a path that is not only the root.
pub full_path-storage_key :
    (go : Platform) (base t n v : String)
    → (base == "") ≡ false
    → no_slash t ≡ true
    → no_slash n ≡ true
    → no_slash v ≡ true
    → full_path go base (storage_key t n v)
      ≡ written
          (is_rooted base)
          (walk (is_rooted base) (parts_of base) (t ∷ n ∷ v ∷ "artifact" ∷ []))
full_path-storage_key go base t n v b ht hn hv =
    join-written base (storage_key t n v) b (storage_key_not_empty t n v)
    ∙ ap (λ parts. written (is_rooted base) (walk (is_rooted base) (parts_of base) parts))
        (split-storage_key t n v ht hn hv)

-- Parts behind others.
join_cancel :
    (before : List String) (p q : String) (ps qs : List String)
    → join_parts (before ++ p ∷ ps) ≡ join_parts (before ++ q ∷ qs)
    → join_parts (p ∷ ps) ≡ join_parts (q ∷ qs)
unfolding join_parts
join_cancel [] p q ps qs e = e
join_cancel (b ∷ []) p q ps qs e = append_cancel_left "/" _ _ (append_cancel_left b _ _ e)
join_cancel (b ∷ c ∷ before) p q ps qs e =
    join_cancel (c ∷ before) p q ps qs (append_cancel_left "/" _ _ (append_cancel_left b _ _ e))

join_not_empty :
    (before : List String) (p q : String) (ps : List String)
    → (join_parts (before ++ p ∷ q ∷ ps) == "") ≡ false
unfolding join_parts
join_not_empty [] p q ps = slash_not_empty p (join_parts (q ∷ ps))
join_not_empty (b ∷ []) p q ps = slash_not_empty b (join_parts (p ∷ q ∷ ps))
join_not_empty (b ∷ c ∷ before) p q ps = slash_not_empty b (join_parts (c ∷ (before ++ p ∷ q ∷ ps)))

abbrev pub under : Bool → String → String
under rooted text = if rooted then "/" <> text else text

under_cancel : (rooted : Bool) (s t : String) → under rooted s ≡ under rooted t → s ≡ t
under_cancel true s t e = append_cancel_left "/" s t e
under_cancel false s t e = e

written-under :
    (rooted : Bool) (stack : List String) (t n v : String)
    → written rooted ("artifact" ∷ v ∷ n ∷ t ∷ stack)
      ≡ under rooted (join_parts (reverse stack ++ t ∷ n ∷ v ∷ "artifact" ∷ []))
written-under true stack t n v =
    ap (λ parts. "/" <> join_parts parts) (reverse_aux-eq stack (t ∷ n ∷ v ∷ "artifact" ∷ []))
written-under false stack t n v =
    rw (reverse_aux-eq stack (t ∷ n ∷ v ∷ "artifact" ∷ []))
      (rw (join_not_empty (reverse stack) t n (v ∷ "artifact" ∷ [])) refl)

plain-no_slash : (p : String) → is_plain p ≡ true → no_slash p ≡ true
plain-no_slash p h = first (no_slash p) _ h
  where
    first : (a b : Bool) → (a && b) ≡ true → a ≡ true
    first a b h = ground arith

key_of_parts : (t n v : String) → storage_key t n v ≡ join_parts (t ∷ n ∷ v ∷ "artifact" ∷ [])
unfolding storage_key join_parts
key_of_parts t n v = refl

module _ (go : Platform) (base : String) (given : (base == "") ≡ false) where
  -- Below a base directory that is not empty, the file of a plain type, name and version (not
  -- empty, without slashes, and neither `.` nor `..`) lies under the base: its path is the parts
  -- of the base directory, followed by the type, the name, the version and `artifact`.
  pub full_path-plain :
      (t n v : String)
      → is_plain t ≡ true
      → is_plain n ≡ true
      → is_plain v ≡ true
      → full_path go base (storage_key t n v)
        ≡ under
            (is_rooted base)
            (join_parts (reverse (parts_of base) ++ t ∷ n ∷ v ∷ "artifact" ∷ []))
  full_path-plain t n v ht hn hv =
      full_path-storage_key go base t n v given (plain-no_slash t ht) (plain-no_slash n hn)
        (plain-no_slash v hv)
      ∙ ap (written (is_rooted base)) (walked t n v ht hn hv)
      ∙ written-under (is_rooted base) (parts_of base) t n v
    where
      walked :
          (t n v : String)
          → is_plain t ≡ true
          → is_plain n ≡ true
          → is_plain v ≡ true
          → walk (is_rooted base) (parts_of base) (t ∷ n ∷ v ∷ "artifact" ∷ [])
            ≡ "artifact" ∷ v ∷ n ∷ t ∷ parts_of base
      walked t n v ht hn hv = rw (visit-plain (is_rooted base) (parts_of base) t ht) (
          rw (visit-plain (is_rooted base) (t ∷ parts_of base) n hn)
            (rw (visit-plain (is_rooted base) (n ∷ t ∷ parts_of base) v hv) refl))

  -- Below a base directory that is not empty, two artifacts with plain types, names and versions
  -- have the same file only if they agree in all three.
  pub full_path_apart :
      (t n v t' n' v' : String)
      → is_plain t ≡ true
      → is_plain n ≡ true
      → is_plain v ≡ true
      → is_plain t' ≡ true
      → is_plain n' ≡ true
      → is_plain v' ≡ true
      → full_path go base (storage_key t n v) ≡ full_path go base (storage_key t' n' v')
      → (t ≡ t') × (n ≡ n') × (v ≡ v')
  full_path_apart t n v t' n' v' ht hn hv ht' hn' hv' same =
      storage_key_injective t n v t' n' v' (plain-no_slash t ht) (plain-no_slash n hn)
        (plain-no_slash v hv) (plain-no_slash t' ht') (plain-no_slash n' hn')
        (plain-no_slash v' hv')
        (key_of_parts t n v
          ∙ join_cancel (reverse (parts_of base)) t t' _ _ (
              under_cancel (is_rooted base) _ _ (
                sym (full_path-plain t n v ht hn hv) ∙ same ∙ full_path-plain t' n' v' ht' hn' hv'))
          ∙ sym (key_of_parts t' n' v'))

  -- A name `..` takes the type out of the path: below a base directory that is not empty, two
  -- artifacts of different types, both plain, with the name `..` and one version without slashes
  -- have the same file.
  pub full_path_shared :
      (t t' v : String)
      → is_plain t ≡ true
      → is_plain t' ≡ true
      → no_slash v ≡ true
      → full_path go base (storage_key t ".." v) ≡ full_path go base (storage_key t' ".." v)
  full_path_shared t t' v ht ht' hv =
      full_path-storage_key go base t ".." v given (plain-no_slash t ht) refl hv
      ∙ ap (written (is_rooted base)) (left_out t ht ∙ sym (left_out t' ht'))
      ∙ sym (full_path-storage_key go base t' ".." v given (plain-no_slash t' ht') refl hv)
    where
      left_out :
          (t : String)
          → is_plain t ≡ true
          → walk (is_rooted base) (parts_of base) (t ∷ ".." ∷ v ∷ "artifact" ∷ [])
            ≡ walk (is_rooted base) (parts_of base) (v ∷ "artifact" ∷ [])
      left_out t ht =
          rw (visit-plain (is_rooted base) (parts_of base) t ht)
            (rw (parent-plain (is_rooted base) (parts_of base) t ht) refl)
