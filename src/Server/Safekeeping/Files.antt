-- ===== src/Server/Safekeeping/Files.antt =====
-- A goroutine takes the place of others, and a row is added.
use artifact_registry_servic.Base.{
  String, ◌≡◌, sym, ap, ◌∙◌, ◌⊎◌, inl, inr, List, [], ◌∷◌, ◌++◌, All, All-append, All-weaken,
  Pairwise, Option, none, some, lookup,
}
use artifact_registry_servic.Domain.{Artifact}
use artifact_registry_servic.World.{World, Bytes}
use artifact_registry_servic.Platform.{Platform}
use artifact_registry_servic.Server.Threads.{
  Thread, inserting, cleaning, restoring, pointing, saving, announcing, resetting, delivering,
}
use artifact_registry_servic.Server.Threads.Quiet.{Apart, HasNone}
use artifact_registry_servic.Server.System.Invariant.{All-halves}
use artifact_registry_servic.Server.Safekeeping.{Holds, file_name, file, Held, IsOutside, IsSafe}

pub Apart-sym : (j k : Option String) → Apart j k → Apart k j
Apart-sym none none h = tt
Apart-sym none (some k) h = tt
Apart-sym (some j) none h = tt
Apart-sym (some j) (some k) h = λ e. h (sym e)

pub Apart-none : (j : Option String) → Apart j none
Apart-none none = tt
Apart-none (some j) = tt

module _ {A : Type 0} (R : A → A → Type 0) where
  -- An element among others.
  pub Pairwise-middle :
      (xs : List A) (y : A) (ys : List A)
      → Pairwise R (xs ++ y ∷ ys)
      → Pairwise R (xs ++ ys) × All (λ x. R x y) xs × All (R y) ys
  Pairwise-middle [] y ys (a, h) = (h, tt, a)
  Pairwise-middle (x ∷ xs) y ys (a, h) =
      let (others, before, after) = Pairwise-middle xs y ys h in
      let (ahead, (here, behind)) = All-halves (R x) xs (y ∷ ys) a in
      ((All-append (R x) xs ys ahead behind, others), (here, before), after)

  -- Others in its place.
  pub Pairwise-replace :
      (xs ts ys : List A)
      → Pairwise R (xs ++ ys)
      → Pairwise R ts
      → All (λ x. All (R x) ts) xs
      → All (λ t. All (R t) ys) ts
      → Pairwise R (xs ++ (ts ++ ys))
  Pairwise-replace [] [] ys h k a b = h
  Pairwise-replace [] (t ∷ ts) ys h (c, k) a (b, bs) =
      (All-append (R t) ts ys c b, Pairwise-replace [] ts ys h k tt bs)
  Pairwise-replace (x ∷ xs) ts ys (g, h) k (a, as') b =
      let (ahead, behind) = All-halves (R x) xs ys g in
      (
        All-append (R x) xs (ts ++ ys) ahead (All-append (R x) ts ys a behind),
        Pairwise-replace xs ts ys h k as' b,
      )

module _ {A : Type 0} (P Q S : A → Type 0) where
  -- What follows from two properties.
  pub All-both : ((x : A) → P x → Q x → S x) → (xs : List A) → All P xs → All Q xs → All S xs
  All-both f [] h k = tt
  All-both f (x ∷ xs) (p, h) (q, k) = (f x p q, All-both f xs h k)

pub All-of : {A : Type 0} (P : A → Type 0) → ((x : A) → P x) → (xs : List A) → All P xs
All-of P f [] = tt
All-of P f (x ∷ xs) = (f x, All-of P f xs)

module _ (go : Platform) (name : String → String) where
  -- What goroutines have in hand that come instead of one that had the file `k`.
  pub record IsHeir (objects : List (String × Bytes)) (k : Option String) (ts : List Thread)
      : Type 0 where
    pub mine : All (λ t. (file name t ≡ none) ⊎ (file name t ≡ k)) ts
    pub alone : Pairwise (λ t u. Apart (file name t) (file name u)) ts
    pub held : All (Held go name objects) ts

  Held-none : (objects : List (String × Bytes)) (t : Thread) → HasNone t → Held go name objects t
  Held-none objects (inserting a) e = cc
  Held-none objects (cleaning a) e = tt
  Held-none objects (restoring channel type app by version) e = tt
  Held-none objects (pointing event channel type app by target) e = tt
  Held-none objects (saving event ch) e = tt
  Held-none objects (announcing e' body urls) e = tt
  Held-none objects (resetting id d) e = tt
  Held-none objects (delivering task i last delays) e = tt

  pub none-IsHeir :
      (objects : List (String × Bytes)) (k : Option String) (ts : List Thread)
      → All HasNone ts
      → IsHeir objects k ts
  none-IsHeir objects k ts h = record {
    mine = All-weaken HasNone _ (λ t e. inl (ap (file_name name) e)) ts h;
    alone = idle ts h;
    held = All-weaken HasNone (Held go name objects) (Held-none objects) ts h;
  }
    where
      idle :
          (ts : List Thread)
          → All HasNone ts
          → Pairwise (λ t u. Apart (file name t) (file name u)) ts
      idle [] h = tt
      idle (t ∷ ts) (e, h) = (All-of _ (λ u. rw (ap (file_name name) e) tt) ts, idle ts h)

  inherit :
      (j k : Option String) (t : Thread)
      → Apart j k
      → (file name t ≡ none) ⊎ (file name t ≡ k)
      → Apart j (file name t)
  inherit j k t h (inl e) = rw e (Apart-none j)
  inherit j k t h (inr e) = rw e h

  -- The objects but the one of `k` are as before.
  abbrev pub Others : Option String → World → World → Type 0
  Others k w v = (j : String) → Apart (some j) k → lookup j v.objects ≡ lookup j w.objects

  module _ (w v : World) (before ts after : List Thread) (k : Option String)
      (rows : v.db.artifacts ≡ w.db.artifacts) (others : Others k w v) where
    Holds-other :
        (a : Artifact)
        → Holds go name w.objects a
        → Apart (some (name a.storage_key)) k
        → Holds go name v.objects a
    Holds-other a (content, there, size, hash) h =
        (content, others (name a.storage_key) h ∙ there, size, hash)

    Held-other :
        (t : Thread) → Held go name w.objects t → Apart (file name t) k → Held go name v.objects t
    Held-other (inserting a) h e = Holds-other a h e
    Held-other (cleaning a) h e = tt
    Held-other (restoring channel type app by version) h e = tt
    Held-other (pointing event channel type app by target) h e = tt
    Held-other (saving event ch) h e = tt
    Held-other (announcing e' body urls) h e = tt
    Held-other (resetting id d) h e = tt
    Held-other (delivering task i last delays) h e = tt

    among :
        (P : Thread → Type 0)
        → All P before
        → All P ts
        → All P after
        → All P (before ++ (ts ++ after))
    among P b t a = All-append P before (ts ++ after) b (All-append P ts after t a)

    -- A goroutine with the file `k` has given way to its heirs.
    pub replaced :
        IsSafe go name w (before ++ after)
        → All (λ x. Apart (file name x) k) before
        → All (λ x. Apart (file name x) k) after
        → IsOutside name w.db.artifacts k
        → IsHeir v.objects k ts
        → IsSafe go name v (before ++ (ts ++ after))
    replaced safe ahead behind out heir =
        let (held_before, held_after) = All-halves _ before after safe.held in
        let (out_before, out_after) = All-halves _ before after safe.outside in
        record {
          files = rw rows (All-both _ _ _ Holds-other w.db.artifacts safe.files out);
          held =
              among (Held go name v.objects) (All-both _ _ _ Held-other before held_before ahead)
                heir.held (All-both _ _ _ Held-other after held_after behind);
          outside = rw rows (
              among (λ t. IsOutside name w.db.artifacts (file name t)) out_before
                (All-weaken _ (λ t. IsOutside name w.db.artifacts (file name t)) outside_heir ts
                  heir.mine)
                out_after);
          alone =
              Pairwise-replace _ before ts after safe.alone heir.alone
                (All-weaken _ _
                  (λ x h. All-weaken _ _ (λ t m. inherit (file name x) k t h m) ts heir.mine) before
                  ahead)
                (All-weaken _ _
                  (λ t m.
                    All-weaken _ _ (λ y h. Apart-sym _ _ (inherit (file name y) k t h m)) after
                      behind)
                  ts heir.mine);
        }
      where
        outside_heir :
            (t : Thread)
            → (file name t ≡ none) ⊎ (file name t ≡ k)
            → IsOutside name w.db.artifacts (file name t)
        outside_heir t m =
            All-weaken _ _ (λ a h. inherit (some (name a.storage_key)) k t h m) w.db.artifacts out

  -- A row is added whose file is there, and which no goroutine has in hand.
  pub added :
      (w v : World) (a : Artifact) (ts : List Thread)
      → v.db.artifacts ≡ w.db.artifacts ++ a ∷ []
      → v.objects ≡ w.objects
      → IsSafe go name w ts
      → Holds go name w.objects a
      → All (λ t. Apart (some (name a.storage_key)) (file name t)) ts
      → IsSafe go name v ts
  added w v a ts rows same safe holds clear = record {
    files = rw rows (rw same (All-append _ w.db.artifacts (a ∷ []) safe.files (holds, tt)));
    held = rw same safe.held;
    outside = rw rows (
        All-both _ _ _ (λ t out h. All-append _ w.db.artifacts (a ∷ []) out (h, tt)) ts safe.outside
          clear);
    alone = safe.alone;
  }
