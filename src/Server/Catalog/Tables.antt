-- ===== src/Server/Catalog/Tables.antt =====
-- Each change of the tables is a change of the catalog that they show.
use mathlib.Core.Option
use mathlib.Core.Path.{fun_ext}
use mathlib.Core.List.{append-nil}
use artifact_registry_servic.Base.{
  ℕ, ◌-◌, ◌≤◌, String, ◌==◌, eq_iff, eq_refl, ◌≡◌, refl, Bool, true, false, Bool-cases, inl, inr,
  List, [], ◌∷◌, ◌++◌, none, some, any, find, find-All, select, select-append, All-of_not_any,
  arith, if◌then◌else◌,
}
use artifact_registry_servic.Domain.{Artifact, ChannelPointer}
use artifact_registry_servic.Delivery.{DeliveryRecord, Status}
use artifact_registry_servic.World.{Db, World, Bytes, Engine}
use artifact_registry_servic.Sqlite.Artifacts.{is_artifact, conflicts, find_artifact}
use artifact_registry_servic.Sqlite.Artifacts.Laws.{
  with_artifact, find-with_artifact, find-append_fresh,
}
use artifact_registry_servic.Sqlite.Channels.{is_channel, find_channel}
use artifact_registry_servic.Sqlite.Channels.Laws.{
  with_channel, find-with_channel, find-with_channel_other,
}
use artifact_registry_servic.Sqlite.Deliveries.{has_id, new_row, update_rows, find_delivery}
use artifact_registry_servic.Sqlite.Deliveries.Laws.{
  with_deliveries, IsCreated, find-update_rows_other,
}
use artifact_registry_servic.Server.Catalog.{
  view, is_key, is_of, settle, settled, Change, publishes, points, queues, settles, IsThere,
}

module _ {A : Type 0} (p : A → Bool) where
  find-none : (xs : List A) → any p xs ≡ false → find p xs ≡ none
  find-none [] h = refl
  find-none (x ∷ xs) h = ground (arith, find-none xs)

  -- A search with one element more at the end.
  find-append_other : (xs : List A) (x : A) → p x ≡ false → find p (xs ++ x ∷ []) ≡ find p xs
  find-append_other [] x h = rw h
  find-append_other (y ∷ xs) x h = ground (arith, find-append_other xs x)

pub named :
    (type name version : String) (a : Artifact)
    → is_key type name version a ≡ true
    → (a.type ≡ type) × (a.name ≡ name) × (a.version ≡ version)
named type name version a h = (
  ground (arith, eq_iff a.type type),
  ground (arith, eq_iff a.type type, eq_iff a.name name),
  ground (arith, eq_iff a.version version),
)

module _ (db : Db) (a : Artifact) (fresh : any (conflicts a) db.artifacts ≡ false) where
  key_free :
      (xs : List Artifact)
      → any (conflicts a) xs ≡ false
      → any (is_artifact a.type a.name a.version) xs ≡ false
  key_free [] h = refl
  key_free (x ∷ xs) h = ground (arith, key_free xs)

  ids_differ : (b : Artifact) → conflicts a b ≡ false → (b.id == a.id) ≡ false
  ids_differ b h = ground arith

  artifact-publish :
      (type name version : String)
      → find_artifact (with_artifact db a) type name version
        ≡ (if is_key type name version a then some a else find_artifact db type name version)
  unfolding find_artifact
  artifact-publish type name version = elim (Bool-cases (is_key type name version a)) [
    | inl here ↦
        let (t, n, v) = named type name version a here in
        rw here (rw⁻¹ t (rw⁻¹ n (rw⁻¹ v (find-with_artifact db a fresh))))
    | inr other ↦ rw other (find-append_other _ db.artifacts a other)
  ]

  pub with_artifact-Change : Change (view db) (view (with_artifact db a))
  unfolding find_artifact find_channel find_delivery
  with_artifact-Change =
      publishes a _
        (record {
          key = find-none _ db.artifacts (key_free db.artifacts fresh);
          id = λ type name version b found.
              ids_differ b
                (find-All (λ x. conflicts a x ≡ false) (is_artifact type name version) db.artifacts
                  b found (All-of_not_any (conflicts a) db.artifacts fresh)).1;
        })
        (λ i. record (view db) {
          artifact = fun_ext (λ type. fun_ext (λ name. fun_ext (artifact-publish type name))) i;
        })

module _ (db : Db) (ch : ChannelPointer) where
  is_of_channel :
      (channel type name : String)
      → is_of channel type name ch ≡ true
      → (ch.channel ≡ channel) × (ch.type ≡ type) × (ch.name ≡ name)
  is_of_channel channel type name h = (
    ground (arith, eq_iff ch.channel channel),
    ground (arith, eq_iff ch.channel channel, eq_iff ch.type type),
    ground (arith, eq_iff ch.name name),
  )

  current-point :
      (channel type name : String)
      → find_channel (with_channel db ch) channel type name
        ≡ (if is_of channel type name ch then some ch else find_channel db channel type name)
  current-point channel type name = elim (Bool-cases (is_of channel type name ch)) [
    | inl here ↦
        let (c, t, n) = is_of_channel channel type name here in
        rw here (rw⁻¹ c (rw⁻¹ t (rw⁻¹ n (find-with_channel db ch))))
    | inr other ↦ rw other (find-with_channel_other db ch channel type name other)
  ]

  history-point :
      (channel type name : String)
      → select (is_channel channel type name) (db.channel_history ++ ch ∷ []) ≡ (
          if is_of channel type name ch
          then select (is_channel channel type name) db.channel_history ++ ch ∷ []
          else select (is_channel channel type name) db.channel_history)
  history-point channel type name = elim (Bool-cases (is_of channel type name ch)) [
    | inl here ↦ rw select-append (rw here refl)
    | inr other ↦ rw select-append (rw other (append-nil _))
  ]

  pub with_channel-Change : IsThere (view db) ch → Change (view db) (view (with_channel db ch))
  unfolding find_channel find_artifact find_delivery
  with_channel-Change there = points ch _ there (λ i. record (view db) {
    current = fun_ext (λ channel. fun_ext (λ type. fun_ext (current-point channel type))) i;
    history = fun_ext (λ channel. fun_ext (λ type. fun_ext (history-point channel type))) i;
  })

module _ (engine : Engine) (now hint : ℕ) (d : DeliveryRecord) (db : Db)
    (objects : List (String × Bytes)) (w : World)
    (made : IsCreated engine now d db objects hint w) where
  delivery-queue :
      (id : String)
      → find_delivery (with_deliveries db (db.webhook_deliveries ++ new_row now hint d ∷ [])) id
        ≡ (if d.delivery_id == id then some (new_row now hint d) else find_delivery db id)
  unfolding find_delivery
  delivery-queue id = elim (Bool-cases (d.delivery_id == id)) [
    | inl here ↦
        let same : d.delivery_id ≡ id = (eq_iff d.delivery_id id).0 here in
        rw here (
          rw⁻¹ same (
            find-append_fresh (has_id d.delivery_id) db.webhook_deliveries (new_row now hint d)
              made.fresh (eq_refl d.delivery_id)))
    | inr other ↦ rw other (find-append_other _ db.webhook_deliveries (new_row now hint d) other)
  ]

  pub created-Change :
      Change
        (view db)
        (view (with_deliveries db (db.webhook_deliveries ++ new_row now hint d ∷ [])))
  unfolding find_channel find_artifact find_delivery
  created-Change =
      queues (new_row now hint d) _
        (record {
          key = find-none _ db.webhook_deliveries made.fresh;
          waiting = (refl, refl);
          last = λ id b found same. omega (
            arith,
            made.positive,
            (find-All
                  (λ row.
                    (row.aggregate_key == d.aggregate_key) ≡ true → row.sequence_hint ≤ hint - 1)
                  (has_id id) db.webhook_deliveries b found
                  (made.above (hint - 1) (omega (arith, made.positive)))).1
                same,
          );
        })
        (λ i. record (view db) { delivery = fun_ext delivery-queue i })

module _ (db : Db) (now : ℕ) (id : String) (s : Status) (n : ℕ) (e : String) where
  find-settled_rows :
      (rows : List DeliveryRecord)
      → find (has_id id) (update_rows now id s n e rows)
        ≡ Option.map (settled now s n e) (find (has_id id) rows)
  unfolding update_rows
  find-settled_rows [] = refl
  find-settled_rows (row ∷ rows) = elim (Bool-cases (has_id id row)) [
    | inl same ↦ rw same (rw same refl)
    | inr other ↦ rw other (rw other (find-settled_rows rows))
  ]

  delivery-settle :
      (key : String)
      → find_delivery (with_deliveries db (update_rows now id s n e db.webhook_deliveries)) key
        ≡ (settle id now s n e (view db)).delivery key
  unfolding find_delivery
  delivery-settle key = elim (Bool-cases (id == key)) [
    | inl here ↦
        let same : id ≡ key = (eq_iff id key).0 here in
        rw here (rw⁻¹ same (find-settled_rows db.webhook_deliveries))
    | inr other ↦ rw other (find-update_rows_other now id key s n e db.webhook_deliveries other)
  ]

  pub updated-Change :
      Change (view db) (view (with_deliveries db (update_rows now id s n e db.webhook_deliveries)))
  unfolding find_channel find_artifact find_delivery
  updated-Change =
      settles id now s n e _ (λ i. record (view db) { delivery = fun_ext delivery-settle i })
