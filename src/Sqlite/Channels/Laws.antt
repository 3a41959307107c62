-- ===== src/Sqlite/Channels/Laws.antt =====
-- The channel tables after `SaveChannel`, and what later reads see.
use artifact_registry_servic.Base.{
  String, eq_iff, eq_refl, ◌≡◌, refl, Bool, true, false, List, [], ◌∷◌, ◌++◌, some, find, select,
  select-append, All, arith, text_ltb,
}
use artifact_registry_servic.Domain.{ChannelPointer}
use artifact_registry_servic.Exec.{Result, ok, err, Exec}
use artifact_registry_servic.Exec.Triple.{Post, Triple, Triple-on_error, Triple-bind, Triple-weaken}
use artifact_registry_servic.World.{Db, World, Engine, Bytes, external}
use artifact_registry_servic.World.Laws.{At, Triple-external}
use artifact_registry_servic.Sqlite.Rows.Laws.{sort_rows-desc_latest}
use artifact_registry_servic.Sqlite.Channels.{
  is_channel, upsert, upsert_channel, insert_history, roll_back, transaction, save_channel,
  find_channel, promoted_key, history_rows,
}

-- The tables after a channel pointer is saved.
abbrev pub with_channel : Db → ChannelPointer → Db
with_channel db ch = record db {
  channels = upsert ch db.channels;
  channel_history = db.channel_history ++ ch ∷ [];
}

abbrev pub with_pointer : Db → ChannelPointer → Db
with_pointer db ch = record db { channels = upsert ch db.channels }

Post-roll_back :
    (db : Db) (objects : List (String × Bytes)) (d : Db)
    → d ≡ db
    → (Q : Unit {0} → World → Type 0) (r : Result (Unit {0})) (w : World)
    → Post Q (λ _ w. w.objects ≡ objects) r w
    → Post Q (λ _. At db objects) (roll_back d r w).0 (roll_back d r w).1
Post-roll_back db objects d p Q (ok u) w h = h
Post-roll_back db objects d p Q (err e) w h = record { tables = p; stored = h }

module _ {db : Db} {objects : List (String × Bytes)} where
  upsert_channel-Triple :
      (ch : ChannelPointer)
      → Triple
          (At db objects)
          (upsert_channel ch)
          (λ _. At (with_pointer db ch) objects)
          (λ _ w. w.objects ≡ objects)
  unfolding upsert_channel
  upsert_channel-Triple ch = record {
    at = λ w h. record { tables = rw h.tables refl; stored = h.stored };
  }

  insert_history-Triple :
      (ch : ChannelPointer)
      → Triple
          (At db objects)
          (insert_history ch)
          (λ _. At (record db { channel_history = db.channel_history ++ ch ∷ [] }) objects)
          (λ _ w. w.objects ≡ objects)
  unfolding insert_history
  insert_history-Triple ch = record {
    at = λ w h. record { tables = rw h.tables refl; stored = h.stored };
  }

  external-stored :
      Triple (At db objects) external (λ _. At db objects) (λ _ w. w.objects ≡ objects)
  external-stored = Triple-weaken external Triple-external (λ _ w h. h) (λ _ w h. h.stored)

  transaction-Triple :
      (Q : Unit {0} → World → Type 0) (m : Exec World (Unit {0}))
      → Triple (At db objects) m Q (λ _ w. w.objects ≡ objects)
      → Triple (At db objects) (transaction m) Q (λ _. At db objects)
  transaction-Triple Q m t = record {
    at = λ w h. Post-roll_back db objects w.db h.tables Q (m w).0 (m w).1 (t.at w h);
  }

-- `SaveChannel` is atomic: it sets the pointer of the channel and appends one row to the history,
-- or it fails and changes no table, whichever of its calls fails.
pub save_channel-Triple :
    (ch : ChannelPointer) (db : Db) (objects : List (String × Bytes))
    → Triple
        (At db objects)
        (save_channel ch)
        (λ _. At (with_channel db ch) objects)
        (λ _. At db objects)
unfolding save_channel
save_channel-Triple ch db objects =
    transaction-Triple (λ _. At (with_channel db ch) objects) _
      (Triple-bind external _ external-stored λ _.
        Triple-bind _ _
          (Triple-on_error _ _
            (Triple-bind external _ external-stored (λ _. upsert_channel-Triple ch)))
          λ _.
            Triple-bind _ _
              (Triple-on_error _ _
                (Triple-bind external _ external-stored (λ _. insert_history-Triple ch)))
              (λ _. external-stored))

find-upsert :
    (ch : ChannelPointer) (rows : List ChannelPointer)
    → find (is_channel ch.channel ch.type ch.name) (upsert ch rows) ≡ some ch
unfolding upsert
find-upsert ch [] = simp eq_refl
find-upsert ch (row ∷ rows) = ground (
  arith,
  find-upsert ch rows,
  eq_refl ch.channel,
  eq_iff row.channel ch.channel,
  eq_iff row.type ch.type,
  eq_iff row.name ch.name,
)

-- After `SaveChannel` the current pointer of the channel is the one saved.
pub find-with_channel :
    (db : Db) (ch : ChannelPointer)
    → find_channel (with_channel db ch) ch.channel ch.type ch.name ≡ some ch
unfolding find_channel
find-with_channel db ch = find-upsert ch db.channels

abbrev pub same_channel : ChannelPointer → String → String → String → Bool
same_channel ch channel type name = is_channel channel type name ch

find-upsert_other :
    (ch : ChannelPointer) (channel type name : String) (rows : List ChannelPointer)
    → is_channel channel type name ch ≡ false
    → find (is_channel channel type name) (upsert ch rows)
      ≡ find (is_channel channel type name) rows
unfolding upsert
find-upsert_other ch channel type name [] h = rw h
find-upsert_other ch channel type name (row ∷ rows) h = ground (
  arith,
  find-upsert_other ch channel type name rows,
  eq_iff row.channel ch.channel,
  eq_iff row.type ch.type,
  eq_iff row.name ch.name,
)

-- The pointers of the other channels stay.
pub find-with_channel_other :
    (db : Db) (ch : ChannelPointer) (channel type name : String)
    → is_channel channel type name ch ≡ false
    → find_channel (with_channel db ch) channel type name ≡ find_channel db channel type name
unfolding find_channel
find-with_channel_other db ch channel type name h =
    find-upsert_other ch channel type name db.channels h

-- The promotion is later than those of its channel, as their times are stored.
abbrev pub IsLater : Db → ChannelPointer → Type 0
IsLater db ch =
    All (λ row. text_ltb (promoted_key row) (promoted_key ch) ≡ true)
      (select (is_channel ch.channel ch.type ch.name) db.channel_history)

-- The history of a channel begins with a later promotion, once that is saved.
pub history-with_channel :
    (engine : Engine) (db : Db) (ch : ChannelPointer)
    → IsLater db ch
    → history_rows engine (with_channel db ch) ch.channel ch.type ch.name
      ≡ ch ∷ history_rows engine db ch.channel ch.type ch.name
unfolding history_rows
history-with_channel engine db ch later =
    rw select-append
      (simp eq_refl (sort_rows-desc_latest promoted_key engine.channel_ties _ ch later))
