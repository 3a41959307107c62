-- ===== src/Server/Integrity/Channels.antt =====
-- A new pointer.
use artifact_registry_servic.Base.{
  eq_iff, ◌≡◌, true, Bool-cases, inl, inr, List, [], ◌∷◌, ◌++◌, All, All-append, All-weaken,
  Pairwise, Among, Among-append, Among-append_one, arith,
}
use artifact_registry_servic.Domain.{ChannelPointer}
use artifact_registry_servic.World.{Db}
use artifact_registry_servic.Sqlite.Channels.{is_channel, upsert}
use artifact_registry_servic.Sqlite.Channels.Laws.{with_channel}
use artifact_registry_servic.Server.Integrity.{Refers, IsOtherChannel, IsConsistent}

-- An update of the row of a channel leaves the new pointer there.
updated_row :
    (ch row : ChannelPointer)
    → is_channel ch.channel ch.type ch.name row ≡ true
    → record row {
      version = ch.version;
      artifact_id = ch.artifact_id;
      previous_version = ch.previous_version;
      promoted_at = ch.promoted_at;
      promoted_by = ch.promoted_by;
    }
      ≡ ch
updated_row ch row h =
    ground (arith, eq_iff row.channel ch.channel, eq_iff row.type ch.type, eq_iff row.name ch.name)

module _ (P : ChannelPointer → Type 0) (ch : ChannelPointer) (new : P ch) where
  All-upsert : (rows : List ChannelPointer) → All P rows → All P (upsert ch rows)
  unfolding upsert
  All-upsert [] h = (new, tt)
  All-upsert (row ∷ rows) (p, h) = elim (Bool-cases (is_channel ch.channel ch.type ch.name row)) [
    | inl same ↦ rw same (rw (updated_row ch row same) (new, h))
    | inr other ↦ rw other (p, All-upsert rows h)
  ]

upsert-Pairwise :
    (ch : ChannelPointer) (rows : List ChannelPointer)
    → Pairwise IsOtherChannel rows
    → Pairwise IsOtherChannel (upsert ch rows)
unfolding upsert
upsert-Pairwise ch [] h = (tt, tt)
upsert-Pairwise ch (row ∷ rows) (a, h) =
    elim (Bool-cases (is_channel ch.channel ch.type ch.name row)) [
      | inl same ↦ rw same (a, h)
      | inr other ↦
          rw other (All-upsert (IsOtherChannel row) ch other rows a, upsert-Pairwise ch rows h)
    ]

pub with_channel-IsConsistent :
    (db : Db) (ch : ChannelPointer)
    → IsConsistent db
    → Refers db.artifacts ch
    → IsConsistent (with_channel db ch)
with_channel-IsConsistent db ch c refers = record {
  sound = c.sound;
  apart = c.apart;
  pointed = All-upsert (Refers db.artifacts) ch refers db.channels c.pointed;
  recorded = All-append (Refers db.artifacts) db.channel_history (ch ∷ []) c.recorded (refers, tt);
  current =
      All-upsert (λ row. Among row (db.channel_history ++ ch ∷ [])) ch
        (Among-append_one ch db.channel_history) db.channels
        (All-weaken (λ row. Among row db.channel_history)
          (λ row. Among row (db.channel_history ++ ch ∷ []))
          (λ row h. Among-append row db.channel_history (ch ∷ []) h) db.channels c.current);
  one_pointer = upsert-Pairwise ch db.channels c.one_pointer;
  numbered = c.numbered;
}
