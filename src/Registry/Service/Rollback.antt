-- ===== src/Registry/Service/Rollback.antt =====
-- `Rollback`: which version it restores.
use artifact_registry_servic.Base.{
  ℕ, String, ◌≡◌, refl, ap, ◌∙◌, ◌⊎◌, inl, inr, List, [], ◌∷◌, some, Option, true, text_ltb, select,
}
use artifact_registry_servic.Domain.{Artifact, ChannelPointer}
use artifact_registry_servic.Domain.Errors.{sentinel, no_channel_history}
use artifact_registry_servic.Exec.{ok, err}
use artifact_registry_servic.World.{World, Db, Engine}
use artifact_registry_servic.World.Laws.{IsCalm}
use artifact_registry_servic.Sqlite.Artifacts.{find_artifact}
use artifact_registry_servic.Sqlite.Channels.{
  is_channel, find_channel, row_or_missing, history_rows, promoted_key,
}
use artifact_registry_servic.Sqlite.Channels.Laws.{
  with_channel, find-with_channel, history-with_channel, IsLater,
}
use artifact_registry_servic.Sqlite.Channels.Calls.{
  list_channel_history-Triple, list_channel_history_calm,
}
use artifact_registry_servic.Sqlite.Rows.Laws.{two_rows}
use artifact_registry_servic.Registry.Version.{normalize_version}
use artifact_registry_servic.Registry.Service.{rollback_to, previous, pointer_of, rollback}
use artifact_registry_servic.Exec.Triple.{
  Triple, Triple-bind, Triple-weaken, Triple-fail, Triple-fact,
}
use artifact_registry_servic.World.Laws.{At}
use artifact_registry_servic.World.{Bytes}
use artifact_registry_servic.Registry.Service.Promote.{IsPromoted, promote-IsPromoted, promote_calm}

find_artifact-with_channel :
    (db : Db) (ch : ChannelPointer) (type name version : String)
    → find_artifact (with_channel db ch) type name version ≡ find_artifact db type name version
unfolding find_artifact
find_artifact-with_channel db ch type name version = refl

module _ (engine : Engine) (channel type name : String) where
  -- The pointer that a rollback to `prev` saves.
  abbrev pub restored : ℕ → String → ChannelPointer → Artifact → Db → ChannelPointer
  restored now by prev a db =
      pointer_of now channel type name prev.version by a
        (row_or_missing (find_channel db channel type name))

  -- The pointer `ch` at the version of the second row of the history.
  abbrev pub IsRolledBack :
      ℕ → String → Db → List (String × Bytes) → ChannelPointer → World → Type 0
  IsRolledBack now by db objects ch w =
      (curr : ChannelPointer) × (prev : ChannelPointer) × (rest : List ChannelPointer)
      × (history_rows engine db channel type name ≡ curr ∷ prev ∷ rest)
      × (a : Artifact) × IsPromoted now channel type name prev.version by db objects ch a w

  -- Whatever calls fail, `Rollback` either promotes the version of the second row of the channel's
  -- history, newest first, with all that a promotion guarantees; or it fails and changes nothing.
  pub rollback-Triple :
      (now : ℕ) (by : String) (db : Db) (objects : List (String × Bytes))
      → Triple
          (At db objects)
          (rollback engine now channel type name by)
          (IsRolledBack now by db objects)
          (λ _. At db objects)
  unfolding rollback rollback_to
  rollback-Triple now by db objects =
      Triple-bind _ _ (list_channel_history-Triple channel type name db objects engine)
        λ rows. Triple-fact _ (promoted rows)
    where
      promoted :
          (rows : List ChannelPointer)
          → history_rows engine db channel type name ≡ rows
          → Triple
              (At db objects)
              (rollback_to now channel type name by rows)
              (IsRolledBack now by db objects)
              (λ _. At db objects)
      promoted [] e = Triple-fail _ (λ w h. h)
      promoted (curr ∷ []) e = Triple-fail _ (λ w h. h)
      promoted (curr ∷ prev ∷ rest) e =
          Triple-weaken _ (promote-IsPromoted now channel type name prev.version by db objects)
            (λ ch w h. (curr, prev, rest, e, h.0, h.1)) (λ _ w h. h)

  -- Where the database answers, a rollback restores the version of the second row of the history,
  -- newest first.
  pub rollback_calm :
      (now : ℕ) (by : String) (curr prev : ChannelPointer) (rest : List ChannelPointer)
      (a : Artifact) (w : World)
      → IsCalm w
      → history_rows engine w.db channel type name ≡ curr ∷ prev ∷ rest
      → normalize_version prev.version ≡ ok prev.version
      → find_artifact w.db type name prev.version ≡ some a
      → let ch = restored now by prev a w.db in
        rollback engine now channel type name by w ≡ (ok ch, record w { db = with_channel w.db ch })
  unfolding rollback
  rollback_calm now by curr prev rest a w calm rows normal exists =
      rw (list_channel_history_calm w calm engine channel type name) (
        rw rows
          (promote_calm now channel type name prev.version by prev.version a w calm normal exists))

  -- With at most one promotion there is nothing to roll back to, and nothing changes.
  pub rollback_short :
      (now : ℕ) (by : String) (w : World)
      → IsCalm w
      → (history_rows engine w.db channel type name ≡ [])
        ⊎ ((curr : ChannelPointer) × (history_rows engine w.db channel type name ≡ curr ∷ []))
      → rollback engine now channel type name by w ≡ (err (sentinel no_channel_history), w)
  unfolding rollback
  rollback_short now by w calm (inl none_there) =
      rw (list_channel_history_calm w calm engine channel type name) (rw none_there refl)
  rollback_short now by w calm (inr (curr, one)) =
      rw (list_channel_history_calm w calm engine channel type name) (rw one refl)

  -- Where the database answers, and the current pointer of a channel is the first row of its history
  -- as it is listed, with a second row behind it, and both rows have normal versions whose artifacts
  -- are stored: two rollbacks in a row, of which the first is later than the promotions before it as
  -- times are stored, bring back the version that the channel had. The first goes from it to the
  -- version of the second row, the second goes back: there is one level of rollback, and it swaps.
  pub rollback_twice :
      (t1 t2 : ℕ) (by : String) (curr prev : ChannelPointer) (rest : List ChannelPointer)
      (a b : Artifact) (w : World)
      → IsCalm w
      → find_channel w.db channel type name ≡ some curr
      → history_rows engine w.db channel type name ≡ curr ∷ prev ∷ rest
      → normalize_version prev.version ≡ ok prev.version
      → normalize_version curr.version ≡ ok curr.version
      → find_artifact w.db type name prev.version ≡ some a
      → find_artifact w.db type name curr.version ≡ some b
      → IsLater w.db (restored t1 by prev a w.db)
      → let w1 = (rollback engine t1 channel type name by w).1 in
        let w2 = (rollback engine t2 channel type name by w1).1 in
        (ch1 : ChannelPointer) × (find_channel w1.db channel type name ≡ some ch1)
        × (ch1.version ≡ prev.version)
        × (ch1.previous_version ≡ curr.version)
        × (ch2 : ChannelPointer) × (find_channel w2.db channel type name ≡ some ch2)
        × (ch2.version ≡ curr.version)
        × (ch2.previous_version ≡ prev.version)
  rollback_twice t1 t2 by curr prev rest a b w calm current rows np nc fa fb later =
      let ch1 = restored t1 by prev a w.db in
      let w1 = record w { db = with_channel w.db ch1 } in
      let ch2 = restored t2 by curr b w1.db in
      let first = rollback_calm t1 by curr prev rest a w calm rows np fa in
      let rows1 : history_rows engine w1.db channel type name ≡ ch1 ∷ curr ∷ prev ∷ rest =
        history-with_channel engine w.db ch1 later ∙ ap (λ l. ch1 ∷ l) rows in
      let second =
        rollback_calm t2 by ch1 curr (prev ∷ rest) b w1 calm rows1 nc
          (find_artifact-with_channel w.db ch1 type name curr.version ∙ fb) in
      let left = λ (o : Option ChannelPointer). previous (row_or_missing o) in
      rw first (
        rw second (
          ch1,
          find-with_channel w.db ch1,
          refl,
          ap left current,
          ch2,
          find-with_channel w1.db ch2,
          refl,
          ap left (find-with_channel w.db ch1),
        ))

  -- Where the database answers, and the history of a channel is exactly two rows, of which the one
  -- inserted last is the current pointer, with a normal version whose artifact is stored: if the text
  -- of its time sorts before the text of the other row's time, so that it is listed second, a
  -- rollback restores the current version, and records it as the one left behind. It rolls nothing
  -- back.
  pub rollback_misordered :
      (now : ℕ) (by : String) (older newer : ChannelPointer) (a : Artifact) (w : World)
      → IsCalm w
      → select (is_channel channel type name) w.db.channel_history ≡ older ∷ newer ∷ []
      → find_channel w.db channel type name ≡ some newer
      → text_ltb (promoted_key newer) (promoted_key older) ≡ true
      → normalize_version newer.version ≡ ok newer.version
      → find_artifact w.db type name newer.version ≡ some a
      → let w' = (rollback engine now channel type name by w).1 in
        (ch : ChannelPointer) × (find_channel w'.db channel type name ≡ some ch)
        × (ch.version ≡ newer.version)
        × (ch.previous_version ≡ newer.version)
  rollback_misordered now by older newer a w calm rows current earlier normal exists =
      let listed : history_rows engine w.db channel type name ≡ older ∷ newer ∷ [] =
        unfold history_rows in
        rw rows (two_rows promoted_key engine.channel_ties older newer earlier) in
      let ch = restored now by newer a w.db in
      rw (rollback_calm now by older newer [] a w calm listed normal exists)
        (ch, find-with_channel w.db ch, refl, ap (λ o. previous (row_or_missing o)) current)
