-- ===== src/Sqlite/Channels/Calls.antt =====
-- What the reads of the channel tables return, and what all calls do where the database answers.
use artifact_registry_servic.Base.{Option, none, sym, ap, ◌∙◌, String, ◌≡◌, refl, List, some}
use artifact_registry_servic.Domain.{ChannelPointer}
use artifact_registry_servic.Domain.Errors.{Error}
use artifact_registry_servic.Exec.{ok, err}
use artifact_registry_servic.Exec.Triple.{
  Triple-fact, Triple-return, Post, Triple, Triple-on_error, Triple-bind,
}
use artifact_registry_servic.World.{Db, World, Engine, Bytes}
use artifact_registry_servic.World.Laws.{
  answer, external_lem, At, Triple-external, external-calm, IsCalm,
}
use artifact_registry_servic.Sqlite.Channels.{
  save_channel, find_channel, history_rows, read_channel, get_channel, row_or_missing,
  list_channel_history, read_history,
}
use artifact_registry_servic.Sqlite.Channels.Laws.{with_channel, with_pointer}

module _ (channel type name : String) (db : Db) (objects : List (String × Bytes)) where
  read_channel-Triple :
      Triple
        (At db objects)
        (read_channel channel type name)
        (λ ch w. At db objects w × (find_channel db channel type name ≡ some ch))
        (λ _. At db objects)
  unfolding read_channel
  read_channel-Triple = record { at = λ w h. found w h (find_channel w.db channel type name) refl }
    where
      found :
          (w : World)
          → At db objects w
          → (o : Option ChannelPointer) → find_channel w.db channel type name ≡ o
          → Post
              (λ ch w'. At db objects w' × (find_channel db channel type name ≡ some ch))
              (λ _. At db objects)
              (row_or_missing o)
              w
      found w h none e = h
      found w h (some ch) e = (h, ap (λ d. find_channel d channel type name) (sym h.tables) ∙ e)

  -- `GetChannel` changes nothing, and what it returns is the pointer of the channel.
  pub get_channel-Triple :
      Triple
        (At db objects)
        (get_channel channel type name)
        (λ ch w. At db objects w × (find_channel db channel type name ≡ some ch))
        (λ _. At db objects)
  unfolding get_channel
  get_channel-Triple =
      Triple-bind _ _ (Triple-on_error _ _ Triple-external) (λ _. read_channel-Triple)

  -- `ListChannelHistory` changes nothing, and what it returns are the rows of the channel.
  pub list_channel_history-Triple :
      (engine : Engine)
      → Triple
          (At db objects)
          (list_channel_history engine channel type name)
          (λ rows w. At db objects w × (history_rows engine db channel type name ≡ rows))
          (λ _. At db objects)
  unfolding list_channel_history read_history
  list_channel_history-Triple engine =
      let rows_of : Db → List ChannelPointer = λ d. history_rows engine d channel type name in
      Triple-bind _ _ (Triple-on_error _ _ Triple-external) λ _.
        Triple-bind {Q = λ rows w. At db objects w × (rows_of db ≡ rows)}
          (read_history engine channel type name) _
          (record { at = λ w h. (h, ap rows_of (sym h.tables)) })
          λ rows.
            Triple-fact _
              λ same. Triple-bind _ _ Triple-external (λ _. Triple-return rows (λ w h. (h, same)))

-- `GetChannel` by the outcome of its call.
module _ (channel type name : String) (w : World) where
  pub get_channel_answered :
      answer w.faults ≡ ok tt
      → (get_channel channel type name w).0 ≡ row_or_missing (find_channel w.db channel type name)
  unfolding get_channel read_channel
  get_channel_answered e = rw (external_lem w) (rw e refl)

  pub get_channel_failed :
      (x : Error)
      → answer w.faults ≡ err x
      → (y : Error) × ((get_channel channel type name w).0 ≡ err y)
  unfolding get_channel
  get_channel_failed x e = rw (external_lem w) (rw e (_, refl))

-- What the calls do where the database answers.
module _ (w : World) (calm : IsCalm w) where
  pub get_channel_calm :
      (channel type name : String)
      → get_channel channel type name w ≡ (row_or_missing (find_channel w.db channel type name), w)
  unfolding get_channel read_channel
  get_channel_calm channel type name = rw (external-calm w calm)

  pub list_channel_history_calm :
      (engine : Engine) (channel type name : String)
      → list_channel_history engine channel type name w
        ≡ (ok (history_rows engine w.db channel type name), w)
  unfolding list_channel_history read_history
  list_channel_history_calm engine channel type name = simp (external-calm w calm)

  pub save_channel_calm :
      (ch : ChannelPointer) → save_channel ch w ≡ (ok tt, record w { db = with_channel w.db ch })
  unfolding save_channel
  save_channel_calm ch =
      simp
        (
          external-calm w calm,
          external-calm (record w { db = with_pointer w.db ch }) calm,
          external-calm (record w { db = with_channel w.db ch }) calm,
        )
        refl
