-- ===== src/Server/Catalog/Latest.antt =====
-- The current pointer of a channel and the end of its history.
use artifact_registry_servic.Base.{
  String, ◌≡◌, refl, Bool-cases, inl, inr, List, [], ◌∷◌, ◌++◌, Option, none, some, select,
}
use artifact_registry_servic.Domain.{ChannelPointer}
use artifact_registry_servic.Auth.{Store}
use artifact_registry_servic.Storage.{IsBackend}
use artifact_registry_servic.Sqlite.Channels.{is_channel, find_channel}
use artifact_registry_servic.Webhooks.Dispatcher.{sqlite_store}
use artifact_registry_servic.Api.Handlers.{Handler}
use artifact_registry_servic.Server.System.{System, Reach, starts, then_step}
use artifact_registry_servic.Server.System.Invariant.{Reach-IsRunning}
use artifact_registry_servic.Server.Catalog.{
  Catalog, view, is_of, point_at, Change, rests, publishes, points, queues, settles,
}
use artifact_registry_servic.Server.Catalog.Steps.{Step-Change}

abbrev pub newest : List ChannelPointer → Option ChannelPointer
newest [] = none
newest (ch ∷ []) = some ch
newest (ch ∷ next ∷ rows) = newest (next ∷ rows)

newest-append :
    (rows : List ChannelPointer) (ch : ChannelPointer) → newest (rows ++ ch ∷ []) ≡ some ch
newest-append [] ch = refl
newest-append (row ∷ []) ch = refl
newest-append (row ∷ next ∷ rows) ch = newest-append (next ∷ rows) ch

abbrev IsLatest : Catalog → Type 0
IsLatest r =
    (channel type name : String)
    → r.current channel type name ≡ newest (r.history channel type name)

point_at-IsLatest : (r : Catalog) (ch : ChannelPointer) → IsLatest r → IsLatest (point_at ch r)
point_at-IsLatest r ch h channel type name = elim (Bool-cases (is_of channel type name ch)) [
  | inl here ↦ rw here (rw (newest-append (r.history channel type name) ch) refl)
  | inr other ↦ rw other (h channel type name)
]

Change-IsLatest : {r r' : Catalog} → Change r r' → IsLatest r → IsLatest r'
Change-IsLatest rests h = h
Change-IsLatest {r} (publishes a r' new e) h = rw e h
Change-IsLatest {r} (points ch r' there e) h = rw e (point_at-IsLatest r ch h)
Change-IsLatest {r} (queues d r' next e) h = rw e h
Change-IsLatest {r} (settles id now status attempts last_error r' e) h = rw e h

module _ (h : Handler) (store : Store) (name : String → String) (bk : IsBackend h.stor name)
    (is : h.wh.store ≡ some (sqlite_store h.engine)) where
  Reach-IsLatest : {s : System} → Reach h store s → IsLatest (view s.world.db)
  unfolding find_channel
  Reach-IsLatest (starts w) = λ channel type app. refl
  Reach-IsLatest (then_step r step) =
      Change-IsLatest (Step-Change h store name bk is step (Reach-IsRunning h store name bk is r))
        (Reach-IsLatest r)

  -- With a backend that keeps its laws and deliveries in the database: in every state that the
  -- service reaches from an empty database, the current pointer of a channel is the newest of its
  -- history, in the order of insertion, and a channel without history has no pointer.
  pub Reach-newest :
      {s : System}
      → Reach h store s
      → (channel type app : String)
      → find_channel s.world.db channel type app
        ≡ newest (select (is_channel channel type app) s.world.db.channel_history)
  Reach-newest r = Reach-IsLatest r
