-- ===== src/Server/ControlServer/Sessions.antt =====
-- Server/ControlServer/Sessions.h and .cpp: what is known of a device between its connections.
use ip_cam_box.Prelude.{
  ℕ, String, string_eq, Bool, false, not, Option, none, some, [], ◌∷◌, Outcome, ok, ◌>>◌, check,
  is_some,
}
use ip_cam_box.Prelude.Assoc.{Assoc, find, emplace, erase}
use ip_cam_box.Server.Config.{DeviceId, SourceId}

abbrev pub StreamDst : Type 0
StreamDst = String

-- A `ServerSession*` is the number of a session.
pub record SessionContext : Type 0 where
  pub active_session : Option ℕ
  pub active_sources : Assoc SourceId StreamDst

abbrev pub Contexts : Type 0
Contexts = Assoc DeviceId SessionContext

abbrev pub new_context : SessionContext
new_context = record { active_session = none; active_sources = [] }

module _ (ndebug : Bool) where
  unfoldable pub authenticated : ℕ → SessionContext → Outcome SessionContext
  authenticated session context = do
    check ndebug (not (is_some context.active_session))
    ok (record context { active_session = some session })

  unfoldable pub destroyed : SessionContext → Outcome SessionContext
  destroyed context = do
    check ndebug (is_some context.active_session)
    ok (record context { active_session = none })

  unfoldable pub stream_requested : SourceId → StreamDst → SessionContext → Outcome SessionContext
  stream_requested source dst context = elim (find source context.active_sources) [
    | none ↦ ok (record context { active_sources = emplace source dst context.active_sources })
    | some active ↦ do check ndebug false; ok context
  ]

unfoldable pub stop_stream_requested : SourceId → SessionContext → SessionContext
stop_stream_requested source context = record context {
  active_sources = erase source context.active_sources;
}

unfoldable pub should_stream : SourceId → SessionContext → Option StreamDst
should_stream source context = find source context.active_sources

-- `enumActiveStreams` with a callback that keeps asking for more.
unfoldable pub enum_active_streams {ℓ} :
    {S : Type ℓ} → (SourceId → StreamDst → S → S) → Assoc SourceId StreamDst → S → S
enum_active_streams callback [] s = s
enum_active_streams callback ((source, dst) ∷ rest) s =
    enum_active_streams callback rest (callback source dst s)

-- `Sessions::get`: `operator[]` makes a context on demand.
unfoldable pub get : DeviceId → Contexts → Contexts
get device contexts = emplace device new_context contexts
