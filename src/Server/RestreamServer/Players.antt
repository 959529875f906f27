-- ===== src/Server/RestreamServer/Players.antt =====
-- Server/RestreamServer/Server.cpp: the paths in use, against the sets of the paths that are played and
-- that are recorded.
use text.Mathlib.TextEquality.{eq_iff}
use ip_cam_box.Prelude.{
  ℕ, ◌≡◌, refl, String, string_eq, Bool, true, false, not, ◌&&◌, ◌||◌, Option, none, some, List, [],
  ◌∷◌, ok, arith, ◌==◌, if◌then◌else◌, Option-cases, Bool-cases, inl, inr,
}
use ip_cam_box.Prelude.Assoc.{find, emplace, erase, modify, find-emplace, find-erase, find-modify}
use ip_cam_box.Server.Config.{UserName, PlaySource, Config, IsConsistent}
use ip_cam_box.Server.RestreamServer.{
  PathInfo, Paths, first_reader_connected, last_reader_disconnected, extract_source_id,
  first_player_connected, last_player_disconnected,
}

abbrev pub plays : Option PathInfo → Bool
plays none = false
plays (some info) = info.has_players

abbrev pub records : Option PathInfo → Bool
records none = false
records (some info) = info.has_recorder

module _ (strsplit : String → String → ℕ → List String) where
  -- The entries are those of the paths that are played or recorded, each with the source of its path.
  pub record Describes (players recorders : String → Bool) (paths : Paths) : Type 0 where
    pub played : (q : String) → plays (find q paths) ≡ players q
    pub recorded : (q : String) → records (find q paths) ≡ recorders q
    pub used :
        (q : String) (info : PathInfo)
        → find q paths ≡ some info
        → (info.has_players || info.has_recorder) ≡ true
    pub named :
        (q : String) (info : PathInfo)
        → find q paths ≡ some info
        → info.source_id ≡ extract_source_id strsplit q

  -- Nothing is in use.
  pub empty-Describes : Describes (λ q. false) (λ q. false) []
  unfolding find
  empty-Describes = record {
    played = λ q. refl;
    recorded = λ q. refl;
    used = λ q info p. ground (arith, p);
    named = λ q info p. ground (arith, p);
  }

  -- One path gets an entry that is in use and has the source of the path, or none.
  pub write-Describes :
      (path : String) (v : Option PathInfo) (players recorders players' recorders' : String → Bool)
      (paths paths' : Paths)
      → ((q : String) → find q paths' ≡ (if path == q then v else find q paths))
      → ((q : String) → players' q ≡ (if path == q then plays v else players q))
      → ((q : String) → recorders' q ≡ (if path == q then records v else recorders q))
      → ((info : PathInfo) → v ≡ some info → (info.has_players || info.has_recorder) ≡ true)
      → ((info : PathInfo) → v ≡ some info → info.source_id ≡ extract_source_id strsplit path)
      → Describes players recorders paths
      → Describes players' recorders' paths'
  write-Describes path v players recorders players' recorders' paths paths' same p r used named h =
      record {
        played = λ q. ground (arith, same q, p q, h.played q);
        recorded = λ q. ground (arith, same q, r q, h.recorded q);
        used = λ q info e. ground (arith, same q, used info, h.used q info, e);
        named = λ q info e. ground (arith, same q, eq_iff path q, named info, h.named q info, e);
      }

  module _ (ndebug : Bool) (players recorders : String → Bool) (paths : Paths)
      (h : Describes players recorders paths) where
    -- The first player of a path that the configuration lets the user play: the path is in the set of
    -- the played ones, and the callback gets the device and the source of the right to play.
    pub first_player_connected-Describes :
        (config : Config) (user : UserName) (path : String) (play : PlaySource)
        → IsConsistent config
        → config.find_user_source user (extract_source_id strsplit path) ≡ some play
        → (paths' : Paths) × (first_player_connected strsplit config ndebug user path paths
            ≡ ok (paths', first_reader_connected play.device_id play.source_id ∷ []))
          × Describes (λ q. (path == q) || players q) recorders paths'
    unfolding first_player_connected
    first_player_connected-Describes config user path play laws allowed =
        let source = laws.user_source_found user (extract_source_id strsplit path) play allowed in
        elim (Option-cases (find path paths)) [
          | inl new ↦
              let info : PathInfo = record {
                device_id = play.device_id;
                source_id = play.source_id;
                has_players = true;
                has_recorder = false;
              } in
              (
                emplace path info paths,
                ground (
                  arith,
                  allowed,
                  new,
                  source,
                  eq_iff (extract_source_id strsplit path) play.source_id,
                ),
                write-Describes path (some info) players recorders _ _ paths _
                    (λ q. ground (arith, find-emplace path q info paths, eq_iff path q, new))
                    (λ q. ground arith) (λ q. ground (arith, eq_iff path q, h.recorded path, new))
                    (λ i e. ground (arith, e)) (λ i e. ground (arith, e, source)) h,
              )
          | inr (info, old) ↦
              let f = λ (i : PathInfo). record i { has_players = true } in
              (
                modify path f paths,
                ground (arith, allowed, old),
                write-Describes path (some (f info)) players recorders _ _ paths _
                    (λ q. ground (arith, find-modify path q f paths, eq_iff path q, old))
                    (λ q. ground arith) (λ q. ground (arith, eq_iff path q, h.recorded path, old))
                    (λ i e. ground (arith, e)) (λ i e. ground (arith, e, h.named path info old)) h,
              )
        ]

    -- The last player of a path that is played goes: the path leaves the set of the played ones, and its
    -- entry goes with it unless it is recorded; the callback gets the device of the entry and the source
    -- of the path.
    pub last_player_disconnected-Describes :
        (path : String) (info : PathInfo)
        → find path paths ≡ some info
        → info.has_players ≡ true
        → (paths' : Paths) × (last_player_disconnected strsplit ndebug path paths
            ≡ ok (
              paths',
              last_reader_disconnected info.device_id (extract_source_id strsplit path) ∷ [],
            ))
          × Describes (λ q. not (path == q) && players q) recorders paths'
    unfolding last_player_disconnected
    last_player_disconnected-Describes path info known has =
        let f = λ (i : PathInfo). record i { has_players = false } in
        let named = h.named path info known in
        elim (Bool-cases info.has_recorder) [
          | inl kept ↦ (
            modify path f paths,
            ground (
              arith,
              known,
              named,
              has,
              kept,
              eq_iff info.source_id (extract_source_id strsplit path),
            ),
            write-Describes path (some (f info)) players recorders _ _ paths _
                (λ q. ground (arith, find-modify path q f paths, eq_iff path q, known))
                (λ q. ground arith) (λ q. ground (arith, eq_iff path q, h.recorded path, known))
                (λ i e. ground (arith, e, kept)) (λ i e. ground (arith, e, named)) h,
          )
          | inr gone ↦ (
            erase path (modify path f paths),
            ground (
              arith,
              known,
              named,
              has,
              gone,
              eq_iff info.source_id (extract_source_id strsplit path),
            ),
            write-Describes path none players recorders _ _ paths _
                (λ q.
                  ground
                    (arith, find-erase path q (modify path f paths), find-modify path q f paths))
                (λ q. ground arith)
                (λ q. ground (arith, eq_iff path q, h.recorded path, known, gone))
                (λ i e. ground (arith, e)) (λ i e. ground (arith, e)) h,
          )
        ]
