-- ===== src/Server/RestreamServer/Recorders.antt =====
-- Server/RestreamServer/Server.cpp: the paths in use when a recorder comes or goes.
use text.Mathlib.TextEquality.{eq_iff}
use ip_cam_box.Prelude.{
  ℕ, ◌≡◌, String, string_eq, Bool, true, false, not, ◌&&◌, ◌||◌, none, some, List, ok, arith, ◌==◌,
  Option-cases, Bool-cases, inl, inr,
}
use ip_cam_box.Prelude.Assoc.{find, emplace, erase, modify, find-emplace, find-erase, find-modify}
use ip_cam_box.Server.Config.{UserName, Source, Config, IsConsistent}
use ip_cam_box.Server.RestreamServer.{
  PathInfo, Paths, extract_source_id, recorder_connected, recorder_disconnected,
}
use ip_cam_box.Server.RestreamServer.Players.{Describes, write-Describes}

module _ (strsplit : String → String → ℕ → List String) where
  module _ (ndebug : Bool) (players recorders : String → Bool) (paths : Paths)
      (h : Describes strsplit players recorders paths) where
    -- The recorder of a path that the configuration lets the device record, and that has no recorder:
    -- the path is in the set of the recorded ones.
    pub recorder_connected-Describes :
        (config : Config) (user : UserName) (path : String) (source : Source)
        → IsConsistent config
        → config.find_device_source user (extract_source_id strsplit path) ≡ some source
        → recorders path ≡ false
        → (paths' : Paths) × (recorder_connected strsplit config ndebug user path paths ≡ ok paths')
          × Describes strsplit players (λ q. (path == q) || recorders q) paths'
    unfolding recorder_connected
    recorder_connected-Describes config user path source laws allowed free =
        let named = laws.source_id_found user (extract_source_id strsplit path) source allowed in
        elim (Option-cases (find path paths)) [
          | inl new ↦
              let info : PathInfo = record {
                device_id = user;
                source_id = source.id;
                has_players = false;
                has_recorder = true;
              } in
              (
                emplace path info paths,
                ground (arith, allowed, new),
                write-Describes strsplit path (some info) players recorders _ _ paths _
                    (λ q. ground (arith, find-emplace path q info paths, eq_iff path q, new))
                    (λ q. ground (arith, eq_iff path q, h.played path, new)) (λ q. ground arith)
                    (λ i e. ground (arith, e)) (λ i e. ground (arith, e, named)) h,
              )
          | inr (info, old) ↦
              let f = λ (i : PathInfo). record i { has_recorder = true } in
              (
                modify path f paths,
                ground (arith, allowed, old, h.recorded path, free),
                write-Describes strsplit path (some (f info)) players recorders _ _ paths _
                    (λ q. ground (arith, find-modify path q f paths, eq_iff path q, old))
                    (λ q. ground (arith, eq_iff path q, h.played path, old)) (λ q. ground arith)
                    (λ i e. ground (arith, e)) (λ i e. ground (arith, e, h.named path info old)) h,
              )
        ]

    -- The recorder of a path that is recorded goes: the path leaves the set of the recorded ones, and
    -- its entry goes with it unless it is played.
    pub recorder_disconnected-Describes :
        (path : String)
        → recorders path ≡ true
        → (paths' : Paths) × (recorder_disconnected strsplit ndebug path paths ≡ ok paths')
          × Describes strsplit players (λ q. not (path == q) && recorders q) paths'
    unfolding recorder_disconnected
    recorder_disconnected-Describes path recording = elim (Option-cases (find path paths)) [
      | inl unknown ↦ absurd (ground (arith, unknown, h.recorded path, recording))
      | inr (info, known) ↦
          let f = λ (i : PathInfo). record i { has_recorder = false } in
          let named = h.named path info known in
          let has : info.has_recorder ≡ true = ground (arith, known, h.recorded path, recording) in
          elim (Bool-cases info.has_players) [
            | inl kept ↦ (
              modify path f paths,
              ground (
                arith,
                known,
                named,
                has,
                kept,
                eq_iff info.source_id (extract_source_id strsplit path),
              ),
              write-Describes strsplit path (some (f info)) players recorders _ _ paths _
                  (λ q. ground (arith, find-modify path q f paths, eq_iff path q, known))
                  (λ q. ground (arith, eq_iff path q, h.played path, known)) (λ q. ground arith)
                  (λ i e. ground (arith, e, kept)) (λ i e. ground (arith, e, named)) h,
            )
            | inr gone ↦ (
              erase path (modify path f paths),
              ground (
                arith,
                known,
                named,
                has,
                gone,
                eq_iff info.source_id (extract_source_id strsplit path),
              ),
              write-Describes strsplit path none players recorders _ _ paths _
                  (λ q.
                    ground
                      (arith, find-erase path q (modify path f paths), find-modify path q f paths))
                  (λ q. ground (arith, eq_iff path q, h.played path, known, gone))
                  (λ q. ground arith) (λ i e. ground (arith, e)) (λ i e. ground (arith, e)) h,
            )
          ]
    ]
