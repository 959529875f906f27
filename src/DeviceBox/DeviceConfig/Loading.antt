-- ===== src/DeviceBox/DeviceConfig/Loading.antt =====
-- DeviceBox/Config.cpp: which sources a device has after `loadConfig`.
use text.Mathlib.TextEquality.{eq_iff}
use ip_cam_box.Prelude.{
  ℕ, ◌≡◌, ◌<◌, ◌+◌, ◌*◌, refl, String, string_eq, true, Option, none, some, List, [], ◌∷◌, arith,
  ◌==◌, if◌then◌else◌, is_some, Option-cases, Bool-cases, inl, inr,
}
use ip_cam_box.Prelude.Assoc.{Assoc, find, emplace, find-emplace}
use ip_cam_box.DeviceBox.DeviceConfig.{
  VideoSource, SourceConfig, DeviceConfig, storage_bytes, source_config, load_source_config,
  load_sources, load_config, find_source,
}

-- The first source of the message with an identifier.
abbrev pub requested : String → List VideoSource → Option VideoSource
requested id [] = none
requested id (source ∷ rest) = if source.id == id then some source else requested id rest

-- What a loaded source may be: what was there before, or else the first of the message with this
-- identifier, in some directory.
abbrev pub IsLoaded :
    String → Option SourceConfig → Option VideoSource → Option SourceConfig → Type 0
IsLoaded id (some before) request after = after ≡ some before
IsLoaded id none none after = after ≡ none
IsLoaded id none (some request) after = (tmp : String) × (after ≡ some (source_config tmp request))

IsLoaded-by :
    (id : String) {request : Option VideoSource} {after : Option SourceConfig}
    (request' : Option VideoSource) (after' : Option SourceConfig)
    → request ≡ request'
    → after ≡ after'
    → IsLoaded id none request' after'
    → IsLoaded id none request after
IsLoaded-by id request' after' p q h = rw (p, q) h

module _ (dir_make_tmp : ℕ → Option String)
    (made : (call : ℕ) → is_some (dir_make_tmp call) ≡ true) where
  load_sources-keeps :
      (id : String) (before : SourceConfig) (call : ℕ) (sources : List VideoSource)
      (m : Assoc String SourceConfig)
      → find id m ≡ some before
      → find id (load_sources dir_make_tmp call sources m) ≡ some before
  unfolding load_sources
  load_sources-keeps id before call [] m known = known
  load_sources-keeps id before call (source ∷ rest) m known =
      elim (Option-cases (find source.id m)) [
        | inr (old, present) ↦
            ground (arith, present, load_sources-keeps id before call rest m known)
        | inl new ↦ elim (Option-cases (load_source_config dir_make_tmp call source)) [
          | inl failed ↦
              ground (arith, new, failed, load_sources-keeps id before (call + 1) rest m known)
          | inr (c, loaded) ↦ ground (
            arith,
            new,
            loaded,
            load_sources-keeps id before (call + 1) rest (emplace source.id c m)
                (ground (arith, find-emplace source.id id c m, eq_iff source.id id, known, new)),
          )
        ]
      ]

  load_sources-adds :
      (id : String) (call : ℕ) (sources : List VideoSource) (m : Assoc String SourceConfig)
      → find id m ≡ none
      → IsLoaded id none (requested id sources) (find id (load_sources dir_make_tmp call sources m))
  unfolding load_sources load_source_config
  load_sources-adds id call [] m absent = absent
  load_sources-adds id call (source ∷ rest) m absent = elim (Bool-cases (source.id == id)) [
    | inl same ↦ elim (Option-cases (dir_make_tmp call)) [
      | inl failed ↦ absurd (ground (arith, failed, made call))
      | inr (tmp, dir) ↦
          let c = source_config tmp source in
          IsLoaded-by id (some source) (some c) (ground (arith, same))
            (ground (
              arith,
              same,
              eq_iff source.id id,
              absent,
              dir,
              load_sources-keeps id c (call + 1) rest (emplace source.id c m) (
                  ground (arith, find-emplace source.id id c m, same, eq_iff source.id id, absent)),
            ))
            (tmp, refl)
    ]
    | inr other ↦ elim (Option-cases (find source.id m)) [
      | inr (old, present) ↦
          IsLoaded-by id (requested id rest) (find id (load_sources dir_make_tmp call rest m))
            (ground (arith, other)) (ground (arith, present))
            (load_sources-adds id call rest m absent)
      | inl new ↦ elim (Option-cases (dir_make_tmp call)) [
        | inl failed ↦ absurd (ground (arith, failed, made call))
        | inr (tmp, dir) ↦
            let m' = emplace source.id (source_config tmp source) m in
            IsLoaded-by id (requested id rest)
              (find id (load_sources dir_make_tmp (call + 1) rest m')) (ground (arith, other))
              (ground (arith, new, dir))
              (load_sources-adds id (call + 1) rest m' (
                ground
                  (arith, find-emplace source.id id (source_config tmp source) m, other, absent)))
      ]
    ]
  ]

  -- Where every directory can be made, a source that the device has stays as it is, and another is
  -- there exactly if the message has it, as the first entry of its identifier says.
  pub load_config-IsLoaded :
      (id : String) (sources : List VideoSource) (dropbox : Option String) (config : DeviceConfig)
      → IsLoaded id
          (find_source id config)
          (requested id sources)
          (find_source id (load_config dir_make_tmp sources dropbox config))
  unfolding load_config find_source
  load_config-IsLoaded id sources dropbox config = elim (Option-cases (find id config.sources)) [
    | inr (before, known) ↦ rw known (load_sources-keeps id before 0 sources config.sources known)
    | inl absent ↦ rw absent (load_sources-adds id 0 sources config.sources absent)
  ]

-- A limit of less than 4096 megabytes is the number of its bytes; of a larger one the multiples of
-- 4096 megabytes are lost, so that such a multiple becomes no storage at all.
pub storage_bytes_lem :
    (megabytes k : ℕ)
    → megabytes < 4096
    → storage_bytes (4096 * k + megabytes) ≡ 1048576 * megabytes
unfolding storage_bytes
storage_bytes_lem megabytes k small = omega (arith, small)
