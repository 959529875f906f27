-- ===== src/Server/FileConfig/Lookup.antt =====
-- The lookups of a loaded configuration keep what the interface promises.
use mathlib.Core.List.{append_assoc, append-nil}
use text.Mathlib.TextEquality.{eq_iff}
use ip_cam_box.Prelude.{
  ◌≡◌, refl, sym, ◌∙◌, String, string_eq, true, Option, some, List, [], ◌∷◌, ◌++◌, map, arith,
  Option-cases, inl, inr,
}
use ip_cam_box.Prelude.Assoc.{Assoc, find, Holds, IsMap}
use ip_cam_box.Server.Config.{
  DeviceId, SourceId, UserName, Source, Device, PlaySource, User, IsConsistent, by_id,
}
use ip_cam_box.Server.FileConfig.{
  Store, enum_sources, device_sources, find_device, find_device_source, find_user, find_user_source,
  config,
}
use ip_cam_box.Server.FileConfig.Load.{Libconfig, empty, load_config}
use ip_cam_box.Server.FileConfig.Consistency.{IsStore, load_config-IsStore, empty-IsStore}

abbrev values : Assoc SourceId Source → List Source
values = map (λ entry. entry.1)

-- The loop that appends each source visits all of them, in order.
enum_sources-values :
    (m : Assoc SourceId Source) (seen : List Source)
    → enum_sources (λ source seen. (true, seen ++ source ∷ [])) m seen ≡ seen ++ values m
unfolding enum_sources
enum_sources-values [] seen = sym (append-nil seen)
enum_sources-values ((k, x) ∷ m) seen =
    enum_sources-values m (seen ++ x ∷ []) ∙ append_assoc seen (x ∷ []) (values m)

by_id-values :
    (s : SourceId) (m : Assoc SourceId Source)
    → IsMap m
    → Holds (λ s (x : Source). x.id ≡ s) m
    → by_id s (values m) ≡ find s m
unfolding by_id find
by_id-values s [] d h = refl
by_id-values s ((k, x) ∷ m) d h =
    let head : x.id ≡ k = h k x (ground (arith, eq_iff k k)) in
    let rest : Holds (λ s (x : Source). x.id ≡ s) m =
      λ j w found. h j w (ground (arith, d.0, found, eq_iff k j)) in
    rw head (ground (arith, by_id-values s m d.1 rest))

module _ (c : Store) (h : IsStore c) where
  sources_listed :
      (d : DeviceId) (s : SourceId) → by_id s (device_sources c d) ≡ find_device_source c d s
  unfolding device_sources find_device_source by_id
  sources_listed d s = elim (Option-cases (find d c.devices)) [
    | inl missing ↦ ground arith
    | inr (x, present) ↦
        let v = h.devices d x present in
        ground (
          arith,
          enum_sources-values x.sources [],
          by_id-values s x.sources v.distinct v.source_ids,
        )
  ]

  device_id_found : (d : DeviceId) (x : Device) → find_device c d ≡ some x → x.id ≡ d
  unfolding find_device
  device_id_found d x found = elim (Option-cases (find d c.devices)) [
    | inl missing ↦ ground arith
    | inr (y, present) ↦ ground (arith, (h.devices d y present).same_id)
  ]

  source_id_found :
      (d : DeviceId) (s : SourceId) (x : Source) → find_device_source c d s ≡ some x → x.id ≡ s
  unfolding find_device_source
  source_id_found d s x found = elim (Option-cases (find d c.devices)) [
    | inl missing ↦ ground arith
    | inr (y, present) ↦ (h.devices d y present).source_ids s x (ground arith)
  ]

  user_source_found :
      (u : UserName) (s : SourceId) (x : PlaySource)
      → find_user_source c u s ≡ some x
      → x.source_id ≡ s
  unfolding find_user_source
  user_source_found u s x found = elim (Option-cases (find u c.users)) [
    | inl missing ↦ ground arith
    | inr (y, present) ↦ (h.users u y present).source_ids s x (ground arith)
  ]

  user_name_found : (u : UserName) (x : User) → find_user c u ≡ some x → x.name ≡ u
  unfolding find_user
  user_name_found u x found = elim (Option-cases (find u c.users)) [
    | inl missing ↦ ground arith
    | inr (y, present) ↦ ground (arith, (h.users u y present).same_name)
  ]

  -- The configuration behind the interface is consistent.
  pub config-IsConsistent : IsConsistent (config c)
  config-IsConsistent = record {
    device_source_test = λ d s. refl;
    user_source_test = λ u s. refl;
    device_id_found = device_id_found;
    source_id_found = source_id_found;
    user_source_found = user_source_found;
    sources_listed = sources_listed;
    user_name_found = user_name_found;
  }

-- Whatever the file holds, and also if there is none, a new configuration that is loaded from it answers
-- every lookup consistently.
pub load_config-IsConsistent :
    (lib : Libconfig) (config_dir : String) (root : Option lib.Setting)
    → IsConsistent (config (load_config lib config_dir root empty))
load_config-IsConsistent lib config_dir root =
    config-IsConsistent _ (load_config-IsStore lib config_dir root empty empty-IsStore)
