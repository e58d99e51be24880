-- ===== src/Build/Linking.antt =====
-- The four steps of `resolve_lib_dir` in nwep-sys/build.rs, and `main`.
use nwep_rs.Base.{◌≡◌, Bool, true, some, List, ◌∷◌, ◌++◌, Bytes, ascii}
use nwep_rs.Build.{
  Place, BuildApi, has_archive, Outcome, links, panics, base_of, archive_of, system_libs,
}
use nwep_rs.Build.FirstMatch.{path_of, places, all_lack}

-- How the script ends.
pub data Ends {W : Type 0} (api : BuildApi W) (trust : Bool) (target_os : Bytes) (w₀ : W)
    : Outcome × W → Type 0 where
  linked :
      (before after : List Place) (place : Place) {dir : List Bytes} {w : W}
      → places api (base_of trust) target_os ≡ before ++ place ∷ after
      → path_of place ≡ some dir
      → has_archive api (archive_of trust) dir w ≡ true
      → all_lack api (archive_of trust) w₀ before ≡ true
      → Ends api trust target_os w₀
          (links dir (base_of trust ++ ascii "-full") (system_libs target_os), w)
  panicked :
      {w : W}
      → all_lack api (archive_of trust) w₀ (places api (base_of trust) target_os) ≡ true
      → Ends api trust target_os w₀ (panics (places api (base_of trust) target_os), w)
