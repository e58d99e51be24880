-- ===== src/Build.antt =====
-- nwep-sys/build.rs: where the build script looks for the library's archive, and what it links. A path is
-- the list of its components, and an entry of `checked` is the place, not its text. The environment of the
-- build, pkg-config and the file system are parameters.
pub mod FirstMatch
pub mod Linking
mod Tests
use nwep_rs.Base.{
  ℕ, Bool, true, false, ◌&&◌, ◌||◌, Option, none, some, List, [], ◌∷◌, ◌++◌, Bytes, ascii, bytes_eq,
  if◌then◌else◌,
}

-- A place where the script has looked; `pkg_missing` is the note that pkg-config did not help.
pub data Place : Type 0 where
  overriding zig_out pkg_config installer : List Bytes → Place
  pkg_missing : Bytes → Place

-- The machine of the build. `repo_root` is canonical, `none` where it does not exist; `zig_build` is the
-- run of `zig build`, with whether it succeeded; `probe` is the link paths that pkg-config gives.
pub record BuildApi (W : Type 0) : Type 0 where
  pub lib_dir_env : Option (List Bytes)
  pub repo_root : Option (List Bytes)
  pub home_dir : Option (List Bytes)
  pub data_local_dir : Option (List Bytes)
  pub program_files_env : Option (List Bytes)
  pub probe : Bytes → Option (List (List Bytes))
  pub exists : List Bytes → W → Bool
  pub zig_build : List Bytes → W → Bool × W

-- The file system, with `checked`.
pub record Search (W : Type 0) : Type 0 where
  pub world : W
  pub checked : List Place

abbrev pub note : {W : Type 0} → Place → Search W → Search W
note place s = record s { checked = s.checked ++ place ∷ [] }

-- An early return ends the search.
abbrev pub or_else :
    {W : Type 0}
    → Option (List Bytes) × Search W
    → (Search W → Option (List Bytes) × Search W)
    → Option (List Bytes) × Search W
or_else (some dir, s) next = (some dir, s)
or_else (none, s) next = next s

-- `system_libs`.
unfoldable pub system_libs : Bytes → List Bytes
system_libs target_os =
    if bytes_eq target_os (ascii "linux")
    then ascii "m" ∷ ascii "dl" ∷ ascii "pthread" ∷ []
    else if bytes_eq target_os (ascii "android")
    then ascii "m" ∷ ascii "dl" ∷ ascii "log" ∷ []
    else if bytes_eq target_os (ascii "windows")
    then ascii "ws2_32"
      ∷ ascii "bcrypt"
      ∷ ascii "crypt32"
      ∷ ascii "secur32"
      ∷ ascii "advapi32"
      ∷ ascii "userenv"
      ∷ ascii "ntdll"
      ∷ []
    else if bytes_eq target_os (ascii "macos") || bytes_eq target_os (ascii "ios")
    then ascii "framework=Security" ∷ ascii "framework=CoreFoundation" ∷ []
    else []

-- The package that pkg-config is asked for.
abbrev pub pc_name : Bytes → Bytes
pc_name base = if bytes_eq base (ascii "nwep") then ascii "nwep" else ascii "nwep_core"

module _ {W : Type 0} (api : BuildApi W) where
  -- `installer_default_lib_dirs`.
  unfoldable pub installer_default_lib_dirs : Bytes → List (List Bytes)
  installer_default_lib_dirs target_os =
      if bytes_eq target_os (ascii "linux")
      then below api.home_dir (ascii ".local" ∷ ascii "lib" ∷ [])
        ++ (ascii "/usr" ∷ ascii "local" ∷ ascii "lib" ∷ []) ∷ []
      else if bytes_eq target_os (ascii "windows")
      then below api.data_local_dir (ascii "Programs" ∷ ascii "nwep" ∷ ascii "lib" ∷ [])
        ++ (program_files api.program_files_env ++ ascii "nwep" ∷ ascii "lib" ∷ []) ∷ []
      else []
    where
      below : Option (List Bytes) → List Bytes → List (List Bytes)
      below none rest = []
      below (some dir) rest = (dir ++ rest) ∷ []

      program_files : Option (List Bytes) → List Bytes
      program_files none = ascii "C:" ∷ ascii "Program Files" ∷ []
      program_files (some dir) = dir

  module _ (archive_name : Bytes) where
    abbrev pub has_archive : List Bytes → W → Bool
    has_archive dir w = api.exists (dir ++ archive_name ∷ []) w

    -- A place is noted, and is the result where it has the archive.
    unfoldable pub look : Place → List Bytes → Search W → Option (List Bytes) × Search W
    look place dir s = (if has_archive dir s.world then some dir else none, note place s)

    -- The first step of `resolve_lib_dir`: `NWEP_LIB_DIR`.
    unfoldable pub try_override : Search W → Option (List Bytes) × Search W
    try_override s = elim api.lib_dir_env [
      | none ↦ (none, s)
      | some dir ↦ look (overriding dir) dir s
    ]

    -- The second step, where zig-out has no archive yet.
    unfoldable pub auto_build : List Bytes → List Bytes → Search W → Option (List Bytes) × Search W
    auto_build root lib s =
        let (built, w) = api.zig_build root s.world in
        if api.exists (root ++ ascii "build.zig" ∷ []) s.world
        then (if built && has_archive lib w then some lib else none, record s { world = w })
        else (none, s)

    -- The second step.
    unfoldable pub try_zig_out : Search W → Option (List Bytes) × Search W
    unfolding look auto_build
    try_zig_out s = elim api.repo_root [
      | none ↦ (none, s)
      | some root ↦
          let lib = root ++ ascii "zig-out" ∷ ascii "lib" ∷ [] in
          or_else (look (zig_out lib) lib s) (auto_build root lib)
    ]

    -- The first link path of a probe.
    unfoldable pub try_link_paths :
        Option (List (List Bytes)) → Search W → Option (List Bytes) × Search W
    unfolding look
    try_link_paths none s = (none, s)
    try_link_paths (some []) s = (none, s)
    try_link_paths (some (dir ∷ dirs)) s = look (pkg_config dir) dir s

    -- The third step.
    unfoldable pub try_pkg_config : Bytes → Bytes → Search W → Option (List Bytes) × Search W
    unfolding try_link_paths
    try_pkg_config base target_os s =
        if bytes_eq target_os (ascii "linux")
        then or_else (try_link_paths (api.probe (pc_name base)) s)
            (λ s'. (none, note (pkg_missing (pc_name base)) s'))
        else (none, s)

    -- The loop of the fourth step.
    unfoldable pub try_installed : List (List Bytes) → Search W → Option (List Bytes) × Search W
    unfolding look
    try_installed [] s = (none, s)
    try_installed (dir ∷ dirs) s = or_else (look (installer dir) dir s) (try_installed dirs)

    -- `resolve_lib_dir`.
    unfoldable pub resolve_lib_dir : Bytes → Bytes → Search W → Option (List Bytes) × Search W
    unfolding try_override try_zig_out try_pkg_config try_installed
    resolve_lib_dir base target_os s = or_else (try_override s) (λ s₁.
        or_else (try_zig_out s₁) (λ s₂.
          or_else (try_pkg_config base target_os s₂)
            (try_installed (installer_default_lib_dirs target_os))))

-- What `main` prints for cargo, or its panic with the places that were looked at.
pub data Outcome : Type 0 where
  links : List Bytes → Bytes → List Bytes → Outcome
  panics : List Place → Outcome

-- The two ends of `main`.
abbrev pub outcome :
    {W : Type 0} → Bytes → List Bytes → Option (List Bytes) × Search W → Outcome × W
outcome base libs (none, s) = (panics s.checked, s.world)
outcome base libs (some dir, s) = (links dir (base ++ ascii "-full") libs, s.world)

-- The library's name, where `trust` is whether the feature is on, and the name of its archive.
abbrev pub base_of : Bool → Bytes
base_of trust = if trust then ascii "nwep" else ascii "nwep_core"

abbrev pub archive_of : Bool → Bytes
archive_of trust = ascii "lib" ++ (base_of trust ++ ascii "-full.a")

-- `main`.
unfoldable pub main : {W : Type 0} → BuildApi W → Bool → Bytes → W → Outcome × W
unfolding resolve_lib_dir system_libs
main api trust target_os w = outcome (base_of trust) (system_libs target_os) (
    resolve_lib_dir api (archive_of trust) (base_of trust) target_os
      (record { world = w; checked = [] }))
