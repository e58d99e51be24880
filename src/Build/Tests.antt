-- ===== src/Build/Tests.antt =====
-- An instance for nwep-sys/build.rs: the override and pkg-config name directories without the archive, a
-- build does not make it, and the installer has put it below the home directory.
use nwep_rs.Base.{ℕ, suc, false, some, none, [], ◌∷◌, ascii, ◌==◌, length}
use nwep_rs.Build.{BuildApi}

-- A file of four components exists; the world counts the builds.
abbrev machine : BuildApi ℕ
machine = record {
  lib_dir_env = some (ascii "opt" ∷ []);
  repo_root = some (ascii "home" ∷ ascii "repo" ∷ []);
  home_dir = some (ascii "home" ∷ []);
  data_local_dir = none;
  program_files_env = none;
  probe = λ name. some ((ascii "usr" ∷ ascii "lib64" ∷ []) ∷ []);
  exists = λ file w. length file == 4;
  zig_build = λ root w. (false, suc w);
}
