-- ===== src/Build/FirstMatch.antt =====
-- The order in which nwep-sys/build.rs looks for the archive: the first place that has it.
use nwep_rs.Base.{
  ◌≡◌, refl, sym, ap, ◌∙◌, inl, inr, Bool, true, false, not, ◌&&◌, Option, none, some, List, [],
  ◌∷◌, ◌++◌, append-nil, append_assoc, arith, Bytes, ascii, bytes_eq, Bool-cases, if◌then◌else◌,
}
use nwep_rs.Build.{
  Place, overriding, zig_out, pkg_config, installer, pkg_missing, BuildApi, Search, or_else,
  installer_default_lib_dirs, has_archive, look, pc_name,
}

abbrev pub path_of : Place → Option (List Bytes)
path_of (overriding dir) = some dir
path_of (zig_out dir) = some dir
path_of (pkg_config dir) = some dir
path_of (installer dir) = some dir
path_of (pkg_missing name) = none

-- `zig build` removes no file.
abbrev pub BuildsKeep : {W : Type 0} → BuildApi W → Type 0
BuildsKeep {W} api =
    (root file : List Bytes) (w : W)
    → api.exists file w ≡ true
    → api.exists file (api.zig_build root w).1 ≡ true

-- The places of each step, and all of them, in the order in which the head of the script lists them.
abbrev pub override_places : Option (List Bytes) → List Place
override_places none = []
override_places (some dir) = overriding dir ∷ []

abbrev pub zig_places : Option (List Bytes) → List Place
zig_places none = []
zig_places (some root) = zig_out (root ++ ascii "zig-out" ∷ ascii "lib" ∷ []) ∷ []

abbrev pub linked_places : Option (List (List Bytes)) → List Place
linked_places none = []
linked_places (some []) = []
linked_places (some (dir ∷ dirs)) = pkg_config dir ∷ []

abbrev pub pkg_places : {W : Type 0} → BuildApi W → Bytes → Bytes → List Place
pkg_places api base target_os =
    if bytes_eq target_os (ascii "linux")
    then linked_places (api.probe (pc_name base)) ++ pkg_missing (pc_name base) ∷ []
    else []

abbrev pub installer_places : List (List Bytes) → List Place
installer_places [] = []
installer_places (dir ∷ dirs) = installer dir ∷ installer_places dirs

abbrev pub places : {W : Type 0} → BuildApi W → Bytes → Bytes → List Place
places api base target_os =
    override_places api.lib_dir_env
    ++ (zig_places api.repo_root
        ++ (pkg_places api base target_os
            ++ installer_places (installer_default_lib_dirs api target_os)))

module _ {W : Type 0} (api : BuildApi W) (archive_name : Bytes) (w₀ : W) where
  -- Whether a place lacks the archive before the build.
  abbrev pub lacks : Option (List Bytes) → Bool
  lacks none = true
  lacks (some dir) = not (has_archive api archive_name dir w₀)

  abbrev pub all_lack : List Place → Bool
  all_lack [] = true
  all_lack (place ∷ places) = lacks (path_of place) && all_lack places

  -- A world that has every archive of the first one.
  abbrev pub Keeps : W → Type 0
  Keeps w =
      (dir : List Bytes)
      → has_archive api archive_name dir w₀ ≡ true
      → has_archive api archive_name dir w ≡ true

  -- A search through `places`: it ends at the first one that has the archive, or behind the last one.
  pub data Finds (places : List Place) (s : Search W)
      : Option (List Bytes) × Search W → Type 0 where
    hit :
        (before after : List Place) (place : Place) {dir : List Bytes} {s' : Search W}
        → places ≡ before ++ place ∷ after
        → s'.checked ≡ s.checked ++ (before ++ place ∷ [])
        → path_of place ≡ some dir
        → has_archive api archive_name dir s'.world ≡ true
        → all_lack before ≡ true
        → Finds places s (some dir, s')
    miss :
        {s' : Search W}
        → s'.checked ≡ s.checked ++ places
        → all_lack places ≡ true
        → Keeps s'.world
        → Finds places s (none, s')

  all_lack-append :
      (xs ys : List Place) → all_lack xs ≡ true → all_lack ys ≡ true → all_lack (xs ++ ys) ≡ true
  all_lack-append [] ys p q = q
  all_lack-append (x ∷ xs) ys p q = ground (arith, all_lack-append xs ys)

  pub or_else-Finds :
      (xs ys : List Place) (s : Search W) (r : Option (List Bytes) × Search W)
      (next : Search W → Option (List Bytes) × Search W)
      → Finds xs s r
      → ((s' : Search W) → Keeps s'.world → Finds ys s' (next s'))
      → Finds (xs ++ ys) s (or_else r next)
  or_else-Finds xs ys s _ next (hit before after place e c p h l) k =
      hit before (after ++ ys) place (ap (◌++ ys) e ∙ append_assoc before (place ∷ after) ys) c p h
        l
  or_else-Finds xs ys s _ next (miss {s' = s'} c l keeps) k = go (next s') (k s' keeps)
    where
      go : (r : Option (List Bytes) × Search W) → Finds ys s' r → Finds (xs ++ ys) s r
      go _ (hit before after place e c' p h l') =
          hit (xs ++ before) after place
            (ap (xs ++◌) e ∙ sym (append_assoc xs before (place ∷ after)))
            (c'
              ∙ ap (◌++ (before ++ place ∷ [])) c
              ∙ append_assoc s.checked xs (before ++ place ∷ [])
              ∙ ap (s.checked ++◌) (sym (append_assoc xs before (place ∷ []))))
            p h (all_lack-append xs before l l')
      go _ (miss c' l' keeps') =
          miss (c' ∙ ap (◌++ ys) c ∙ append_assoc s.checked xs ys) (all_lack-append xs ys l l')
            keeps'

  pub lacked :
      (dir : List Bytes) (s : Search W)
      → Keeps s.world
      → has_archive api archive_name dir s.world ≡ false
      → has_archive api archive_name dir w₀ ≡ false
  lacked dir s keeps e = elim (Bool-cases (has_archive api archive_name dir w₀)) [
    | inl h ↦ absurd (ground (arith, keeps dir h, e))
    | inr h ↦ h
  ]

  pub look-Finds :
      (place : Place) (dir : List Bytes) (s : Search W)
      → path_of place ≡ some dir
      → Keeps s.world
      → Finds (place ∷ []) s (look api archive_name place dir s)
  unfolding look
  look-Finds place dir s p keeps = elim (Bool-cases (has_archive api archive_name dir s.world)) [
    | inl e ↦ rw (look, e) (hit [] [] place refl refl p e refl)
    | inr e ↦ rw (look, e) (miss refl (rw (p, lacked dir s keeps e) refl) keeps)
  ]

  pub passes : (s : Search W) → Keeps s.world → Finds [] s (none, s)
  passes s keeps = miss (sym (append-nil s.checked)) refl keeps
