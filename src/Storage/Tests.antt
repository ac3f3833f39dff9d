-- ===== src/Storage/Tests.antt =====
-- Keys, names and a commit at concrete values, and the theorems applied to them.
use sub_manager.Base.{
  ℕ, ◌≤◌, ◌≡◌, refl, ltb, Bool, true, false, not, ◌||◌, Option, none, some, List, [], ◌∷◌, ◌++◌,
  Text, codes, text_eq, is_empty, length, arith, if◌then◌else◌,
}
use sub_manager.Base.Rows.{All}
use sub_manager.Storage.{
  CleanPath, clean, is_abs, no_names, storage_path, Blobs, Disk, FileFacts, StagedFile, staged_file,
  cannot_chmod, header_filename, commit,
}
use sub_manager.Storage.Inside.{IsName, IsRoot, below_root, storage_path_exact}
use sub_manager.Storage.SafeName.{IsSafe, header_filename-IsSafe}
use sub_manager.Storage.Places.{IsDigest}
use sub_manager.Storage.Sound.{IsSound}
use sub_manager.Storage.Commit.{Committed, commit-Committed}

abbrev pub files_root : CleanPath
files_root = record { rooted = true; ups = 0; names = codes "data" ∷ codes "files" ∷ [] }

pub files_root-IsRoot : IsRoot files_root
unfolding text_eq
files_root-IsRoot = record { rooted = refl; no_ups = refl; named = (refl, (refl, tt)) }

abbrev way_out : Text
way_out = codes "ab/../../etc/passwd"

storage_path_example :
    let c = clean way_out in
    (storage_path files_root way_out ≡ (
      if is_empty way_out || is_abs way_out || ltb 0 c.ups || no_names c.names
      then none
      else some (below_root files_root c.names)))
    × All IsName c.names
storage_path_example = storage_path_exact files_root way_out files_root-IsRoot

header_filename_example :
    let name = header_filename (some (codes "C:\\temp\\list.txt")) in
    (is_empty name ≡ false) × (length name ≤ 200) × IsSafe name
header_filename_example = header_filename-IsSafe (some (codes "C:\\temp\\list.txt"))

abbrev pub some_digest : Text
some_digest = codes "0123456789abcdef0123456789abcdef0123456789abcdef0123456789abcdef"

-- Facts for which all contents have one digest.
abbrev pub one_digest : FileFacts
one_digest = record {
  md5 = λ c. codes "00000000000000000000000000000000";
  sha256 = λ c. some_digest;
  type_by_extension = λ e. [];
  detect_type = λ c. codes "text/plain";
}

pub some_digest-IsDigest : IsDigest some_digest
some_digest-IsDigest = (refl, refl)

abbrev pub nothing : Blobs
nothing place = none

pub nothing-IsSound : IsSound files_root one_digest [] nothing
nothing-IsSound = record {
  addressed = record { at = λ s c d h. absurd (ground arith) };
  present = tt;
}

abbrev waiting : Disk
waiting = record { temps = (codes "upload-1", 1 ∷ 2 ∷ []) ∷ []; blobs = nothing }

abbrev list_file : StagedFile
list_file = staged_file one_digest (codes "upload-1") (codes "list.txt") (1 ∷ 2 ∷ [])

commit_example :
    Committed files_root one_digest [] list_file cannot_chmod
      (commit files_root list_file cannot_chmod waiting)
unfolding sub_manager.Base.Dict.lookup text_eq
commit_example =
    commit-Committed files_root one_digest [] list_file cannot_chmod waiting files_root-IsRoot
      nothing-IsSound
      (record {
        content = 1 ∷ 2 ∷ [];
        waits = refl;
        named = refl;
        keyed = refl;
        digest = some_digest-IsDigest;
      })
