-- ===== src/Storage/Directory.antt =====
-- The methods of `FileStorage`. A disk holds the temporary files of `.tmp` by their names, and the
-- stored blobs by the names of their paths; a content is its bytes. What the operating system may
-- refuse is an argument of each method; removing a file that is there succeeds unless said otherwise.
use sub_manager.Base.{
  ℕ, ◌+◌, ◌==◌, ltb, Bool, true, false, ◌&&◌, Option, none, some, List, [], ◌∷◌, ◌++◌, reverse,
  Text, codes, text_eq, is_empty, length, take, to_lower, if◌then◌else◌,
}
use sub_manager.Base.Dict.{Dict, lookup, insert, erase}
use sub_manager.Storage.Paths.{CleanPath, storage_path}
use sub_manager.Storage.Names.{sanitize_filename}

abbrev pub Content : Type 0
Content = List ℕ

unfoldable pub place_eq : List Text → List Text → Bool
place_eq [] [] = true
place_eq [] (y ∷ ys) = false
place_eq (x ∷ xs) [] = false
place_eq (x ∷ xs) (y ∷ ys) = text_eq x y && place_eq xs ys

abbrev pub Blobs : Type 0
Blobs = List Text → Option Content

abbrev pub put_blob : List Text → Content → Blobs → Blobs
put_blob place content blobs q = if place_eq place q then some content else blobs q

abbrev pub remove_blob : List Text → Blobs → Blobs
remove_blob place blobs q = if place_eq place q then none else blobs q

pub record Disk : Type 0 where
  pub temps : Dict Content
  pub blobs : Blobs

-- What the standard library and the system compute of a content and a name: the digests in hex, the
-- type that goes with an extension, or none, and the type that a content looks like.
pub record FileFacts : Type 0 where
  pub md5 : Content → Text
  pub sha256 : Content → Text
  pub type_by_extension : Text → Text
  pub detect_type : Content → Text

pub record StagedFile : Type 0 where
  pub temp : Text
  pub storage_key : Text
  pub md5 : Text
  pub sha256 : Text
  pub size : ℕ
  pub content_type : Text
  pub original_name : Text

pub data UploadError : Type 0 where
  empty_upload upload_too_large save_failed : UploadError

pub data Upload (A : Type 0) : Type 0 where
  uploaded : A → Upload A
  failed : UploadError → Upload A

-- Where `Stage` may fail, and where `Commit` may.
pub data StageFault : Type 0 where
  no_stage_fault cannot_create cannot_copy cannot_sync cannot_close : StageFault

pub data CommitFault : Type 0 where
  no_commit_fault cannot_make_directory cannot_stat cannot_remove_temp cannot_rename cannot_chmod :
      CommitFault

abbrev pub stops_copy : StageFault → Bool
stops_copy cannot_create = true
stops_copy cannot_copy = true
stops_copy _ = false

abbrev pub stops_close : StageFault → Bool
stops_close cannot_sync = true
stops_close cannot_close = true
stops_close _ = false

abbrev pub is_directory_fault : CommitFault → Bool
is_directory_fault cannot_make_directory = true
is_directory_fault cannot_stat = true
is_directory_fault _ = false

abbrev pub is_remove_fault : CommitFault → Bool
is_remove_fault cannot_remove_temp = true
is_remove_fault _ = false

abbrev pub is_rename_fault : CommitFault → Bool
is_rename_fault cannot_rename = true
is_rename_fault _ = false

abbrev pub is_chmod_fault : CommitFault → Bool
is_chmod_fault cannot_chmod = true
is_chmod_fault _ = false

-- `filepath.Join(digest[:2], digest)` of a digest in hex.
abbrev pub digest_key : Text → Text
digest_key digest = take 2 digest ++ b'/' ∷ digest

-- `filepath.Ext` of a name with no slash: the last dot and what is behind it, read from the end.
unfoldable pub ext_from : Text → Text → Text
ext_from behind [] = []
ext_from behind (c ∷ s) = if c == b'.' then c ∷ behind else ext_from (c ∷ behind) s

unfoldable pub ext : Text → Text
ext name = ext_from [] (reverse name)

-- `sniffContentType` of a file that can be opened: its first 512 bytes.
unfoldable pub sniff_content_type : FileFacts → Content → Text
sniff_content_type facts content =
    let buffer = take 512 content in
    if is_empty buffer then codes "application/octet-stream" else facts.detect_type buffer

unfoldable pub content_type_of : FileFacts → Text → Content → Text
content_type_of facts name content =
    let by_name = facts.type_by_extension (to_lower (ext name)) in
    if is_empty by_name then sniff_content_type facts content else by_name

abbrev pub staged_file : FileFacts → Text → Text → Content → StagedFile
staged_file facts temp filename written = record {
  temp = temp;
  storage_key = digest_key (facts.sha256 written);
  md5 = facts.md5 written;
  sha256 = facts.sha256 written;
  size = length written;
  content_type = content_type_of facts (sanitize_filename filename) written;
  original_name = sanitize_filename filename;
}

-- `temp` is the name that `os.CreateTemp` chose; on an error the file is removed again.
unfoldable pub stage :
    FileFacts → Text → Content → Text → ℕ → StageFault → Disk → Upload StagedFile × Disk
stage facts temp content filename max_bytes fault disk =
    let written = take (max_bytes + 1) content in
    if stops_copy fault
    then (failed save_failed, disk)
    else if is_empty written
    then (failed empty_upload, disk)
    else if ltb max_bytes (length written)
    then (failed upload_too_large, disk)
    else if stops_close fault
    then (failed save_failed, disk)
    else (
      uploaded (staged_file facts temp filename written),
      record disk { temps = insert temp written disk.temps },
    )

unfoldable pub discard : StagedFile → Disk → Disk
discard staged disk = record disk { temps = erase staged.temp disk.temps }

-- `os.Rename` of the temporary file, and `os.Chmod`, after which the blob is removed if that fails.
abbrev pub move_temp : StagedFile → CommitFault → List Text → Disk → Option Content → Bool × Disk
move_temp staged fault place disk none = (false, disk)
move_temp staged fault place disk (some content) =
    if is_rename_fault fault
    then (false, disk)
    else if is_chmod_fault fault
    then (
      false,
      record {
        temps = erase staged.temp disk.temps;
        blobs = remove_blob place (put_blob place content disk.blobs);
      },
    )
    else (
      true,
      record { temps = erase staged.temp disk.temps; blobs = put_blob place content disk.blobs },
    )

abbrev pub commit_at : StagedFile → CommitFault → List Text → Disk → Option Content → Bool × Disk
commit_at staged fault place disk (some old) =
    if is_remove_fault fault
    then (false, disk)
    else (true, record disk { temps = erase staged.temp disk.temps })
commit_at staged fault place disk none =
    move_temp staged fault place disk (lookup staged.temp disk.temps)

abbrev pub commit_path : StagedFile → CommitFault → Disk → Option CleanPath → Bool × Disk
commit_path staged fault disk none = (false, disk)
commit_path staged fault disk (some path) =
    if is_directory_fault fault
    then (false, disk)
    else commit_at staged fault path.names disk (disk.blobs path.names)

-- Whether there was no error, and the disk.
unfoldable pub commit : CleanPath → StagedFile → CommitFault → Disk → Bool × Disk
commit root staged fault disk = commit_path staged fault disk (storage_path root staged.storage_key)

abbrev open_path : Disk → Option CleanPath → Option Content
open_path disk none = none
open_path disk (some path) = disk.blobs path.names

-- `Open`, and the reading of the file.
unfoldable pub open_blob : CleanPath → Text → Disk → Option Content
open_blob root key disk = open_path disk (storage_path root key)

abbrev remove_path : Disk → Option CleanPath → Disk
remove_path disk none = disk
remove_path disk (some path) = record disk { blobs = remove_blob path.names disk.blobs }

-- `Remove`; its error is only logged.
unfoldable pub remove_stored : CleanPath → Text → Bool → Disk → Disk
remove_stored root key refused disk =
    if refused then disk else remove_path disk (storage_path root key)
