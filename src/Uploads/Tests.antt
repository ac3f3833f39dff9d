-- ===== src/Uploads/Tests.antt =====
-- Uploads to an empty directory, and the theorems on uploads applied to them.
use sub_manager.Base.{
  ℕ, ◌+◌, ◌≡◌, refl, ltb, false, none, some, List, [], ◌∷◌, ◌++◌, Text, codes, length, take,
  is_empty, arith,
}
use sub_manager.Clock.{second}
use sub_manager.Store
use sub_manager.Store.{StoredFile, ok}
use sub_manager.Storage.{
  Content, uploaded, no_stage_fault, no_commit_fault, cannot_sync, cannot_rename,
}
use sub_manager.Storage.Tests.{
  files_root, files_root-IsRoot, one_digest, some_digest, some_digest-IsDigest, nothing,
  nothing-IsSound,
}
use sub_manager.Public.Tests.{start, site, site-IsValid}
use sub_manager.Uploads.{FileState, Sending, save_uploaded_file}
use sub_manager.Uploads.Stored.{InStep, save-InStep}
use sub_manager.Uploads.Found.{save_found}
use sub_manager.Uploads.Again.{save_again}

abbrev sent : Sending
sent = record {
  temp = codes "upload-1";
  content = 104 ∷ 105 ∷ [];
  filename = some (codes "hi.txt");
  max_bytes = 1000;
  stage_fault = no_stage_fault;
  commit_fault = no_commit_fault;
}

abbrev sent_again : Sending
sent_again = record sent { temp = codes "upload-2"; filename = none }

abbrev not_renamed : Sending
not_renamed = record sent { commit_fault = cannot_rename }

abbrev before : FileState
before = record { db = site; disk = record { temps = []; blobs = nothing } }

abbrev hi_file : StoredFile
hi_file = record {
  id = 1;
  md5 = codes "00000000000000000000000000000000";
  sha256 = some_digest;
  size = 2;
  content_type = codes "text/plain";
  storage_key = codes "01/" ++ some_digest;
  original_name = codes "hi.txt";
  download_count = 0;
  last_downloaded_at = none;
  last_downloaded_ip = [];
  association_count = 0;
  created_at = start;
  updated_at = start;
}

save-InStep_example :
    InStep files_root one_digest
      (save_uploaded_file files_root one_digest not_renamed start before).1
save-InStep_example =
    save-InStep files_root one_digest not_renamed start before files_root-IsRoot
      (λ c. some_digest-IsDigest) nothing-IsSound

saved : (save_uploaded_file files_root one_digest sent start before).0 ≡ uploaded hi_file
unfolding save_uploaded_file sub_manager.Storage.stage Store.file_by_digests Store.file_by_sha256
    sub_manager.Storage.commit sub_manager.Storage.storage_path sub_manager.Storage.clean
    sub_manager.Storage.clean_parts sub_manager.Storage.split_slash sub_manager.Base.text_eq
    sub_manager.Storage.rel sub_manager.Storage.strip_common sub_manager.Storage.join
    sub_manager.Base.Dict.lookup sub_manager.Base.Dict.insert Store.create_file Store.insert_file
    sub_manager.Base.Dict.erase sub_manager.Base.is_space sub_manager.Base.to_lower
    sub_manager.Base.trim_left sub_manager.Base.trim_right sub_manager.Base.trim_space
    sub_manager.Storage.content_type_of sub_manager.Storage.discard sub_manager.Storage.ext
    sub_manager.Storage.ext_from sub_manager.Storage.place_eq sub_manager.Storage.sniff_content_type
    sub_manager.Storage.after_slash sub_manager.Storage.base_name
    sub_manager.Storage.header_filename sub_manager.Storage.is_control
    sub_manager.Storage.replace_unsafe sub_manager.Storage.sanitize_filename
    sub_manager.Storage.slashes Store.association_count Store.file_by_id Store.scan_stored_file
saved = refl

save_found_example :
    let written = take {A = ℕ} 1001 (104 ∷ 105 ∷ []) in
    (Store.file_by_digests
        (one_digest.md5 written)
        (one_digest.sha256 written)
        (save_uploaded_file files_root one_digest sent start before).1.db
      ≡ ok hi_file)
    × (hi_file.md5 ≡ one_digest.md5 written)
    × (hi_file.size ≡ length written)
    × (is_empty written ≡ false)
    × (ltb 1000 (length written) ≡ false)
save_found_example =
    save_found files_root one_digest sent start before hi_file site-IsValid
      (λ c. some_digest-IsDigest) saved

save_again_example :
    let first = (save_uploaded_file files_root one_digest sent start before).1 in
    let (again, second) = save_uploaded_file files_root one_digest sent_again (start + 5) first in
    (again ≡ uploaded hi_file) × (second.db ≡ first.db) × (second.disk.blobs ≡ first.disk.blobs)
save_again_example =
    save_again files_root one_digest sent sent_again start (start + 5) before hi_file
      files_root-IsRoot (λ c. some_digest-IsDigest) site-IsValid nothing-IsSound saved refl refl
      refl refl
