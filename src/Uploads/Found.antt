-- ===== src/Uploads/Found.antt =====
-- Which file an upload returns.
use sub_manager.Base.{
  ℕ, ◌+◌, ◌==◌, ◌≤◌, ◌≡◌, ◌∙◌, sym, ap, refl, subst, ltb, Bool, true, false, not, ◌&&◌, ◌||◌,
  Option, none, some, List, [], ◌∷◌, ◌++◌, text_eq, text_eq_iff, text_eq_refl, exists, find, length,
  take, is_empty, arith, Bool-cases, inl, inr,
}
use sub_manager.Base.Rows.{All}
use sub_manager.Base.Search.{find-snoc, not_exists_of_find}
use sub_manager.Clock.{Time}
use sub_manager.Store
use sub_manager.Store.{
  Db, FileRow, SubscriptionRow, StoredFile, Result, StoreError, ok, err, scan_stored_file,
}
use sub_manager.Store.Valid.{IsValid}
use sub_manager.Storage
use sub_manager.Storage.{
  CleanPath, Content, Disk, FileFacts, StagedFile, Upload, uploaded, failed, StageFault,
  no_stage_fault, CommitFault, no_commit_fault, header_filename, staged_file,
}
use sub_manager.Storage.Places.{IsDigest}
use sub_manager.Storage.Commit.{stage-IsStaged, stage_accepts}
use sub_manager.Uploads.{
  FileState, Sending, keep_known, row_made, make_row, check_sha256, check_digests, save_staged,
  save_uploaded_file,
}

-- The row that has the digests of a staged file, and its size.
record IsFound (staged : StagedFile) (d : Db) (file : StoredFile) : Type 0 where
  found : Store.file_by_digests staged.md5 staged.sha256 d ≡ ok file
  md5 : file.md5 ≡ staged.md5
  size : file.size ≡ staged.size

scan_none :
    (d : Db) (o : Option FileRow) (e : StoreError)
    → Store.scan_file d.subscriptions o ≡ err e
    → o ≡ none
scan_none d none e h = refl
scan_none d (some f) e h = absurd (ground arith)

fresh_id :
    (k : ℕ) (files : List FileRow)
    → All (λ f. f.id ≤ k) files
    → exists (λ f. f.id == k + 1) files ≡ false
fresh_id k [] h = refl
fresh_id k (f ∷ files) h = ground (arith, h.0, fresh_id k files h.1)

abbrev row_of : StagedFile → Time → ℕ → FileRow
row_of staged now id =
    Store.new_file staged.md5 staged.sha256 staged.size staged.content_type staged.storage_key
      staged.original_name now id

create_taken :
    (staged : StagedFile) (now : Time) (d : Db)
    → (exists (λ r. text_eq r.sha256 staged.sha256) d.files
        || exists (λ r. text_eq r.storage_key staged.storage_key) d.files)
      ≡ true
    → Store.create_file staged.md5 staged.sha256 staged.size staged.content_type staged.storage_key
        staged.original_name now d
      ≡ (err Store.unique_failed, d)
unfolding Store.create_file Store.insert_file
create_taken staged now d h = rw h refl

-- A row that is made is found by its id, and by its digests.
create_free :
    (staged : StagedFile) (now : Time) (d : Db)
    → IsValid d
    → find (λ f. text_eq f.md5 staged.md5 && text_eq f.sha256 staged.sha256) d.files ≡ none
    → (exists (λ r. text_eq r.sha256 staged.sha256) d.files
        || exists (λ r. text_eq r.storage_key staged.storage_key) d.files)
      ≡ false
    → let (r, d') =
        Store.create_file staged.md5 staged.sha256 staged.size staged.content_type
          staged.storage_key staged.original_name now d in
      let file = scan_stored_file d.subscriptions (row_of staged now (d.last_file + 1)) in
      (r ≡ ok file) × (Store.file_by_digests staged.md5 staged.sha256 d' ≡ ok file)
unfolding Store.create_file Store.insert_file Store.file_by_id Store.file_by_digests
create_free staged now d v none_yet free =
    let row = row_of staged now (d.last_file + 1) in
    let by_digests = λ (f : FileRow). text_eq f.md5 staged.md5 && text_eq f.sha256 staged.sha256 in
    let id_found : find (λ f. f.id == d.last_file + 1) (d.files ++ row ∷ []) ≡ some row =
      find-snoc (λ (f : FileRow). f.id == d.last_file + 1) d.files row
      ∙ rw (fresh_id d.last_file d.files v.files.bound) (ground arith) in
    let digests_found : find by_digests (d.files ++ row ∷ []) ≡ some row =
      find-snoc by_digests d.files row
      ∙ rw
          (
            not_exists_of_find by_digests d.files none_yet,
            text_eq_refl staged.md5,
            text_eq_refl staged.sha256,
          )
          refl in
    rw free (rw id_found refl, rw digests_found refl)

module _ (root : CleanPath) (facts : FileFacts) where
  uploaded_inj : (f g : StoredFile) → uploaded f ≡ uploaded g → f ≡ g
  uploaded_inj f g e = cc

  made_row :
      (staged : StagedFile) (disk : Disk) (f : StoredFile) (x : Result StoredFile × Db)
      (file : StoredFile)
      → x.0 ≡ ok f
      → Store.file_by_digests staged.md5 staged.sha256 x.1 ≡ ok f
      → f.md5 ≡ staged.md5
      → f.size ≡ staged.size
      → (row_made root facts staged disk x).0 ≡ uploaded file
      → IsFound staged (row_made root facts staged disk x).1.db file
  made_row staged disk f (err e, d) file a b m z h = absurd (ground arith)
  made_row staged disk f (ok g, d) file a b m z h =
      let gf : g ≡ f = cc in
      let fg : g ≡ file = uploaded_inj g file h in
      let ff : f ≡ file = sym gf ∙ fg in
      record {
        found = b ∙ ap (λ (x : StoredFile). ok x) ff;
        md5 = ap (λ (x : StoredFile). x.md5) (sym ff) ∙ m;
        size = ap (λ (x : StoredFile). x.size) (sym ff) ∙ z;
      }

  row_made-IsFound :
      (staged : StagedFile) (now : Time) (d : Db) (disk : Disk) (e : StoreError) (file : StoredFile)
      → IsValid d
      → Store.file_by_digests staged.md5 staged.sha256 d ≡ err e
      → let out = row_made root facts staged disk (
          Store.create_file staged.md5 staged.sha256 staged.size staged.content_type
            staged.storage_key staged.original_name now d) in
        out.0 ≡ uploaded file → IsFound staged out.1.db file
  row_made-IsFound staged now d disk e file v missing h =
      let none_yet : find (λ f. text_eq f.md5 staged.md5 && text_eq f.sha256 staged.sha256) d.files
          ≡ none =
        scan_none d (find (λ f. text_eq f.md5 staged.md5 && text_eq f.sha256 staged.sha256) d.files)
          e (unfold Store.file_by_digests in missing) in
      elim (Bool-cases (
        exists (λ r. text_eq r.sha256 staged.sha256) d.files
        || exists (λ r. text_eq r.storage_key staged.storage_key) d.files)) [
          | inl taken ↦ absurd (ground (arith, rw (create_taken staged now d taken, missing) at h))
          | inr free ↦
              let (by_id, by_digests) = create_free staged now d v none_yet free in
              made_row staged disk
                (scan_stored_file d.subscriptions (row_of staged now (d.last_file + 1)))
                (Store.create_file staged.md5 staged.sha256 staged.size staged.content_type
                  staged.storage_key staged.original_name now d)
                file by_id by_digests (unfold scan_stored_file in refl)
                (unfold scan_stored_file in refl) h
        ]

  make_row-IsFound :
      (staged : StagedFile) (now : Time) (st : FileState) (x : Bool × Disk) (e : StoreError)
      (file : StoredFile)
      → IsValid st.db
      → Store.file_by_digests staged.md5 staged.sha256 st.db ≡ err e
      → (make_row root facts staged now st x).0 ≡ uploaded file
      → IsFound staged (make_row root facts staged now st x).1.db file
  make_row-IsFound staged now st (false, disk) e file v missing h = absurd (ground arith)
  make_row-IsFound staged now st (true, disk) e file v missing h =
      row_made-IsFound staged now st.db disk e file v missing h

  check_sha256-IsFound :
      (staged : StagedFile) (fault : CommitFault) (now : Time) (st : FileState)
      (r : Result StoredFile) (e : StoreError) (file : StoredFile)
      → IsValid st.db
      → Store.file_by_digests staged.md5 staged.sha256 st.db ≡ err e
      → (check_sha256 root facts staged fault now st r).0 ≡ uploaded file
      → IsFound staged (check_sha256 root facts staged fault now st r).1.db file
  check_sha256-IsFound staged fault now st (ok other) e file v missing h = absurd (ground arith)
  check_sha256-IsFound staged fault now st (err f) e file v missing h =
      make_row-IsFound staged now st (Storage.commit root staged fault st.disk) e file v missing h

  keep_known-IsFound :
      (staged : StagedFile) (existing : StoredFile) (st : FileState) (x : Bool × Disk)
      (file : StoredFile)
      → IsFound staged st.db existing
      → (keep_known root facts staged existing st x).0 ≡ uploaded file
      → IsFound staged (keep_known root facts staged existing st x).1.db file
  keep_known-IsFound staged existing st (true, disk) file i h =
      subst (IsFound staged st.db) (uploaded_inj existing file h) i
  keep_known-IsFound staged existing st (false, disk) file i h = absurd (ground arith)

  check_digests-IsFound :
      (staged : StagedFile) (fault : CommitFault) (now : Time) (st : FileState)
      (r : Result StoredFile) (file : StoredFile)
      → IsValid st.db
      → Store.file_by_digests staged.md5 staged.sha256 st.db ≡ r
      → (check_digests root facts staged fault now st r).0 ≡ uploaded file
      → IsFound staged (check_digests root facts staged fault now st r).1.db file
  check_digests-IsFound staged fault now st (err e) file v same h =
      check_sha256-IsFound staged fault now st (Store.file_by_sha256 staged.sha256 st.db) e file v
        same h
  check_digests-IsFound staged fault now st (ok existing) file v same h =
      elim (Bool-cases
        (not (text_eq existing.md5 staged.md5) || not (existing.size == staged.size))) [
          | inl wrong ↦ absurd (ground (arith, rw wrong at h))
          | inr right ↦ rw right (
              keep_known-IsFound staged existing st (Storage.commit root staged fault st.disk) file
                (record {
                  found = same;
                  md5 = ground (arith, text_eq_iff existing.md5 staged.md5);
                  size = ground arith;
                })
                (rw right at h))
        ]

  save_staged-IsFound :
      (s : Sending) (now : Time) (db : Db) (x : Upload StagedFile × Disk) (file : StoredFile)
      → IsValid db
      → ((staged : StagedFile)
          → x.0 ≡ uploaded staged
          → staged_file facts s.temp (header_filename s.filename) (take (s.max_bytes + 1) s.content)
            ≡ staged)
      → (save_staged root facts s.commit_fault now db x).0 ≡ uploaded file
      → IsFound
          (staged_file facts s.temp (header_filename s.filename) (take (s.max_bytes + 1) s.content))
          (save_staged root facts s.commit_fault now db x).1.db
          file
  save_staged-IsFound s now db (failed e, disk) file v f h = absurd (ground arith)
  save_staged-IsFound s now db (uploaded staged, disk) file v f h =
      subst
        (λ t.
          IsFound t (save_staged root facts s.commit_fault now db (uploaded staged, disk)).1.db
            file)
        (sym (f staged refl))
        (check_digests-IsFound staged s.commit_fault now (record { db = db; disk = disk })
          (Store.file_by_digests staged.md5 staged.sha256 db) file v refl h)

  -- In a valid database, and as SHA-256 digests are 64 hex digits: what an upload returns, if it
  -- returns a file, is the row that has the digests of the content; it has its size, too, which is
  -- above 0 and within the limit.
  pub save_found :
      (s : Sending) (now : Time) (st : FileState) (file : StoredFile)
      → IsValid st.db
      → ((c : Content) → IsDigest (facts.sha256 c))
      → (save_uploaded_file root facts s now st).0 ≡ uploaded file
      → let written = take (s.max_bytes + 1) s.content in
        (Store.file_by_digests
            (facts.md5 written)
            (facts.sha256 written)
            (save_uploaded_file root facts s now st).1.db
          ≡ ok file)
        × (file.md5 ≡ facts.md5 written)
        × (file.size ≡ length written)
        × (is_empty written ≡ false)
        × (ltb s.max_bytes (length written) ≡ false)
  unfolding save_uploaded_file
  save_found s now st file v hex h =
      let x =
        Storage.stage facts s.temp s.content (header_filename s.filename) s.max_bytes s.stage_fault
          st.disk in
      let i =
        save_staged-IsFound s now st.db x file v
          (λ staged e.
            (stage-IsStaged root facts s.temp s.content (header_filename s.filename) s.max_bytes
              s.stage_fault st.disk staged hex e).1)
          h in
      let (staged, e) = was_staged x h in
      let (full, within) =
        stage_accepts root facts s.temp s.content (header_filename s.filename) s.max_bytes
          s.stage_fault st.disk staged e in
      (i.found, i.md5, i.size, full, within)
    where
      was_staged :
          (x : Upload StagedFile × Disk)
          → (save_staged root facts s.commit_fault now st.db x).0 ≡ uploaded file
          → (staged : StagedFile) × (x.0 ≡ uploaded staged)
      was_staged (failed e, disk) k = absurd (ground arith)
      was_staged (uploaded staged, disk) k = (staged, refl)
