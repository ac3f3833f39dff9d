-- ===== src/Public/Delivered.antt =====
-- The public route and the files directory together: what a file subscription delivers.
use sub_manager.Base.{
  ℕ, ◌<◌, ◌≡◌, sym, refl, subst, Bool, true, false, ◌&&◌, ◌||◌, ◌==◌, ==_iff, Option, none, some,
  List, Text, codes, text_eq, has_prefix, find, arith,
}
use sub_manager.Base.Rows.{All-find, find_of_exists, test_of_find}
use sub_manager.Clock.{Time}
use sub_manager.Helpers.{Client, detect_client}
use sub_manager.Store
use sub_manager.Store.{
  Db, SubscriptionRow, Subscription, or_zero, FileRow, ok, is_file, scan_subscription,
  scan_stored_file, has_file, has_subscription, file_ref_ok,
}
use sub_manager.Store.Valid.{IsValid}
use sub_manager.Store.Recorded.{file_access_counted}
use sub_manager.Storage
use sub_manager.Storage.{CleanPath, Content, FileFacts, Disk, open_blob}
use sub_manager.Storage.Inside.{IsRoot}
use sub_manager.Storage.Places.{place_of, storage_path-digest}
use sub_manager.Storage.Sound.{is_some, HasBlob, IsSound}
use sub_manager.Uploads.{FileState}
use sub_manager.Uploads.Stored.{InStep}
use sub_manager.Public.{
  PublicReply, file_sent, sent, public_subscription, public_file_subscription, truncate_bytes,
  user_agent_limit,
}
use sub_manager.Public.Served.{row_by_id, exists-find}

-- Whether `Open` finds a blob for a key.
abbrev pub opens_on : CleanPath → Disk → Text → Bool
opens_on root disk key = is_some (open_blob root key disk)

module _ (root : CleanPath) (facts : FileFacts) where
  some_of_is_some : (o : Option Content) → is_some o ≡ true → (c : Content) × (o ≡ some c)
  some_of_is_some none h = absurd (ground arith)
  some_of_is_some (some c) h = (c, refl)

  -- A row of `files` has a blob that `Open` finds, with the row's SHA-256.
  stored_content :
      (disk : Disk) (files : List FileRow) (k : ℕ) (f : FileRow)
      → IsRoot root
      → IsSound root facts files disk.blobs
      → find (λ r. r.id == k) files ≡ some f
      → (c : Content) × (open_blob root f.storage_key disk ≡ some c) × (facts.sha256 c ≡ f.sha256)
  unfolding Storage.open_blob
  stored_content disk files k f w i e =
      let blob = All-find (HasBlob root facts disk.blobs) (λ r. r.id == k) files f e i.present in
      let (c, there) = some_of_is_some (disk.blobs (place_of root f.sha256)) blob.2 in
      (
        c,
        rw (blob.1, storage_path-digest root f.sha256 w blob.0) there,
        i.addressed.at f.sha256 c blob.0 there,
      )

  -- The row of the file that a subscription names.
  linked_file :
      (d : Db) (row : SubscriptionRow) (k : ℕ) (p : SubscriptionRow → Bool)
      → IsValid d
      → find p d.subscriptions ≡ some row
      → row.file_id ≡ some k
      → (f : FileRow) × (find (λ r. r.id == k) d.files ≡ some f)
  linked_file d row k p v found linked =
      let ref : file_ref_ok row.file_id d.files ≡ true =
        All-find (λ s. file_ref_ok s.file_id d.files ≡ true) p d.subscriptions row found
          v.refs.sub_files in
      let there : has_file k d.files ≡ true = rw linked at ref in
      find_of_exists (λ r. r.id == k) d.files there

  module _ (client_name : Client → Text) where
    sent_ok :
        (reply : PublicReply) (opens : Text → Bool) (x : Store.Result (Unit {0}) × Db)
        → x.0 ≡ ok tt
        → (sent client_name opens reply x).0 ≡ reply
    sent_ok reply opens (ok u, d) e = refl
    sent_ok reply opens (Store.err f, d) e = absurd (ground arith)

    -- The reply for a subscription whose file is there and can be opened.
    file_replies :
        (sub : Subscription) (f : FileRow) (ip agent : Text) (now : Time) (st : FileState)
        → (sub.file_id == 0) ≡ false
        → find (λ r. r.id == sub.file_id) st.db.files ≡ some f
        → is_some (open_blob root f.storage_key st.disk) ≡ true
        → (Store.record_access sub f.id ip
            (client_name (detect_client agent))
            agent
            (codes "GET")
            200
            now
            st.db).0
          ≡ ok tt
        → let opens = opens_on root st.disk in
          ((public_file_subscription client_name opens sub ip agent (codes "GET") now st.db).0
            ≡ file_sent (scan_stored_file st.db.subscriptions f) sub.download_name true)
          × (public_file_subscription client_name opens sub ip agent (codes "HEAD") now st.db
              ≡ (file_sent (scan_stored_file st.db.subscriptions f) sub.download_name false, st.db))
    unfolding public_file_subscription Store.file_by_id text_eq scan_stored_file
    file_replies sub f ip agent now st some_file has there counted = (
      rw (some_file, has, there)
          (sent_ok _ (opens_on root st.disk)
            (Store.record_access sub f.id ip (client_name (detect_client agent)) agent (codes "GET")
              200 now st.db)
            counted),
      rw (some_file, has, there) refl,
    )

    -- With a rooted path to the files directory, and in a safe state, where the tables are valid
    -- and the directory is in step with them: a request for the path of an enabled subscription
    -- with a file, whose id is above 0, if the path does not begin with `/admin`, delivers that
    -- file. The row of the file is there, `Open` finds a content for it that has the row's
    -- SHA-256, a GET is answered with the file, the name of the subscription's download and the
    -- content, and a HEAD with the same but the content, and then nothing is counted.
    pub file_delivered :
        (path ip user_agent : Text) (now : Time) (st : FileState) (row : SubscriptionRow) (k : ℕ)
        → IsRoot root
        → IsValid st.db
        → InStep root facts st
        → (text_eq path (codes "/") || has_prefix path (codes "/admin")) ≡ false
        → find (λ s. text_eq s.path path && s.enabled) st.db.subscriptions ≡ some row
        → is_file row.kind ≡ true
        → row.file_id ≡ some k
        → 0 < k
        → (f : FileRow) × (c : Content) × (find (λ r. r.id == k) st.db.files ≡ some f)
          × (open_blob root f.storage_key st.disk ≡ some c)
          × (facts.sha256 c ≡ f.sha256)
          × ((public_subscription client_name
                (opens_on root st.disk)
                path
                ip
                user_agent
                (codes "GET")
                now
                st.db).0
              ≡ file_sent (scan_stored_file st.db.subscriptions f) row.download_name true)
          × (public_subscription client_name
                (opens_on root st.disk)
                path
                ip
                user_agent
                (codes "HEAD")
                now
                st.db
              ≡ (file_sent (scan_stored_file st.db.subscriptions f) row.download_name false, st.db))
    unfolding public_subscription Store.subscription_by_path Store.scan_subscription
    file_delivered path ip user_agent now st row k w v i seen found file linked pos =
        let d = st.db in
        let (f, has) = linked_file d row k (λ s. text_eq s.path path && s.enabled) v found linked in
        let (c, there, digest) = stored_content st.disk d.files k f w i has in
        let agent = truncate_bytes user_agent_limit user_agent in
        let same : f.id ≡ k = ground (arith, test_of_find (λ r. r.id == k) d.files f has) in
        let by_id = row_by_id d row (λ s. text_eq s.path path && s.enabled) v found in
        let stored : has_file f.id d.files ≡ true =
          exists-find (λ r. r.id == k) (λ r. r.id == f.id) d.files f has
            ((==_iff f.id f.id).1 refl) in
        let counted =
          (file_access_counted (scan_subscription row) f.id ip (client_name (detect_client agent))
            agent (codes "GET") 200 now d v row k row.id by_id stored (omega arith)).0 in
        let named : find (λ r. r.id == or_zero row.file_id) d.files ≡ some f =
          subst (λ o. find (λ r. r.id == or_zero o) d.files ≡ some f) (sym linked) has in
        let some_file : (or_zero row.file_id == 0) ≡ false = rw linked (ground arith) in
        let replies =
          file_replies (scan_subscription row) f ip agent now st some_file named (rw there refl)
            counted in
        (
          f,
          c,
          has,
          there,
          digest,
          rw (seen, found, file) replies.0,
          rw (seen, found, file) replies.1,
        )
