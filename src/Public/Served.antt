-- ===== src/Public/Served.antt =====
-- What a public request does to the database.
use sub_manager.Base.{
  ==_iff, ℕ, ◌≡◌, refl, Bool, true, false, not, ◌||◌, ◌==◌, some, List, [], ◌∷◌, Text, codes,
  text_eq, has_prefix, exists, find, arith, Bool-cases, inl, inr,
}
use sub_manager.Base.Search.{find-Unique}
use sub_manager.Store.Valid.{IsValid}
use sub_manager.Store.Counts.{subscription_row}
use sub_manager.Clock.{Time}
use sub_manager.Helpers.{Client, detect_client, normalize_content}
use sub_manager.Store
use sub_manager.Store.{
  Db, SubscriptionRow, Subscription, StoredFile, Result, StoreError, ok, err, is_file,
  scan_subscription,
}
use sub_manager.Store.Counting.{access_atomic}
use sub_manager.Public.{
  PublicReply, not_found, server_error, encoded, file_sent, sent, record_reply, public_subscription,
  public_file_subscription, send_file, serve, truncate_bytes, user_agent_limit,
}

-- The row that a search finds is there for any other test that it meets.
pub exists-find {ℓ} :
    {A : Type ℓ} (test p : A → Bool) (xs : List A) (x : A)
    → find test xs ≡ some x
    → p x ≡ true
    → exists p xs ≡ true
exists-find test p [] x h k = absurd (ground arith)
exists-find test p (y ∷ xs) x h k = ground (arith, exists-find test p xs x)

-- The row that is found by its path is the one that is found by its id.
pub row_by_id :
    (d : Db) (row : SubscriptionRow) (test : SubscriptionRow → Bool)
    → IsValid d
    → find test d.subscriptions ≡ some row
    → subscription_row row.id d ≡ some row
row_by_id d row test v found =
    find-Unique (λ s. s.id) test (λ s. s.id == row.id) row ((==_iff row.id row.id).1 refl)
      (λ s. (==_iff s.id row.id).0) d.subscriptions v.subs.ids found

-- Whether the reply has status 200.
abbrev pub is_ok : PublicReply → Bool
is_ok not_found = false
is_ok server_error = false
is_ok (encoded s) = true
is_ok (file_sent f s b) = true

module _ (client_name : Client → Text) (opens : Text → Bool) where
  record_reply_failed :
      (sub : Subscription) (file : ℕ) (ip agent method : Text) (now : Time) (d : Db)
      (reply : PublicReply)
      → is_ok reply ≡ true
      → is_ok (record_reply client_name opens sub file ip agent method now d reply).0 ≡ false
      → (record_reply client_name opens sub file ip agent method now d reply).1 ≡ d
  record_reply_failed sub file ip agent method now d reply good h =
      go
        (Store.record_access sub file ip (client_name (detect_client agent)) agent method 200 now d)
        (access_atomic sub file ip (client_name (detect_client agent)) agent method 200 now d) h
    where
      go :
          (r : Result (Unit {0}) × Db)
          → ((e : StoreError) → r.0 ≡ err e → r.1 ≡ d)
          → is_ok (sent client_name opens reply r).0 ≡ false
          → (sent client_name opens reply r).1 ≡ d
      go (ok u, d') atomic k = absurd (ground arith)
      go (err e, d') atomic k = atomic e refl

  file_failed :
      (sub : Subscription) (ip agent method : Text) (now : Time) (d : Db)
      → is_ok (public_file_subscription client_name opens sub ip agent method now d).0 ≡ false
      → (public_file_subscription client_name opens sub ip agent method now d).1 ≡ d
  unfolding public_file_subscription
  file_failed sub ip agent method now d h = elim (Bool-cases (sub.file_id == 0)) [
    | inl no_file ↦ rw no_file refl
    | inr has ↦ rw has (send_failed (Store.file_by_id sub.file_id d) (rw has at h))
  ]
    where
      send_failed :
          (r : Result StoredFile)
          → is_ok (send_file client_name opens sub ip agent method now d r).0 ≡ false
          → (send_file client_name opens sub ip agent method now d r).1 ≡ d
      send_failed (err e) k = refl
      send_failed (ok file) k = elim (Bool-cases (opens file.storage_key)) [
        | inr closed ↦ rw closed refl
        | inl there ↦ elim (Bool-cases (text_eq method (codes "GET"))) [
          | inl get ↦
              rw (there, get)
                (record_reply_failed sub file.id ip agent method now d
                  (file_sent file sub.download_name (not (text_eq method (codes "HEAD")))) refl
                  (rw (there, get) at k))
          | inr other ↦ rw (there, other) refl
        ]
      ]

  -- A request that is not answered with 200 changes nothing, neither counts nor logs: not where the
  -- subscription is unknown or disabled, nor where its file is missing, nor where recording fails.
  pub unserved_unchanged :
      (path ip user_agent method : Text) (now : Time) (d : Db)
      → is_ok (public_subscription client_name opens path ip user_agent method now d).0 ≡ false
      → (public_subscription client_name opens path ip user_agent method now d).1 ≡ d
  unfolding public_subscription
  unserved_unchanged path ip user_agent method now d h =
      elim (Bool-cases (text_eq path (codes "/") || has_prefix path (codes "/admin"))) [
        | inl hidden ↦ rw hidden refl
        | inr seen ↦ rw seen (serve_failed (Store.subscription_by_path path d) (rw seen at h))
      ]
    where
      serve_failed :
          (r : Result Subscription)
          → let agent = truncate_bytes user_agent_limit user_agent in
            is_ok (serve client_name opens ip agent method now d r).0 ≡ false
            → (serve client_name opens ip agent method now d r).1 ≡ d
      serve_failed (err e) k = refl
      serve_failed (ok sub) k = elim (Bool-cases (is_file sub.kind)) [
        | inl file ↦ rw file (
            file_failed sub ip (truncate_bytes user_agent_limit user_agent) method now d
              (rw file at k))
        | inr text ↦ rw text (
            record_reply_failed sub 0 ip (truncate_bytes user_agent_limit user_agent) method now d
              (encoded (normalize_content sub.content)) refl (rw text at k))
      ]
