-- ===== src/Public.antt =====
-- The public route of the site: `publicSubscription` of internal/app/handlers.go and
-- `publicFileSubscription` of internal/app/handlers_files.go. The files directory is a test on
-- storage keys: whether the blob can be opened and its size read. The base64 encoding of a text stays
-- symbolic (`encoded`). The row of the subscription, that of the file and the recording are on one
-- state here; Store/Counting shows what calls between them do to the counts.
pub mod Served
pub mod Texts
pub mod Shadowed
pub mod Delivered
pub mod Tests
use sub_manager.Base.{
  ℕ, ◌+◌, ◌-◌, ◌==◌, ltb, leb, Bool, true, false, not, ◌&&◌, ◌||◌, Option, none, some, List, [],
  ◌∷◌, Text, codes, text_eq, utf8_width, byte_len, has_prefix, if◌then◌else◌,
}
use sub_manager.Clock.{Time}
use sub_manager.Helpers.{Client, detect_client, normalize_content}
use sub_manager.Store
use sub_manager.Store.{Db, Subscription, StoredFile, Result, ok, err, is_file}

pub data PublicReply : Type 0 where
  not_found server_error : PublicReply
  -- 200 with the base64 encoding of a text
  encoded : Text → PublicReply
  -- 200 with the headers of a file, and its content unless only the head was asked for
  file_sent : StoredFile → Text → Bool → PublicReply

-- The longest prefix of whole characters within so many bytes.
unfoldable pub truncate_bytes : ℕ → Text → Text
truncate_bytes n [] = []
truncate_bytes n (c ∷ s) =
    let rest = truncate_bytes (n - utf8_width c) s in if leb (utf8_width c) n then c ∷ rest else []

abbrev pub user_agent_limit : ℕ
user_agent_limit = 1024

module _ (client_name : Client → Text) (opens : Text → Bool) where
  abbrev pub sent : PublicReply → Result (Unit {0}) × Db → PublicReply × Db
  sent reply (ok u, d) = (reply, d)
  sent reply (err e, d) = (server_error, d)

  abbrev pub record_reply :
      Subscription → ℕ → Text → Text → Text → Time → Db → PublicReply → PublicReply × Db
  record_reply sub file ip agent method now d reply =
      sent reply
        (Store.record_access sub file ip (client_name (detect_client agent)) agent method 200 now d)

  abbrev pub send_file :
      Subscription → Text → Text → Text → Time → Db → Result StoredFile → PublicReply × Db
  send_file sub ip agent method now d (err e) = (not_found, d)
  send_file sub ip agent method now d (ok file) =
      if not (opens file.storage_key)
      then (server_error, d)
      else if text_eq method (codes "GET")
      then record_reply sub file.id ip agent method now d
          (file_sent file sub.download_name (not (text_eq method (codes "HEAD"))))
      else (file_sent file sub.download_name (not (text_eq method (codes "HEAD"))), d)

  unfoldable pub public_file_subscription :
      Subscription → Text → Text → Text → Time → Db → PublicReply × Db
  public_file_subscription sub ip agent method now d =
      if sub.file_id == 0
      then (not_found, d)
      else send_file sub ip agent method now d (Store.file_by_id sub.file_id d)

  abbrev pub serve : Text → Text → Text → Time → Db → Result Subscription → PublicReply × Db
  serve ip agent method now d (err e) = (not_found, d)
  serve ip agent method now d (ok sub) =
      if is_file sub.kind
      then public_file_subscription sub ip agent method now d
      else record_reply sub 0 ip agent method now d (encoded (normalize_content sub.content))

  unfoldable pub public_subscription : Text → Text → Text → Text → Time → Db → PublicReply × Db
  public_subscription path ip user_agent method now d =
      if text_eq path (codes "/") || has_prefix path (codes "/admin")
      then (not_found, d)
      else serve ip (truncate_bytes user_agent_limit user_agent) method now d
          (Store.subscription_by_path path d)
