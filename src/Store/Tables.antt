-- ===== src/Store/Tables.antt =====
-- The tables of internal/app/store.go (`migrate`), their rows, and the SQL statements on them. A
-- table is the list of its rows, in the order of insertion. A statement checks the constraints that
-- SQLite checks for it: UNIQUE on inserted and changed values, the foreign keys with their ON DELETE
-- clauses. The engine itself is taken to be reliable. A column that holds a time keeps the instant;
-- SQL compares the texts that `dbTime` makes of it.
use sub_manager.Base.{
  ℕ, ◌==◌, Bool, true, false, not, Option, none, some, List, Text, exists, if◌then◌else◌,
}
use sub_manager.Clock.{Time}

pub data SubscriptionType : Type 0 where
  text_subscription file_subscription : SubscriptionType

abbrev pub is_file : SubscriptionType → Bool
is_file text_subscription = false
is_file file_subscription = true

pub record SettingsRow : Type 0 where
  pub password_hash : Text
  pub must_change : Bool
  pub session_version : ℕ
  pub log_retention_days : ℕ
  pub trusted_proxies : Text

pub record SessionRow : Type 0 where
  pub token_hash : Text
  pub csrf_token : Text
  pub version : ℕ
  pub expires_at : Time
  pub created_at : Time

pub record SubscriptionRow : Type 0 where
  pub id : ℕ
  pub name : Text
  pub path : Text
  pub content : Text
  pub kind : SubscriptionType
  pub file_id : Option ℕ
  pub download_name : Text
  pub enabled : Bool
  pub fetch_count : ℕ
  pub current_fetch_count : ℕ
  pub file_revision : ℕ
  pub last_fetched_at : Option Time
  pub last_fetched_ip : Text
  pub created_at : Time
  pub updated_at : Time

pub record FileRow : Type 0 where
  pub id : ℕ
  pub md5 : Text
  pub sha256 : Text
  pub size : ℕ
  pub content_type : Text
  pub storage_key : Text
  pub original_name : Text
  pub download_count : ℕ
  pub last_downloaded_at : Option Time
  pub last_downloaded_ip : Text
  pub created_at : Time
  pub updated_at : Time

pub record StatRow : Type 0 where
  pub file_id : ℕ
  pub subscription_id : ℕ
  pub download_count : ℕ
  pub last_downloaded_at : Time
  pub last_downloaded_ip : Text

pub record LogRow : Type 0 where
  pub id : ℕ
  pub subscription_id : ℕ
  pub file_id : Option ℕ
  pub requested_at : Time
  pub client_ip : Text
  pub client_name : Text
  pub user_agent : Text
  pub method : Text
  pub status_code : ℕ

-- The `last_` fields are the AUTOINCREMENT counters.
pub record Db : Type 0 where
  pub settings : SettingsRow
  pub sessions : List SessionRow
  pub subscriptions : List SubscriptionRow
  pub last_subscription : ℕ
  pub files : List FileRow
  pub last_file : ℕ
  pub stats : List StatRow
  pub logs : List LogRow
  pub last_log : ℕ

pub data StoreError : Type 0 where
  no_rows unique_failed foreign_key_failed no_file_associations none_selected batch_mismatch :
      StoreError

pub data Result {ℓ} (A : Type ℓ) : Type ℓ where
  ok : A → Result A
  err : StoreError → Result A

-- What a method of `Store` does to the database, and what it returns.
abbrev pub Exec : Type 0 → Type 0
Exec A = Db → Result A × Db

abbrev pub continue : {A B : Type 0} → Result A → (A → Exec B) → Exec B
continue (ok a) f d = f a d
continue (err e) f d = (err e, d)

infixl 10 ◌>>=◌ ◌>>◌
abbrev pub ◌>>=◌ : {A B : Type 0} → Exec A → (A → Exec B) → Exec B
◌>>=◌ m f d = let (r, d') = m d in continue r f d'

abbrev pub ◌>>◌ : {A B : Type 0} → Exec A → Exec B → Exec B
m >> k = m >>= λ _. k

abbrev pub pure : {A : Type 0} → A → Exec A
pure a d = (ok a, d)

abbrev pub raise : {A : Type 0} → StoreError → Exec A
raise e d = (err e, d)

abbrev pub raise_if : Bool → StoreError → Exec (Unit {0})
raise_if b e d = (if b then err e else ok tt, d)

abbrev pub commit_or_rollback : {A : Type 0} → Db → Result A × Db → Result A × Db
commit_or_rollback d (ok a, d') = (ok a, d')
commit_or_rollback d (err e, d') = (err e, d)

-- `BeginTx`, the body, and `Commit`, with the deferred `Rollback` where the body returns an error.
abbrev pub transaction : {A : Type 0} → Exec A → Exec A
transaction m d = commit_or_rollback d (m d)

-- `expectOne`
unfoldable pub expect_one : ℕ → Exec (Unit {0})
expect_one count = raise_if (not (count == 1)) no_rows

abbrev pub opt_eq : Option ℕ → ℕ → Bool
opt_eq none k = false
opt_eq (some j) k = j == k

abbrev pub has_file : ℕ → List FileRow → Bool
has_file k fs = exists (λ f. f.id == k) fs

abbrev pub has_subscription : ℕ → List SubscriptionRow → Bool
has_subscription k ss = exists (λ s. s.id == k) ss

abbrev pub uses_file : ℕ → List SubscriptionRow → Bool
uses_file k ss = exists (λ s. opt_eq s.file_id k) ss

-- A reference that is not NULL names a row of `files`.
abbrev pub file_ref_ok : Option ℕ → List FileRow → Bool
file_ref_ok none fs = true
file_ref_ok (some k) fs = has_file k fs
