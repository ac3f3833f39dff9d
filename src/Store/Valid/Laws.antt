-- ===== src/Store/Valid/Laws.antt =====
-- What a property of the database must satisfy for the methods of `Store` to keep it: one law for
-- each statement that a method makes. `GoodPath` and `GoodContent` are what the callers see to in the
-- paths and the contents that they give.
use sub_manager.Base.{ℕ, Bool, not, Text, ◌==◌, ◌&&◌, List}
use sub_manager.Clock.{Time}
use sub_manager.Store
use sub_manager.Store.{SubscriptionRow, StatRow, LogRow, Db, is_file, Exec}
use sub_manager.Store.Valid.Defs.{Keeps}

-- The laws of the statements that `RecordAccess` makes.
pub record AccessLaws (P : Db → Type 0) : Type 0 where
  pub fetch_counted :
      (id file revision : ℕ) (now : Time) (ip : Text)
      → Keeps P
          (Store.update_subscriptions (λ s. s.id == id) (Store.count_fetch file revision now ip))
  pub download_counted :
      (file : ℕ) (now : Time) (ip : Text)
      → Keeps P (Store.update_file file (Store.count_download now ip))
  pub stat_counted :
      (file sub : ℕ) (now : Time) (ip : Text)
      → Keeps P (Store.upsert_stat (Store.first_stat file sub now ip) (Store.count_stat now ip))
  pub log_inserted : (make : ℕ → LogRow) → Keeps P (Store.insert_log make)

pub record RowLaws (P : Db → Type 0) (GoodPath GoodContent : Text → Type 0) : Type 0 where
  pub access : AccessLaws P
  pub text_created :
      (name path content : Text) (enabled : Bool) (now : Time)
      → GoodPath path
      → GoodContent content
      → Keeps P (Store.create_subscription name path content enabled now)
  pub file_subscription_created :
      (name path : Text) (file : ℕ) (download : Text) (enabled : Bool) (now : Time)
      → GoodPath path
      → Keeps P (Store.create_file_subscription name path file download enabled now)
  pub text_set :
      (id : ℕ) (name path content : Text) (enabled : Bool) (now : Time)
      → GoodPath path
      → GoodContent content
      → Keeps P (
          Store.update_subscription_path id path
            (λ s. not (is_file s.kind))
            (Store.set_text name path content enabled now))
  pub metadata_set :
      (id : ℕ) (name path : Text) (enabled : Bool) (now : Time)
      → GoodPath path
      → Keeps P (
          Store.update_subscription_path id path
            (Store.may_be enabled)
            (Store.set_file_metadata name path enabled now))
  pub file_set :
      (id file : ℕ) (name : Text) (now : Time)
      → Keeps P (
          Store.update_subscription_file file
            (λ s. s.id == id && is_file s.kind)
            (Store.set_file file name now))
  pub file_moved :
      (old new : ℕ) (name : Text) (now : Time)
      → Keeps P
          (Store.update_subscription_file new (Store.linked_to old) (Store.move_file new name now))
  pub file_cleared :
      (id : ℕ) (now : Time)
      → Keeps P
          (Store.update_subscriptions (λ s. s.id == id && is_file s.kind) (Store.clear_file now))
  pub enabled_set :
      (id : ℕ) (enabled : Bool) (now : Time)
      → Keeps P (Store.update_subscriptions (λ s. s.id == id) (Store.set_enabled enabled now))
  pub content_set :
      (ids : List ℕ) (content : Text) (now : Time)
      → GoodContent content
      → Keeps P
          (Store.update_subscriptions (Store.selected_text ids) (Store.set_content content now))
  pub row_deleted : (id : ℕ) → Keeps P (Store.delete_subscription_row id)
  pub file_deleted : (id : ℕ) → Keeps P (Store.delete_unused_file id)
  pub logs_deleted : (p : LogRow → Bool) → Keeps P (Store.delete_logs p)
  -- The settings and the sessions are not read.
  pub settings_free :
      (d : Db) (s : Store.SettingsRow) (l : List Store.SessionRow)
      → P d
      → P (record d { settings = s; sessions = l })

module _ (P Q : Db → Type 0) where
  abbrev pub Both : Db → Type 0
  Both d = P d × Q d

  pub Keeps-Both : {A : Type 0} (m : Exec A) → Keeps P m → Keeps Q m → Keeps Both m
  Keeps-Both m k l = record { at = λ d h. (k.at d h.0, l.at d h.1) }

  Both-AccessLaws : AccessLaws P → AccessLaws Q → AccessLaws Both
  Both-AccessLaws p q = record {
    fetch_counted = λ id file revision now ip.
        Keeps-Both _ (p.fetch_counted id file revision now ip)
          (q.fetch_counted id file revision now ip);
    download_counted = λ file now ip.
        Keeps-Both _ (p.download_counted file now ip) (q.download_counted file now ip);
    stat_counted = λ file sub now ip.
        Keeps-Both _ (p.stat_counted file sub now ip) (q.stat_counted file sub now ip);
    log_inserted = λ make. Keeps-Both _ (p.log_inserted make) (q.log_inserted make);
  }

  -- Two properties that the methods keep are kept together.
  pub Both-RowLaws :
      {GoodPath GoodContent : Text → Type 0}
      → RowLaws P GoodPath GoodContent
      → RowLaws Q GoodPath GoodContent
      → RowLaws Both GoodPath GoodContent
  Both-RowLaws {GoodPath} {GoodContent} p q = record {
    access = Both-AccessLaws p.access q.access;
    text_created = λ name path content enabled now good nice.
        Keeps-Both _ (p.text_created name path content enabled now good nice)
          (q.text_created name path content enabled now good nice);
    file_subscription_created = λ name path file download enabled now good.
        Keeps-Both _ (p.file_subscription_created name path file download enabled now good)
          (q.file_subscription_created name path file download enabled now good);
    text_set = λ id name path content enabled now good nice.
        Keeps-Both _ (p.text_set id name path content enabled now good nice)
          (q.text_set id name path content enabled now good nice);
    metadata_set = λ id name path enabled now good.
        Keeps-Both _ (p.metadata_set id name path enabled now good)
          (q.metadata_set id name path enabled now good);
    file_set = λ id file name now.
        Keeps-Both _ (p.file_set id file name now) (q.file_set id file name now);
    file_moved = λ old new name now.
        Keeps-Both _ (p.file_moved old new name now) (q.file_moved old new name now);
    file_cleared = λ id now. Keeps-Both _ (p.file_cleared id now) (q.file_cleared id now);
    enabled_set = λ id enabled now.
        Keeps-Both _ (p.enabled_set id enabled now) (q.enabled_set id enabled now);
    content_set = λ ids content now nice.
        Keeps-Both _ (p.content_set ids content now nice) (q.content_set ids content now nice);
    row_deleted = λ id. Keeps-Both _ (p.row_deleted id) (q.row_deleted id);
    file_deleted = λ id. Keeps-Both _ (p.file_deleted id) (q.file_deleted id);
    logs_deleted = λ r. Keeps-Both _ (p.logs_deleted r) (q.logs_deleted r);
    settings_free = λ d s l h. (p.settings_free d s l h.0, q.settings_free d s l h.1);
  }

abbrev pub Whatever : Text → Type 0
Whatever t = Unit

-- The laws for callers that give whatever arguments.
pub record StatementLaws (P : Db → Type 0) : Type 0 where
  pub rows : RowLaws P Whatever Whatever
  pub file_inserted :
      (md5 sha : Text) (size : ℕ) (content_type key name : Text) (now : Time)
      → Keeps P (Store.insert_file (Store.new_file md5 sha size content_type key name now))
