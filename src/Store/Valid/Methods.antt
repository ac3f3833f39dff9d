-- ===== src/Store/Valid/Methods.antt =====
-- A property that every statement keeps is kept by every method of `Store`, whatever its arguments
-- are, and by every history of calls.
use sub_manager.Base.{
  ℕ, refl, Bool, not, ◌==◌, List, [], ◌∷◌, Text, ltb, length, exists, text_eq, if◌then◌else◌,
  Bool-cases, inl, inr,
}
use sub_manager.Clock.{Time}
use sub_manager.Store
use sub_manager.Store.{
  SubscriptionRow, Db, Command, Exec, ◌>>=◌, ◌>>◌, pure, raise_if, transaction, expect_one,
  Subscription, is_file,
}
use sub_manager.Store.Valid.Defs.{Keeps}
use sub_manager.Store.Valid.Rules.{
  Keeps-pure, Keeps-raise_if, Keeps-expect_one, Keeps-bind, Keeps-transaction, Keeps-if, Keeps-read,
}
use sub_manager.Store.Valid.Laws.{AccessLaws, RowLaws, Whatever, StatementLaws}

module _ {P : Db → Type 0} where
  checked : (m : Exec ℕ) → Keeps P m → Keeps P (m >>= expect_one)
  checked m k = Keeps-bind m expect_one k (λ n. Keeps-expect_one n)

module _ {P : Db → Type 0} (laws : AccessLaws P) where
  record_file-Keeps :
      (file sub : ℕ) (ip : Text) (now : Time) → Keeps P (Store.record_file file sub now ip)
  unfolding Store.record_file
  record_file-Keeps file sub ip now =
      let upsert = Store.upsert_stat (Store.first_stat file sub now ip) (Store.count_stat now ip) in
      Keeps-bind (Store.update_file file (Store.count_download now ip))
        (λ n. expect_one n >> upsert) (laws.download_counted file now ip)
        (λ m.
          Keeps-bind (expect_one m) (λ _. upsert) (Keeps-expect_one m)
            (λ _. laws.stat_counted file sub now ip))

  access_body-Keeps :
      (sub : Subscription) (file : ℕ) (ip client agent method : Text) (status : ℕ) (now : Time)
      → Keeps P (Store.access_body sub file ip client agent method status now)
  unfolding Store.access_body
  access_body-Keeps sub file ip client agent method status now =
      let served = if ltb 0 file then Store.record_file file sub.id now ip else pure tt in
      let log = Store.insert_log (Store.access_row sub.id file ip client agent method status now) in
      let p = λ (s : SubscriptionRow). s.id == sub.id in
      let f = Store.count_fetch file sub.file_revision now ip in
      Keeps-bind (Store.update_subscriptions p f) (λ n. expect_one n >> (served >> log))
        (laws.fetch_counted sub.id file sub.file_revision now ip)
        (λ n.
          Keeps-bind (expect_one n) (λ _. served >> log) (Keeps-expect_one n)
            (λ _.
              Keeps-bind served (λ _. log)
                (Keeps-if (ltb 0 file) (Store.record_file file sub.id now ip) (pure tt)
                  (record_file-Keeps file sub.id ip now) (Keeps-pure tt))
                (λ _.
                  laws.log_inserted
                    (Store.access_row sub.id file ip client agent method status now))))

  pub record_access-Keeps :
      (sub : Subscription) (file : ℕ) (ip client agent method : Text) (status : ℕ) (now : Time)
      → Keeps P (Store.record_access sub file ip client agent method status now)
  record_access-Keeps sub file ip client agent method status now =
      unfold Store.record_access in
      Keeps-transaction (Store.access_body sub file ip client agent method status now)
        (access_body-Keeps sub file ip client agent method status now)

module _ {P : Db → Type 0} {GoodPath GoodContent : Text → Type 0}
    (laws : RowLaws P GoodPath GoodContent) where
  pub update_subscription-Keeps :
      (id : ℕ) (name path content : Text) (enabled : Bool) (now : Time)
      → GoodPath path
      → GoodContent content
      → Keeps P (Store.update_subscription id name path content enabled now)
  unfolding Store.update_subscription
  update_subscription-Keeps id name path content enabled now p c =
      checked _ (laws.text_set id name path content enabled now p c)

  pub update_file_subscription-Keeps :
      (id : ℕ) (name path : Text) (enabled : Bool) (now : Time)
      → GoodPath path
      → Keeps P (Store.update_file_subscription id name path enabled now)
  unfolding Store.update_file_subscription
  update_file_subscription-Keeps id name path enabled now p =
      checked _ (laws.metadata_set id name path enabled now p)

  pub replace_subscription_file-Keeps :
      (id file : ℕ) (name : Text) (now : Time)
      → Keeps P (Store.replace_subscription_file id file name now)
  unfolding Store.replace_subscription_file
  replace_subscription_file-Keeps id file name now = checked _ (laws.file_set id file name now)

  move_associations-Keeps :
      (old new : ℕ) (name : Text) (now : Time) → Keeps P (Store.move_associations old new name now)
  unfolding Store.move_associations
  move_associations-Keeps old new name now =
      Keeps-bind
        (Store.update_subscription_file new (Store.linked_to old) (Store.move_file new name now))
        (λ n. raise_if (n == 0) Store.no_file_associations >> pure n)
        (laws.file_moved old new name now)
        (λ n.
          Keeps-bind (raise_if (n == 0) Store.no_file_associations) (λ _. pure n)
            (Keeps-raise_if (n == 0) Store.no_file_associations) (λ _. Keeps-pure n))

  pub replace_file_associations-Keeps :
      (old new : ℕ) (name : Text) (now : Time)
      → Keeps P (Store.replace_file_associations old new name now)
  unfolding Store.replace_file_associations
  replace_file_associations-Keeps old new name now =
      let move =
        Keeps-if (old == new) (pure 0) (Store.move_associations old new name now) (Keeps-pure 0)
          (move_associations-Keeps old new name now) in
      let rest = if old == new then pure 0 else Store.move_associations old new name now in
      Keeps-transaction (Store.require_file old >> (Store.require_file new >> rest)) (
        Keeps-bind (Store.require_file old) (λ _. Store.require_file new >> rest)
          (Keeps-read (Store.require_file old) (λ d. refl))
          (λ _.
            Keeps-bind (Store.require_file new) (λ _. rest)
              (Keeps-read (Store.require_file new) (λ d. refl)) (λ _. move)))

  pub detach_subscription_file-Keeps :
      (id : ℕ) (now : Time) → Keeps P (Store.detach_subscription_file id now)
  unfolding Store.detach_subscription_file
  detach_subscription_file-Keeps id now = checked _ (laws.file_cleared id now)

  pub delete_subscription-Keeps : (id : ℕ) → Keeps P (Store.delete_subscription id)
  unfolding Store.delete_subscription
  delete_subscription-Keeps id = checked _ (laws.row_deleted id)

  pub set_subscription_enabled-Keeps :
      (id : ℕ) (enabled : Bool) (now : Time)
      → Keeps P (Store.set_subscription_enabled id enabled now)
  unfolding Store.set_subscription_enabled
  set_subscription_enabled-Keeps id enabled now = checked _ (laws.enabled_set id enabled now)

  batch_body-Keeps :
      (ids : List ℕ) (content : Text) (now : Time)
      → GoodContent content
      → Keeps P (Store.batch_body ids content now)
  unfolding Store.batch_body
  batch_body-Keeps ids content now c =
      let update =
        Store.update_subscriptions (Store.selected_text ids) (Store.set_content content now) in
      let check = λ (m : ℕ). raise_if (not (m == length ids)) Store.batch_mismatch in
      Keeps-bind (Store.count_text ids)
        (λ n. raise_if (not (n == length ids)) Store.no_rows >> (update >>= λ m. check m >> pure m))
        (Keeps-read (Store.count_text ids) (λ d. refl))
        (λ n.
          Keeps-bind (raise_if (not (n == length ids)) Store.no_rows)
            (λ _. update >>= λ m. check m >> pure m)
            (Keeps-raise_if (not (n == length ids)) Store.no_rows)
            (λ _.
              Keeps-bind update (λ m. check m >> pure m) (laws.content_set ids content now c)
                (λ m.
                  Keeps-bind (check m) (λ _. pure m)
                    (Keeps-raise_if (not (m == length ids)) Store.batch_mismatch)
                    (λ _. Keeps-pure m))))

  pub batch_update_content-Keeps :
      (ids : List ℕ) (content : Text) (now : Time)
      → GoodContent content
      → Keeps P (Store.batch_update_content ids content now)
  batch_update_content-Keeps ids content now c =
      unfold Store.batch_update_content in
      Keeps-if (Store.no_ids ids) (Store.raise Store.none_selected)
        (transaction (Store.batch_body ids content now))
        (Keeps-read (Store.raise Store.none_selected) (λ d. refl))
        (Keeps-transaction (Store.batch_body ids content now) (batch_body-Keeps ids content now c))

  pub delete_file-Keeps : (id : ℕ) → Keeps P (Store.delete_file id)
  unfolding Store.delete_file
  delete_file-Keeps id = checked _ (laws.file_deleted id)

  pub cleanup_logs-Keeps : (days : ℕ) (now : Time) → Keeps P (Store.cleanup_logs days now)
  unfolding Store.cleanup_logs
  cleanup_logs-Keeps days now = Keeps-if _ _ _ (Keeps-pure 0) (laws.logs_deleted _)

  pub clear_access_logs-Keeps : (id : ℕ) → Keeps P (Store.clear_access_logs id)
  unfolding Store.clear_access_logs
  clear_access_logs-Keeps id = laws.logs_deleted _

  pub change_password-Keeps : (a : Text) → Keeps P (Store.change_password a)
  unfolding Store.change_password
  change_password-Keeps a = record { at = λ d v. laws.settings_free d _ _ v }

  pub update_settings-Keeps : (a : ℕ) (b : Text) → Keeps P (Store.update_settings a b)
  unfolding Store.update_settings
  update_settings-Keeps a b = record { at = λ d v. laws.settings_free d _ _ v }

  pub purge_expired_sessions-Keeps : (now : Time) → Keeps P (Store.purge_expired_sessions now)
  unfolding Store.purge_expired_sessions
  purge_expired_sessions-Keeps now = record { at = λ d v. laws.settings_free d _ _ v }

  module _ (hash : Text → Text) where
    pub delete_session-Keeps : (a : Text) → Keeps P (Store.delete_session hash a)
    unfolding Store.delete_session
    delete_session-Keeps a = record { at = λ d v. laws.settings_free d _ _ v }

    pub create_session-Keeps :
        (a b : Text) (c : ℕ) (e now : Time) → Keeps P (Store.create_session hash a b c e now)
    unfolding Store.create_session
    create_session-Keeps a b c e now = record {
      at = λ d v. elim (Bool-cases (exists (λ s. text_eq s.token_hash (hash a)) d.sessions)) [
        | inl taken ↦ rw taken v
        | inr new ↦ rw new (laws.settings_free d _ _ v)
      ];
    }

pub create_file-Keeps :
    {P : Db → Type 0} (md5 sha : Text) (size : ℕ) (content_type key name : Text) (now : Time)
    → Keeps P (Store.insert_file (Store.new_file md5 sha size content_type key name now))
    → Keeps P (Store.create_file md5 sha size content_type key name now)
unfolding Store.create_file
create_file-Keeps md5 sha size content_type key name now law =
    Keeps-bind _ _ law (λ id. Keeps-read _ (λ d. refl))

module _ {P : Db → Type 0} (laws : StatementLaws P) where
  rows : RowLaws P Whatever Whatever
  rows = laws.rows

  pub run-Keeps :
      (hash : Text → Text) (c : Command) (now : Time) (db : Db) → P db → P (Store.run hash c now db)
  unfolding Store.run
  run-Keeps hash (Command.password_change a) now db v = (change_password-Keeps rows a).at db v
  run-Keeps hash (Command.settings_update a b) now db v = (update_settings-Keeps rows a b).at db v
  run-Keeps hash (Command.session_create a b c d) now db v =
      (create_session-Keeps rows hash a b c d now).at db v
  run-Keeps hash (Command.session_delete a) now db v = (delete_session-Keeps rows hash a).at db v
  run-Keeps hash Command.session_purge now db v = (purge_expired_sessions-Keeps rows now).at db v
  run-Keeps hash (Command.subscription_create a b c d) now db v =
      (rows.text_created a b c d now tt tt).at db v
  run-Keeps hash (Command.file_subscription_create a b c d e) now db v =
      (rows.file_subscription_created a b c d e now tt).at db v
  run-Keeps hash (Command.subscription_update a b c d e) now db v =
      (update_subscription-Keeps rows a b c d e now tt tt).at db v
  run-Keeps hash (Command.file_subscription_update a b c d) now db v =
      (update_file_subscription-Keeps rows a b c d now tt).at db v
  run-Keeps hash (Command.file_replace a b c) now db v =
      (replace_subscription_file-Keeps rows a b c now).at db v
  run-Keeps hash (Command.associations_replace a b c) now db v =
      (replace_file_associations-Keeps rows a b c now).at db v
  run-Keeps hash (Command.file_detach a) now db v =
      (detach_subscription_file-Keeps rows a now).at db v
  run-Keeps hash (Command.subscription_delete a) now db v =
      (delete_subscription-Keeps rows a).at db v
  run-Keeps hash (Command.enabled_set a b) now db v =
      (set_subscription_enabled-Keeps rows a b now).at db v
  run-Keeps hash (Command.batch_update a b) now db v =
      (batch_update_content-Keeps rows a b now tt).at db v
  run-Keeps hash (Command.access_record a b c d e f g) now db v =
      (record_access-Keeps rows.access a b c d e f g now).at db v
  run-Keeps hash (Command.file_create a b c d e f) now db v =
      (create_file-Keeps a b c d e f now (laws.file_inserted a b c d e f now)).at db v
  run-Keeps hash (Command.file_delete a) now db v = (delete_file-Keeps rows a).at db v
  run-Keeps hash (Command.logs_clear a) now db v = (clear_access_logs-Keeps rows a).at db v
  run-Keeps hash (Command.logs_cleanup a) now db v = (cleanup_logs-Keeps rows a now).at db v

  pub run_all-Keeps :
      (hash : Text → Text) (cs : List (Command × Time)) (db : Db)
      → P db
      → P (Store.run_all hash cs db)
  unfolding Store.run_all
  run_all-Keeps hash [] db v = v
  run_all-Keeps hash ((c, now) ∷ cs) db v =
      run_all-Keeps hash cs (Store.run hash c now db) (run-Keeps hash c now db v)
