-- ===== src/Panel/Kept.antt =====
-- A property of the database that the statements of `Store` keep, for good paths and good contents, is kept
-- by the handlers that use the database alone: they give no others.
use sub_manager.Base.{
  ℕ, ◌==◌, ◌≡◌, refl, Bool, true, false, not, ◌&&◌, ◌||◌, ltb, Option, none, some, List, [], Text,
  length, is_empty, byte_len, arith, if◌then◌else◌, Bool-cases, inl, inr,
}
use sub_manager.Clock.{Time}
use sub_manager.Helpers.{ValidationError, validate_subscription, normalize_content, max_content}
use sub_manager.Helpers.Normal.{normalize_content_idem}
use sub_manager.Helpers.Accepted.{GoodPath, GoodContent, metadata_accepted, subscription_accepted}
use sub_manager.Store
use sub_manager.Store.{Db, Exec, Result, ok, err, Subscription, StoredFile, is_file}
use sub_manager.Store.Valid.{
  Keeps, RowLaws, update_subscription-Keeps, update_file_subscription-Keeps,
  delete_subscription-Keeps, set_subscription_enabled-Keeps, batch_update_content-Keeps,
  clear_access_logs-Keeps,
}
use sub_manager.Web.{SubscriptionForm, name_or_path, parse_id}
use sub_manager.Admin.{Response}
use sub_manager.Panel

-- A handler of the database keeps a property.
pub record HandlerKeeps (P : Db → Type 0) (h : Panel.DbHandler) : Type 0 where
  pub at : (d : Db) → P d → P (h d).1

module _ {P : Db → Type 0} where
  pub keeps-respond :
      {A : Type 0} (good bad : Response) (m : Exec A)
      → Keeps P m
      → HandlerKeeps P (λ d. Panel.respond good bad (m d))
  keeps-respond {A} good bad m k = record { at = λ d h. go (m d) (k.at d h) }
    where
      go : (x : Result A × Db) → P x.1 → P (Panel.respond good bad x).1
      go (ok a, d) h = h
      go (err e, d) h = h

  keeps-with_id :
      (raw : Option ℕ) (handler : ℕ → Panel.DbHandler)
      → ((id : ℕ) → HandlerKeeps P (handler id))
      → HandlerKeeps P (Panel.with_id raw handler)
  keeps-with_id none handler k = record { at = λ d h. h }
  keeps-with_id (some id) handler k = k id

  pub keeps-load_subscription :
      (raw : Text) (handler : Subscription → Panel.DbHandler)
      → ((sub : Subscription) → HandlerKeeps P (handler sub))
      → HandlerKeeps P (Panel.load_subscription raw handler)
  unfolding Panel.load_subscription
  keeps-load_subscription raw handler k =
      keeps-with_id (parse_id raw)
        (λ id d. Panel.if_loaded handler d (Store.subscription_by_id id d))
        (λ id. record { at = λ d h. go d h (Store.subscription_by_id id d) })
    where
      go : (d : Db) → P d → (r : Result Subscription) → P (Panel.if_loaded handler d r).1
      go d h (err e) = h
      go d h (ok sub) = (k sub).at d h

  pub keeps-if :
      (b : Bool) (h k : Panel.DbHandler)
      → HandlerKeeps P h
      → HandlerKeeps P k
      → HandlerKeeps P (λ d. if b then h d else k d)
  keeps-if true h k p q = p
  keeps-if false h k p q = q

module _ {P : Db → Type 0} (laws : RowLaws P GoodPath GoodContent) where
  pub create_text-HandlerKeeps :
      (form : SubscriptionForm) (now : Time) → HandlerKeeps P (Panel.create_text form now)
  unfolding Panel.create_text
  create_text-HandlerKeeps form now =
      go (validate_subscription form.name form.path form.content)
        (subscription_accepted form.name form.path form.content)
    where
      go :
          (e : Option ValidationError)
          → (e ≡ none → GoodPath form.path × GoodContent (normalize_content form.content))
          → HandlerKeeps P (Panel.create_checked form now e)
      go (some e) g = record { at = λ d h. h }
      go none g =
          keeps-respond _ _
            (Store.create_subscription (name_or_path form.name form.path) form.path
              (normalize_content form.content) form.enabled now)
            (laws.text_created (name_or_path form.name form.path) form.path
              (normalize_content form.content) form.enabled now (g refl).0 (g refl).1)

  -- What passes `update_refused` is good.
  update_accepted :
      (form : SubscriptionForm) (existing : Subscription)
      → Panel.update_refused form existing ≡ false
      → GoodPath form.path
        × (is_file existing.kind ≡ false → GoodContent (normalize_content form.content))
  unfolding Panel.update_refused
  update_accepted form existing h = elim (Bool-cases (is_file existing.kind)) [
    | inl file ↦
        (metadata_accepted form.name form.path (ground arith), λ text. absurd (ground arith))
    | inr text ↦
        let (path, content) =
          subscription_accepted form.name form.path form.content (ground arith) in
        (path, λ t. content)
  ]

  update_loaded-HandlerKeeps :
      (id : ℕ) (form : SubscriptionForm) (now : Time) (existing : Subscription)
      → HandlerKeeps P (λ d. Panel.update_loaded id form now d (ok existing))
  update_loaded-HandlerKeeps id form now existing =
      elim (Bool-cases (Panel.update_refused form existing)) [
        | inl refused ↦ record { at = λ d h. rw refused h }
        | inr accepted ↦
            let (path, content) = update_accepted form existing accepted in
            elim (Bool-cases (is_file existing.kind)) [
              | inl file ↦ record {
                at = λ d h.
                    rw (accepted, file)
                      ((keeps-respond _ _
                          (Store.update_file_subscription id (name_or_path form.name form.path)
                            form.path form.enabled now)
                          (update_file_subscription-Keeps laws id _ form.path form.enabled now
                            path)).at
                        d h);
              }
              | inr text ↦ record {
                at = λ d h.
                    rw (accepted, text)
                      ((keeps-respond _ _
                          (Store.update_subscription id (name_or_path form.name form.path) form.path
                            (normalize_content form.content) form.enabled now)
                          (update_subscription-Keeps laws id _ form.path _ form.enabled now path
                            (content text))).at
                        d h);
              }
            ]
      ]

  pub update_subscription-HandlerKeeps :
      (raw : Text) (form : SubscriptionForm) (now : Time)
      → HandlerKeeps P (Panel.handle_update_subscription raw form now)
  unfolding Panel.handle_update_subscription
  update_subscription-HandlerKeeps raw form now =
      keeps-with_id (parse_id raw)
        (λ id d. Panel.update_loaded id form now d (Store.subscription_by_id id d))
        (λ id. record { at = λ d h. go id d h (Store.subscription_by_id id d) })
    where
      go :
          (id : ℕ) (d : Db)
          → P d
          → (r : Result Subscription) → P (Panel.update_loaded id form now d r).1
      go id d h (err e) = h
      go id d h (ok existing) = (update_loaded-HandlerKeeps id form now existing).at d h

  pub delete_subscription-HandlerKeeps :
      (raw : Text) → HandlerKeeps P (Panel.handle_delete_subscription raw)
  unfolding Panel.handle_delete_subscription
  delete_subscription-HandlerKeeps raw =
      keeps-with_id (parse_id raw)
        (λ id d. Panel.delete_loaded id d (Store.subscription_by_id id d))
        (λ id. record { at = λ d h. go id d h (Store.subscription_by_id id d) })
    where
      go : (id : ℕ) (d : Db) → P d → (r : Result Subscription) → P (Panel.delete_loaded id d r).1
      go id d h (err e) = h
      go id d h (ok sub) =
          (keeps-respond _ _ (Store.delete_subscription id) (delete_subscription-Keeps laws id)).at
            d h

  pub toggle_subscription-HandlerKeeps :
      (raw : Text) (now : Time) → HandlerKeeps P (Panel.toggle_subscription raw now)
  unfolding Panel.toggle_subscription
  toggle_subscription-HandlerKeeps raw now =
      keeps-load_subscription raw (Panel.toggle_loaded now) (λ sub.
        keeps-if (is_file sub.kind && not sub.enabled && sub.file_id == 0) _ _
          (record { at = λ d h. h })
          (keeps-respond _ _ (Store.set_subscription_enabled sub.id (not sub.enabled) now)
            (set_subscription_enabled-Keeps laws sub.id (not sub.enabled) now)))

  batch_answer-Keeps : (ids : List ℕ) (x : Result ℕ × Db) → P x.1 → P (Panel.batch_answer ids x).1
  batch_answer-Keeps ids (err e, d) h = h
  batch_answer-Keeps ids (ok n, d) h = ground arith

  batch_ids-HandlerKeeps :
      (content : Text) (now : Time) (ids : Option (List ℕ))
      → normalize_content content ≡ content
      → HandlerKeeps P (λ d. Panel.batch_ids content now d ids)
  batch_ids-HandlerKeeps content now none normal = record { at = λ d h. h }
  batch_ids-HandlerKeeps content now (some ids) normal =
      elim (Bool-cases (is_empty content || ltb max_content (byte_len content))) [
        | inl refused ↦ record { at = λ d h. rw refused h }
        | inr accepted ↦
            let good : GoodContent content = (normal, ground arith, ground arith) in
            record {
              at = λ d h. rw accepted (
                  batch_answer-Keeps ids (Store.batch_update_content ids content now d)
                    ((batch_update_content-Keeps laws ids content now good).at d h));
            }
      ]

  pub batch_content-HandlerKeeps :
      (raws : List Text) (content : Text) (now : Time)
      → HandlerKeeps P (Panel.batch_content raws content now)
  unfolding Panel.batch_content
  batch_content-HandlerKeeps raws content now =
      keeps-if (length raws == 0 || ltb 5000 (length raws)) _ _ (record { at = λ d h. h })
        (batch_ids-HandlerKeeps (normalize_content content) now (Panel.collect_ids raws [])
          (normalize_content_idem content).1)

  pub clear_logs-HandlerKeeps :
      (raw : Text) (logs_url : ℕ → Text)
      → HandlerKeeps P (Panel.clear_subscription_logs raw logs_url)
  unfolding Panel.clear_subscription_logs
  clear_logs-HandlerKeeps raw logs_url =
      keeps-with_id (parse_id raw) _
        (λ id. keeps-respond _ _ (Store.clear_access_logs id) (clear_access_logs-Keeps laws id))
