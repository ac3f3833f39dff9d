-- ===== src/Panel/Subscriptions.antt =====
-- The handlers of handlers.go on one or several subscriptions.
use sub_manager.Base.{
  ℕ, ◌==◌, ltb, Bool, true, false, not, ◌&&◌, ◌||◌, Option, none, some, List, [], ◌∷◌, ◌++◌, Text,
  codes, is_empty, byte_len, length, exists, if◌then◌else◌,
}
use sub_manager.Clock.{Time}
use sub_manager.Helpers.{
  ValidationError, validate_subscription, validate_subscription_metadata, normalize_content,
  max_content,
}
use sub_manager.Store
use sub_manager.Store.{
  Db, Subscription, SubscriptionType, text_subscription, file_subscription, is_file, Result,
  StoreError, ok, err, no_rows, LogPage,
}
use sub_manager.Web.{SubscriptionForm, name_or_path, parse_id, subscription_list_url}
use sub_manager.Admin.{Response, redirect, page, error_page}

-- What a handler that only uses the database does.
abbrev pub DbHandler : Type 0
DbHandler = Db → Response × Db

abbrev pub form_page : Response
form_page = page 400 (codes "subscription_form")

-- The redirect of a method that succeeded, or another response.
abbrev pub respond : {A : Type 0} → Response → Response → Result A × Db → Response × Db
respond good bad (ok a, d) = (good, d)
respond good bad (err e, d) = (bad, d)

-- `createSubscription` for a text subscription.
abbrev pub create_checked : SubscriptionForm → Time → Option ValidationError → DbHandler
create_checked form now (some e) d = (form_page, d)
create_checked form now none d =
    respond (redirect (subscription_list_url text_subscription (codes "created"))) form_page (
      Store.create_subscription (name_or_path form.name form.path) form.path
        (normalize_content form.content) form.enabled now d)

unfoldable pub create_text : SubscriptionForm → Time → DbHandler
create_text form now d =
    create_checked form now (validate_subscription form.name form.path form.content) d

-- The validation of `updateSubscription`, which depends on what is stored: a file subscription without a
-- file cannot be enabled.
abbrev pub needs_file : SubscriptionForm → Subscription → Option ValidationError → Bool
needs_file form existing (some e) = true
needs_file form existing none = form.enabled && existing.file_id == 0

abbrev is_error : Option ValidationError → Bool
is_error none = false
is_error (some e) = true

unfoldable pub update_refused : SubscriptionForm → Subscription → Bool
update_refused form existing =
    if is_file existing.kind
    then needs_file form existing (validate_subscription_metadata form.name form.path)
    else is_error (validate_subscription form.name form.path form.content)

abbrev pub update_loaded : ℕ → SubscriptionForm → Time → Db → Result Subscription → Response × Db
update_loaded id form now d (err e) = (error_page 404, d)
update_loaded id form now d (ok existing) =
    if update_refused form existing
    then (form_page, d)
    else let good = redirect (subscription_list_url existing.kind (codes "updated")) in
      let name = name_or_path form.name form.path in
      if is_file existing.kind
      then respond good form_page
          (Store.update_file_subscription id name form.path form.enabled now d)
      else respond good form_page (
          Store.update_subscription id name form.path (normalize_content form.content) form.enabled
            now d)

abbrev pub with_id : Option ℕ → (ℕ → DbHandler) → DbHandler
with_id none handler d = (error_page 404, d)
with_id (some id) handler d = handler id d

unfoldable pub handle_update_subscription : Text → SubscriptionForm → Time → DbHandler
handle_update_subscription raw_id form now =
    with_id (parse_id raw_id) λ id d. update_loaded id form now d (Store.subscription_by_id id d)

abbrev pub delete_loaded : ℕ → Db → Result Subscription → Response × Db
delete_loaded id d (err e) = (error_page 404, d)
delete_loaded id d (ok sub) =
    respond (redirect (subscription_list_url sub.kind (codes "deleted"))) (error_page 404)
      (Store.delete_subscription id d)

unfoldable pub handle_delete_subscription : Text → DbHandler
handle_delete_subscription raw_id =
    with_id (parse_id raw_id) λ id d. delete_loaded id d (Store.subscription_by_id id d)

-- `loadSubscription`, and the handler of the subscription.
abbrev pub if_loaded : (Subscription → DbHandler) → Db → Result Subscription → Response × Db
if_loaded handler d (err e) = (error_page 404, d)
if_loaded handler d (ok sub) = handler sub d

unfoldable pub load_subscription : Text → (Subscription → DbHandler) → DbHandler
load_subscription raw_id handler =
    with_id (parse_id raw_id) λ id d. if_loaded handler d (Store.subscription_by_id id d)

abbrev pub toggle_loaded : Time → Subscription → DbHandler
toggle_loaded now sub d =
    if is_file sub.kind && not sub.enabled && sub.file_id == 0
    then (error_page 400, d)
    else respond (redirect (subscription_list_url sub.kind (codes "toggled"))) (error_page 500)
        (Store.set_subscription_enabled sub.id (not sub.enabled) now d)

unfoldable pub toggle_subscription : Text → Time → DbHandler
toggle_subscription raw_id now = load_subscription raw_id (toggle_loaded now)

-- The loop over the ids of a batch: each number once, in order; `none` is an invalid one.
unfoldable pub collect_ids : List Text → List ℕ → Option (List ℕ)
collect_ids [] ids = some ids
collect_ids (raw ∷ raws) ids = elim (parse_id raw) [
  | none ↦ none
  | some id ↦ collect_ids raws (if exists (λ i. i == id) ids then ids else ids ++ id ∷ [])
]

abbrev pub batch_error : StoreError → Response
batch_error no_rows = error_page 400
batch_error _ = error_page 500

abbrev pub batch_answer : List ℕ → Result ℕ × Db → Response × Db
batch_answer ids (err e, d) = (batch_error e, d)
batch_answer ids (ok updated, d) =
    if not (updated == length ids)
    then (error_page 400, d)
    else (redirect (subscription_list_url text_subscription (codes "batch-updated")), d)

abbrev pub batch_ids : Text → Time → Db → Option (List ℕ) → Response × Db
batch_ids content now d none = (error_page 400, d)
batch_ids content now d (some ids) =
    if is_empty content || ltb max_content (byte_len content)
    then (error_page 400, d)
    else batch_answer ids (Store.batch_update_content ids content now d)

unfoldable pub batch_content : List Text → Text → Time → DbHandler
batch_content raws content now d =
    if length raws == 0 || ltb 5000 (length raws)
    then (error_page 400, d)
    else batch_ids (normalize_content content) now d (collect_ids raws [])

unfoldable pub clear_subscription_logs : Text → (ℕ → Text) → DbHandler
clear_subscription_logs raw_id logs_url =
    with_id (parse_id raw_id)
      λ id d. respond (redirect (logs_url id)) (error_page 500) (Store.clear_access_logs id d)
