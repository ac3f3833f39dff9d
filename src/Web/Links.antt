-- ===== src/Web/Links.antt =====
-- Links with a message, and the messages.
use sub_manager.Base.{List, [], ◌∷◌, ◌++◌, Text, codes, text_eq, exists, if◌then◌else◌}
use sub_manager.Store.{SubscriptionType, text_subscription, file_subscription, AccessLog}
use sub_manager.Clock.{text_lt}

-- `subscriptionListURL`, for a message of letters and dashes, which `url.Values` leaves as it is.
unfoldable pub subscription_list_url : SubscriptionType → Text → Text
subscription_list_url file_subscription [] = codes "/admin/?type=file"
subscription_list_url file_subscription (c ∷ message) =
    codes "/admin/?message=" ++ (c ∷ message) ++ codes "&type=file"
subscription_list_url text_subscription [] = codes "/admin/"
subscription_list_url text_subscription (c ∷ message) = codes "/admin/?message=" ++ (c ∷ message)

-- The texts of `messageFromQuery`, one for each.
pub data Message : Type 0 where
  no_message subscription_created subscription_saved subscription_deleted subscription_toggled :
      Message
  contents_updated logs_cleared settings_saved file_replaced associations_replaced file_unchanged :
      Message
  file_detached file_deleted association_created : Message

unfoldable pub message_from_query : Text → Message
message_from_query value =
    if text_eq value (codes "created")
    then subscription_created
    else if text_eq value (codes "updated")
    then subscription_saved
    else if text_eq value (codes "deleted")
    then subscription_deleted
    else if text_eq value (codes "toggled")
    then subscription_toggled
    else if text_eq value (codes "batch-updated")
    then contents_updated
    else if text_eq value (codes "logs-cleared")
    then logs_cleared
    else if text_eq value (codes "settings-updated")
    then settings_saved
    else if text_eq value (codes "file-replaced")
    then file_replaced
    else if text_eq value (codes "file-associations-replaced")
    then associations_replaced
    else if text_eq value (codes "file-unchanged")
    then file_unchanged
    else if text_eq value (codes "file-detached")
    then file_detached
    else if text_eq value (codes "file-deleted")
    then file_deleted
    else if text_eq value (codes "association-created")
    then association_created
    else no_message

abbrev insert_text : Text → List Text → List Text
insert_text t [] = t ∷ []
insert_text t (u ∷ us) = if text_lt u t then u ∷ insert_text t us else t ∷ u ∷ us

-- `sort.Strings`
unfoldable pub sort_texts : List Text → List Text
sort_texts [] = []
sort_texts (t ∷ ts) = insert_text t (sort_texts ts)

-- The loop of `uniqueClients`; the names in `out` are those in `seen`.
unfoldable pub collect_clients : List AccessLog → List Text → List Text
collect_clients [] out = out
collect_clients (l ∷ logs) out =
    collect_clients logs
      (if exists (λ n. text_eq n l.client_name) out then out else out ++ l.client_name ∷ [])

unfoldable pub unique_clients : List AccessLog → List Text
unique_clients logs = sort_texts (collect_clients logs [])
