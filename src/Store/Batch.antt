-- ===== src/Store/Batch.antt =====
-- `BatchUpdateContent` of internal/app/store.go changes all the selected subscriptions, or none.
use sub_manager.Base.{ℕ, Bool, not, ◌&&◌, ◌==◌, List, exists}
use sub_manager.Store.Tables.{SubscriptionRow, is_file}

-- The id `i` is that of a text subscription.
abbrev pub names_text : List SubscriptionRow → ℕ → Bool
names_text subs i = exists (λ s. not (is_file s.kind) && s.id == i) subs
