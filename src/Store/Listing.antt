-- ===== src/Store/Listing.antt =====
-- The lists of subscriptions (`ListSubscriptionsByType` of internal/app/store.go).
use sub_manager.Base.{
  ℕ, ◌+◌, ◌≤◌, ◌≡◌, ◌∙◌, refl, Bool, ◌&&◌, ◌==◌, leb, Option, List, [], ◌∷◌, map, select,
  count_where, arith, if◌then◌else◌, Bool-cases, inl, inr,
}
use sub_manager.Base.Rows.{All}
use sub_manager.Store.Tables.{SubscriptionType, SubscriptionRow, Db}
use sub_manager.Store.Subscriptions.{
  Subscription, scan_subscription, insert_by_id, newest_first, of_type, list_subscriptions_by_type,
}

-- The ids do not rise.
abbrev pub Descending : List Subscription → Type 0
Descending [] = Unit
Descending (s ∷ ss) = All (λ t. t.id ≤ s.id) ss × Descending ss

abbrev scanned : List SubscriptionRow → List Subscription
scanned rows = map scan_subscription rows

insert-All :
    (k : ℕ) (s : SubscriptionRow) (ts : List SubscriptionRow)
    → s.id ≤ k
    → All (λ t. t.id ≤ k) (scanned ts)
    → All (λ t. t.id ≤ k) (scanned (insert_by_id s ts))
unfolding insert_by_id scan_subscription
insert-All k s [] h a = (h, tt)
insert-All k s (t ∷ ts) h a = ground (arith, insert-All k s ts h a.1)

All-below :
    (j k : ℕ) (ss : List Subscription) → j ≤ k → All (λ t. t.id ≤ j) ss → All (λ t. t.id ≤ k) ss
All-below j k [] h a = tt
All-below j k (s ∷ ss) h a = (omega (arith, a.0), All-below j k ss h a.1)

insert-Descending :
    (s : SubscriptionRow) (ts : List SubscriptionRow)
    → Descending (scanned ts)
    → Descending (scanned (insert_by_id s ts))
unfolding insert_by_id scan_subscription
insert-Descending s [] d = (tt, tt)
insert-Descending s (t ∷ ts) d = elim (Bool-cases (leb t.id s.id)) [
  | inl before ↦ rw before ((ground arith, All-below t.id s.id (scanned ts) (ground arith) d.0), d)
  | inr behind ↦ rw behind (insert-All t.id s ts (ground arith) d.0, insert-Descending s ts d.1)
]

newest_first-Descending : (ss : List SubscriptionRow) → Descending (scanned (newest_first ss))
unfolding newest_first
newest_first-Descending [] = tt
newest_first-Descending (s ∷ ss) =
    insert-Descending s (newest_first ss) (newest_first-Descending ss)

count-insert :
    (k : ℕ) (s : SubscriptionRow) (ts : List SubscriptionRow)
    → count_where (λ t. t.id == k) (scanned (insert_by_id s ts))
      ≡ (if s.id == k then 1 else 0) + count_where (λ t. t.id == k) (scanned ts)
unfolding insert_by_id scan_subscription
count-insert k s [] = refl
count-insert k s (t ∷ ts) = ground (arith, count-insert k s ts)

count-newest_first :
    (k : ℕ) (ss : List SubscriptionRow)
    → count_where (λ t. t.id == k) (scanned (newest_first ss)) ≡ count_where (λ s. s.id == k) ss
unfolding newest_first
count-newest_first k [] = refl
count-newest_first k (s ∷ ss) =
    ground (arith, count-insert k s (newest_first ss), count-newest_first k ss)

count-select :
    (k : ℕ) (p : SubscriptionRow → Bool) (ss : List SubscriptionRow)
    → count_where (λ s. s.id == k) (select p ss) ≡ count_where (λ s. s.id == k && p s) ss
count-select k p [] = refl
count-select k p (s ∷ ss) = ground (arith, count-select k p ss)

-- A list of subscriptions has the newest first, that is the ids do not rise; and it holds each id
-- as often as the table has it on a row of the type, or of any type where none is asked for.
pub list_ordered :
    (kind : Option SubscriptionType) (d : Db)
    → Descending (list_subscriptions_by_type kind d)
      × ((k : ℕ)
          → count_where (λ s. s.id == k) (list_subscriptions_by_type kind d)
            ≡ count_where (λ s. s.id == k && of_type kind s) d.subscriptions)
unfolding list_subscriptions_by_type
list_ordered kind d = (
  newest_first-Descending (select (of_type kind) d.subscriptions),
  λ k.
      count-newest_first k (select (of_type kind) d.subscriptions)
      ∙ count-select k (of_type kind) d.subscriptions,
)
