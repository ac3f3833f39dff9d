-- ===== src/Store/Associations.antt =====
-- What the methods of internal/app/store.go do to the association of subscriptions with files.
use sub_manager.Base.{
  ℕ, ◌+◌, ◌≡◌, ◌≢◌, ap, refl, true, false, not, ◌&&◌, ◌==◌, List, [], ◌∷◌, Text, exists,
  count_where, update_where, delete_where, arith, if◌then◌else◌, Bool-cases, inl, inr,
}
use sub_manager.Base.Rows.{All, count-Unique}
use sub_manager.Clock.{Time}
use sub_manager.Store.Tables.{
  SubscriptionRow, FileRow, Db, ok, err, no_rows, no_file_associations, has_file, uses_file,
  expect_one, commit_or_rollback,
}
use sub_manager.Store.Statements.{update_subscription_file, delete_unused_file}
use sub_manager.Store.FileLinks.{replace_file_associations, move_associations, linked_to, move_file}
use sub_manager.Store.Files.{association_count, delete_file}
use sub_manager.Store.Valid.{IsValid, kind_ok}

module _ (old new : ℕ) (name : Text) (now : Time) (differ : old ≢ new) where
  abbrev moved : List SubscriptionRow → List SubscriptionRow
  moved subs = update_where (linked_to old) (move_file new name now) subs

  count-moved :
      (subs : List SubscriptionRow)
      → All (λ s. kind_ok s ≡ true) subs
      → (count_where (linked_to old) subs ≡ association_count old subs)
        × (association_count old (moved subs) ≡ 0)
        × (association_count new (moved subs)
            ≡ association_count new subs + association_count old subs)
  unfolding association_count
  count-moved [] k = (refl, refl, refl)
  count-moved (s ∷ subs) k = ground (arith, count-moved subs k.1)

  exists-linked :
      (subs : List SubscriptionRow)
      → exists (linked_to old) subs
        ≡ (if count_where (linked_to old) subs == 0 then false else true)
  exists-linked [] = refl
  exists-linked (s ∷ subs) = ground (arith, exists-linked subs)

  -- The transaction, once both files are found.
  replace_started :
      (d : Db)
      → has_file old d.files ≡ true
      → has_file new d.files ≡ true
      → replace_file_associations old new name now d
        ≡ commit_or_rollback d (move_associations old new name now d)
  unfolding replace_file_associations
  replace_started d has_old has_new =
      let apart : (old == new) ≡ false = ground arith in rw (has_old, has_new, apart)

  move_finished :
      (d : Db)
      → has_file new d.files ≡ true
      → move_associations old new name now d ≡ (
          if count_where (linked_to old) d.subscriptions == 0
          then (err no_file_associations, record d { subscriptions = moved d.subscriptions })
          else (
            ok (count_where (linked_to old) d.subscriptions),
            record d { subscriptions = moved d.subscriptions },
          ))
  unfolding move_associations update_subscription_file
  move_finished d has_new = ground arith

  -- In a valid database, between two files that are there and differ, exactly the subscriptions of the first go over to the
  -- second, and their number is returned; if there are none, that is the error, and the database is
  -- as it was. In either case the first has no subscriptions left, and the second has those of both.
  pub associations_move :
      (d : Db)
      → IsValid d
      → has_file old d.files ≡ true
      → has_file new d.files ≡ true
      → let count = association_count old d.subscriptions in
        (replace_file_associations old new name now d ≡ (
          if count == 0
          then (err no_file_associations, d)
          else (ok count, record d { subscriptions = moved d.subscriptions })))
        × (association_count old (moved d.subscriptions) ≡ 0)
        × (association_count new (moved d.subscriptions)
            ≡ association_count new d.subscriptions + count)
  associations_move d v has_old has_new =
      let counts = count-moved d.subscriptions v.subs.kinds in
      (
        rw (replace_started d has_old has_new, move_finished d has_new, counts.0)
            (elim (Bool-cases (association_count old d.subscriptions == 0)) [
              | inl empty ↦ rw empty refl
              | inr some_there ↦ rw some_there refl
            ]),
        counts.1,
        counts.2,
      )

used_no_match :
    (id : ℕ) (subs : List SubscriptionRow) (files : List FileRow)
    → uses_file id subs ≡ true
    → exists (λ r. r.id == id && not (uses_file r.id subs)) files ≡ false
used_no_match id subs [] h = refl
used_no_match id subs (r ∷ files) h = elim (Bool-cases (r.id == id)) [
  | inl hit ↦
      let e : r.id ≡ id = ground arith in
      ground (arith, used_no_match id subs files h, ap (λ k. uses_file k subs) e)
  | inr miss ↦ ground (arith, used_no_match id subs files h)
]

deleted_gone :
    (id : ℕ) (subs : List SubscriptionRow) (files : List FileRow)
    → uses_file id subs ≡ false
    → has_file id (delete_where (λ r. r.id == id && not (uses_file r.id subs)) files) ≡ false
deleted_gone id subs [] h = refl
deleted_gone id subs (r ∷ files) h = elim (Bool-cases (r.id == id)) [
  | inl hit ↦
      let e : r.id ≡ id = ground arith in
      ground (arith, deleted_gone id subs files h, ap (λ k. uses_file k subs) e)
  | inr miss ↦ ground (arith, deleted_gone id subs files h)
]

unused_match :
    (id : ℕ) (subs : List SubscriptionRow) (files : List FileRow)
    → uses_file id subs ≡ false
    → exists (λ r. r.id == id && not (uses_file r.id subs)) files ≡ has_file id files
unused_match id subs [] h = refl
unused_match id subs (r ∷ files) h = elim (Bool-cases (r.id == id)) [
  | inl hit ↦
      let e : r.id ≡ id = ground arith in
      ground (arith, unused_match id subs files h, ap (λ k. uses_file k subs) e)
  | inr miss ↦ ground (arith, unused_match id subs files h)
]

-- In a valid database, a file that is there is deleted exactly if no subscription uses it: the call fails and the file
-- stays if one does, and it succeeds and the file is gone if none does; the subscriptions stay as
-- they were.
pub delete_file_exact :
    (id : ℕ) (d : Db)
    → IsValid d
    → has_file id d.files ≡ true
    → let used = uses_file id d.subscriptions in
      let (r, d') = delete_file id d in
      (r ≡ (if used then err no_rows else ok tt))
      × (has_file id d'.files ≡ used)
      × (d'.subscriptions ≡ d.subscriptions)
unfolding delete_file delete_unused_file expect_one
delete_file_exact id d v there = elim (Bool-cases (uses_file id d.subscriptions)) [
  | inl used ↦ ground (arith, used_no_match id d.subscriptions d.files used)
  | inr unused ↦ ground (
    arith,
    unused_match id d.subscriptions d.files unused,
    deleted_gone id d.subscriptions d.files unused,
    count-Unique (λ (r : FileRow). r.id) id
        (λ r. r.id == id && not (uses_file r.id d.subscriptions)) (λ r e. ground arith) d.files
        v.files.ids,
  )
]
