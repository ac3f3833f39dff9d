-- ===== src/Store/Valid/Rules.antt =====
-- One rule for each way in which a method of `Store` is put together.
use sub_manager.Base.{ℕ, ◌≡◌, Bool, true, false, if◌then◌else◌, ◌≤◌, subst, sym}
use sub_manager.Store.{
  SubscriptionRow, Db, Result, ok, err, StoreError, Exec, ◌>>=◌, pure, raise_if, continue,
  commit_or_rollback, transaction, expect_one,
}
use sub_manager.Store.Valid.Defs.{Keeps, kind_ok}
use sub_manager.Store.Valid.Updates.{RowStep}

module _ {P : Db → Type 0} where
  pub Keeps-pure : {A : Type 0} (a : A) → Keeps P (pure a)
  Keeps-pure a = record { at = λ d h. h }

  pub Keeps-raise_if : (b : Bool) (e : StoreError) → Keeps P (raise_if b e)
  Keeps-raise_if b e = record { at = λ d h. h }

  pub Keeps-expect_one : (n : ℕ) → Keeps P (expect_one n)
  unfolding expect_one
  Keeps-expect_one n = record { at = λ d h. h }

  pub Keeps-bind :
      {A B : Type 0} (m : Exec A) (f : A → Exec B)
      → Keeps P m
      → ((a : A) → Keeps P (f a))
      → Keeps P (m >>= f)
  Keeps-bind {A} {B} m f km kf = record { at = λ d h. let (r, d') = m d in go r d' (km.at d h) }
    where
      go : (r : Result A) (d' : Db) → P d' → P (continue r f d').1
      go (ok a) d' h = (kf a).at d' h
      go (err e) d' h = h

  pub Keeps-transaction : {A : Type 0} (m : Exec A) → Keeps P m → Keeps P (transaction m)
  Keeps-transaction {A} m km = record { at = λ d h. go d (m d) h (km.at d h) }
    where
      go : (d : Db) (r : Result A × Db) → P d → P r.1 → P (commit_or_rollback d r).1
      go d (ok a, d') h h' = h'
      go d (err e, d') h h' = h

  -- A part that reads the database.
  pub Keeps-read : {A : Type 0} (m : Exec A) → ((d : Db) → (m d).1 ≡ d) → Keeps P m
  Keeps-read m same = record { at = λ d h. subst P (sym (same d)) h }

  pub Keeps-if :
      {A : Type 0} (b : Bool) (m n : Exec A) → Keeps P m → Keeps P n → Keeps P (if b then m else n)
  Keeps-if true m n km kn = km
  Keeps-if false m n km kn = kn

pub keep_step :
    (p : SubscriptionRow → Bool) (f : SubscriptionRow → SubscriptionRow)
    → ((s : SubscriptionRow) → (f s).id ≡ s.id)
    → ((s : SubscriptionRow) → p s ≡ true → kind_ok s ≡ true → kind_ok (f s) ≡ true)
    → ((s : SubscriptionRow)
        → s.current_fetch_count ≤ s.fetch_count
        → (f s).current_fetch_count ≤ (f s).fetch_count)
    → RowStep p f
keep_step p f id kind counts = record { same_id = id; kind = kind; counts = counts }
