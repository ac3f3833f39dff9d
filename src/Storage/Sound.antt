-- ===== src/Storage/Sound.antt =====
-- What holds of the files directory between two requests, and that `Commit` and `Remove` keep it.
use sub_manager.Base.{
  ◌≡◌, ◌≢◌, ap, Bool, true, false, Option, none, some, List, [], ◌∷◌, Text, arith, Bool-cases, inl,
  inr,
}
use sub_manager.Base.Rows.{All, All-map}
use sub_manager.Store.{FileRow}
use sub_manager.Storage.Paths.{CleanPath}
use sub_manager.Storage.Directory.{
  Content, place_eq, Blobs, put_blob, remove_blob, FileFacts, digest_key,
}
use sub_manager.Storage.Places.{IsDigest, place_eq_iff, place_of, place_of_inj}

abbrev pub is_some {ℓ} : {A : Type ℓ} → Option A → Bool
is_some none = false
is_some (some x) = true

module _ (root : CleanPath) (facts : FileFacts) where
  -- What lies at the place of a digest has that digest.
  pub record IsAddressed (blobs : Blobs) : Type 0 where
    pub at :
        (s : Text) (c : Content)
        → IsDigest s
        → blobs (place_of root s) ≡ some c
        → facts.sha256 c ≡ s

  -- The row has the key of its digest, and there is a blob at its place.
  abbrev pub HasBlob : Blobs → FileRow → Type 0
  HasBlob blobs f =
      IsDigest f.sha256
      × (f.storage_key ≡ digest_key f.sha256)
      × (is_some (blobs (place_of root f.sha256)) ≡ true)

  pub record IsSound (files : List FileRow) (blobs : Blobs) : Type 0 where
    pub addressed : IsAddressed blobs
    pub present : All (HasBlob blobs) files

  put-at :
      (blobs : Blobs) (s t : Text) (c d : Content)
      → IsAddressed blobs
      → facts.sha256 c ≡ s
      → IsDigest t
      → put_blob (place_of root s) c blobs (place_of root t) ≡ some d
      → facts.sha256 d ≡ t
  put-at blobs s t c d a e dig h =
      elim (Bool-cases (place_eq (place_of root s) (place_of root t))) [
        | inl same ↦
            let st : s ≡ t =
              place_of_inj root s t ((place_eq_iff (place_of root s) (place_of root t)).0 same) in
            let cd : some c ≡ some d = rw same at h in cc
        | inr other ↦ a.at t d dig (rw other at h)
      ]

  put-present :
      (blobs : Blobs) (s t : Text) (c : Content)
      → is_some (blobs (place_of root t)) ≡ true
      → is_some (put_blob (place_of root s) c blobs (place_of root t)) ≡ true
  put-present blobs s t c h = ground arith

  -- Storing a content under its digest.
  pub put-IsSound :
      (files : List FileRow) (blobs : Blobs) (s : Text) (c : Content)
      → IsSound files blobs
      → facts.sha256 c ≡ s
      → IsSound files (put_blob (place_of root s) c blobs)
  put-IsSound files blobs s c i e = record {
    addressed = record { at = λ t d dig h. put-at blobs s t c d i.addressed e dig h };
    present =
        All-map (HasBlob blobs) (HasBlob (put_blob (place_of root s) c blobs)) files
          (λ f h. (h.0, h.1, put-present blobs s f.sha256 c h.2)) i.present;
  }

  remove-IsAddressed :
      (blobs : Blobs) (place : List Text)
      → IsAddressed blobs
      → IsAddressed (remove_blob place blobs)
  remove-IsAddressed blobs place a = record {
    at = λ s c dig h. elim (Bool-cases (place_eq place (place_of root s))) [
      | inl same ↦ absurd (ground arith)
      | inr other ↦ a.at s c dig (rw other at h)
    ];
  }

  -- Removing the blob of a digest that no row has.
  pub remove-IsSound :
      (files : List FileRow) (blobs : Blobs) (s : Text)
      → IsSound files blobs
      → All (λ f. f.sha256 ≢ s) files
      → IsSound files (remove_blob (place_of root s) blobs)
  remove-IsSound files blobs s i unused = record {
    addressed = remove-IsAddressed blobs (place_of root s) i.addressed;
    present = kept files i.present unused;
  }
    where
      kept :
          (fs : List FileRow)
          → All (HasBlob blobs) fs
          → All (λ f. f.sha256 ≢ s) fs
          → All (HasBlob (remove_blob (place_of root s) blobs)) fs
      kept [] p u = tt
      kept (f ∷ fs) p u =
          let apart : place_eq (place_of root s) (place_of root f.sha256) ≡ false = ground (
            arith,
            place_eq_iff (place_of root s) (place_of root f.sha256),
            place_of_inj root s f.sha256,
            u.0,
          ) in
          ((p.0.0, p.0.1, rw apart p.0.2), kept fs p.1 u.1)

  pub missing_unused :
      (blobs : Blobs) (s : Text) (files : List FileRow)
      → blobs (place_of root s) ≡ none
      → All (HasBlob blobs) files
      → All (λ f. f.sha256 ≢ s) files
  missing_unused blobs s [] e p = tt
  missing_unused blobs s (f ∷ files) e p = (
    (λ (same : f.sha256 ≡ s). absurd (ground (arith, ap (place_of root) same))),
    missing_unused blobs s files e p.1,
  )
