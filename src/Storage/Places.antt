-- ===== src/Storage/Places.antt =====
-- The blobs on the disk, and the rows of `files` that stand for them.
use sub_manager.Base.{
  ℕ, ◌≡◌, ◌↔◌, ◌∙◌, refl, leb, Bool, true, false, not, ◌&&◌, ◌||◌, some, List, [], ◌∷◌, ◌++◌, Text,
  text_eq, text_eq_iff, is_empty, exists, length, take, arith,
}
use sub_manager.Storage.Paths.{CleanPath, split_slash, is_abs, clean_parts, clean, storage_path}
use sub_manager.Storage.Directory.{place_eq, digest_key}
use sub_manager.Storage.Inside.{IsRoot, storage_path_exact, below_root}

abbrev pub is_hex : ℕ → Bool
is_hex c = (leb b'0' c && leb c b'9') || (leb b'a' c && leb c b'f')

-- 32 bytes in hex, which `hex.EncodeToString` makes of a SHA-256 sum.
abbrev pub IsDigest : Text → Type 0
IsDigest s = (length s ≡ 64) × (exists (λ c. not (is_hex c)) s ≡ false)

pub place_eq_iff : (p q : List Text) → (place_eq p q ≡ true) ↔ (p ≡ q)
unfolding place_eq
place_eq_iff [] [] = ground arith
place_eq_iff [] (y ∷ q) = ground arith
place_eq_iff (x ∷ p) [] = ground arith
place_eq_iff (x ∷ p) (y ∷ q) = ground (arith, text_eq_iff x y, place_eq_iff p q)

split_slash-plain : (s : Text) → exists (λ c. not (is_hex c)) s ≡ false → split_slash s ≡ s ∷ []
unfolding split_slash
split_slash-plain [] h = refl
split_slash-plain (c ∷ s) h = ground (arith, split_slash-plain s)

-- The names of a blob below the root.
abbrev pub digest_names : Text → List Text
digest_names s = take 2 s ∷ s ∷ []

clean-digest_key :
    (s : Text)
    → IsDigest s
    → (clean (digest_key s) ≡ record { rooted = false; ups = 0; names = digest_names s })
      × (is_empty (digest_key s) ≡ false)
      × (is_abs (digest_key s) ≡ false)
unfolding clean split_slash clean_parts text_eq
clean-digest_key [] d = absurd (ground arith)
clean-digest_key (a ∷ []) d = absurd (ground arith)
clean-digest_key (a ∷ b ∷ []) d = absurd (ground arith)
clean-digest_key (a ∷ b ∷ c ∷ s) (long, hex) = ground (arith, split_slash-plain (a ∷ b ∷ c ∷ s) hex)

abbrev pub place_of : CleanPath → Text → List Text
place_of root s = root.names ++ digest_names s

pub storage_path-digest :
    (root : CleanPath) (s : Text)
    → IsRoot root
    → IsDigest s
    → storage_path root (digest_key s) ≡ some (below_root root (digest_names s))
storage_path-digest root s r d =
    let (c, full, relative) = clean-digest_key s d in
    (storage_path_exact root (digest_key s) r).0 ∙ rw (c, full, relative) refl

append_cancel : (xs : List Text) (ys zs : List Text) → xs ++ ys ≡ xs ++ zs → ys ≡ zs
append_cancel [] ys zs e = e
append_cancel (x ∷ xs) ys zs e = append_cancel xs ys zs (cc)

-- Two digests have two places.
pub place_of_inj : (root : CleanPath) (s t : Text) → place_of root s ≡ place_of root t → s ≡ t
place_of_inj root s t e =
    let names : digest_names s ≡ digest_names t =
      append_cancel root.names (digest_names s) (digest_names t) e in
    cc
