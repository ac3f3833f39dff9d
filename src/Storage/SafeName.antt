-- ===== src/Storage/SafeName.antt =====
-- What `sanitizeFilename` promises to the pages, the headers and the database.
use sub_manager.Base.{
  ℕ, suc, zero, ◌≤◌, ◌≡◌, refl, ltb, false, Option, none, some, [], ◌∷◌, Text, text_eq, is_empty,
  exists, length, take, trim_space, arith, Bool-cases, inl, inr,
}
use sub_manager.Base.Trim.{lacks-trim_space}
use sub_manager.Storage.Names.{
  is_control, is_unsafe, replace_unsafe, name_or_default, sanitize_filename, header_filename,
  base_name, slashes,
}

-- No control character, slash or backslash.
abbrev pub IsSafe : Text → Type 0
IsSafe s = exists is_unsafe s ≡ false

replace_unsafe-IsSafe : (s : Text) → IsSafe (replace_unsafe s)
unfolding replace_unsafe is_control
replace_unsafe-IsSafe [] = refl
replace_unsafe-IsSafe (c ∷ s) = ground (arith, replace_unsafe-IsSafe s)

take-IsSafe : (n : ℕ) (s : Text) → IsSafe s → IsSafe (take n s)
take-IsSafe zero s h = refl
take-IsSafe (suc n) [] h = refl
take-IsSafe (suc n) (c ∷ s) h = ground (arith, take-IsSafe n s)

length-take : (n : ℕ) (s : Text) → length (take n s) ≤ n
length-take zero s = omega arith
length-take (suc n) [] = omega arith
length-take (suc n) (c ∷ s) = omega (arith, length-take n s)

take_nonempty : (n : ℕ) (s : Text) → is_empty s ≡ false → is_empty (take (suc n) s) ≡ false
take_nonempty n [] h = h
take_nonempty n (c ∷ s) h = refl

name_or_default_lem :
    (s : Text) → IsSafe s → (is_empty (name_or_default s) ≡ false) × IsSafe (name_or_default s)
unfolding text_eq is_control
name_or_default_lem s h = ground arith

-- Whatever name a browser sends, or none, the file gets one of 1 to 200 characters, with no control
-- character, slash or backslash.
pub header_filename-IsSafe :
    (filename : Option Text)
    → let name = header_filename filename in
      (is_empty name ≡ false) × (length name ≤ 200) × IsSafe name
unfolding header_filename sanitize_filename
header_filename-IsSafe none = (refl, omega arith, unfold is_control in refl)
header_filename-IsSafe (some filename) =
    let value = trim_space (replace_unsafe (trim_space (base_name (slashes filename)))) in
    let (full, safe) = name_or_default_lem value (
      lacks-trim_space is_unsafe (replace_unsafe (trim_space (base_name (slashes filename))))
        (replace_unsafe-IsSafe (trim_space (base_name (slashes filename))))) in
    elim (Bool-cases (ltb 200 (length (name_or_default value)))) [
      | inl long ↦ rw long (
        take_nonempty 199 (name_or_default value) full,
        length-take 200 (name_or_default value),
        take-IsSafe 200 (name_or_default value) safe,
      )
      | inr short ↦ rw short (full, ground arith, safe)
    ]
