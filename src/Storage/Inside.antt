-- ===== src/Storage/Inside.antt =====
-- Where the paths of the files directory lie.
use mathlib.Core.List.{reverse-append, reverse-cons, reverse-reverse, append-nil, append_assoc}
use sub_manager.Base.{
  ℕ, ◌==◌, ◌≡◌, sym, refl, subst, ltb, Bool, true, false, ◌&&◌, ◌||◌, none, some, List, [], ◌∷◌,
  ◌++◌, reverse, Text, text_eq, text_eq_refl, is_empty, arith, if◌then◌else◌, Bool-cases, inl, inr,
}
use sub_manager.Base.Rows.{All}
use sub_manager.Storage.Paths.{
  CleanPath, split_slash, is_abs, dot, dot_dot, clean_part, clean_parts, clean, join, strip_common,
  rel, no_names, storage_path,
}

-- A name of a file or directory: not empty, `.` or `..`.
abbrev pub IsName : Text → Type 0
IsName s = (is_empty s || text_eq s dot || text_eq s dot_dot) ≡ false

pub record IsRoot (root : CleanPath) : Type 0 where
  pub rooted : root.rooted ≡ true
  pub no_ups : root.ups ≡ 0
  pub named : All IsName root.names

clean_part-named :
    (rooted : Bool) (part : Text) (ups : ℕ) (names : List Text)
    → All IsName names
    → All IsName (clean_part rooted part (ups, names)).1
clean_part-named rooted part ups [] h = ground arith
clean_part-named rooted part ups (n ∷ names) h = ground arith

clean_parts-named :
    (rooted : Bool) (parts : List Text) (acc : ℕ × List Text)
    → All IsName acc.1
    → All IsName (clean_parts rooted parts acc).1
unfolding clean_parts
clean_parts-named rooted [] acc h = h
clean_parts-named rooted (part ∷ parts) (ups, names) h =
    clean_parts-named rooted parts (clean_part rooted part (ups, names))
      (clean_part-named rooted part ups names h)

All-append {ℓ κ} :
    {A : Type ℓ} (P : A → Type κ) (xs ys : List A) → All P xs → All P ys → All P (xs ++ ys)
All-append P [] ys h k = k
All-append P (x ∷ xs) ys h k = (h.0, All-append P xs ys h.1 k)

All-reverse {ℓ κ} : {A : Type ℓ} (P : A → Type κ) (xs : List A) → All P xs → All P (reverse xs)
All-reverse P [] h = tt
All-reverse P (x ∷ xs) h =
    subst (All P) (sym (reverse-append (x ∷ []) xs))
      (All-append P (reverse xs) (x ∷ []) (All-reverse P xs h.1) (h.0, tt))

pub clean-named : (key : Text) → All IsName (clean key).names
unfolding clean
clean-named key =
    All-reverse IsName (clean_parts (is_abs key) (split_slash key) (0, [])).1
      (clean_parts-named (is_abs key) (split_slash key) (0, []) tt)

-- Names alone are taken as they are.
clean_parts-names :
    (rooted : Bool) (ups : ℕ) (parts names : List Text)
    → All IsName parts
    → clean_parts rooted parts (ups, names) ≡ (ups, reverse parts ++ names)
unfolding clean_parts
clean_parts-names rooted ups [] names h = refl
clean_parts-names rooted ups (part ∷ parts) names h =
    let taken : clean_part rooted part (ups, names) ≡ (ups, part ∷ names) = ground arith in
    rw (taken, reverse-cons part parts, append_assoc)
      (clean_parts-names rooted ups parts (part ∷ names) h.1)

strip_common-append : (bs ts : List Text) → strip_common bs (bs ++ ts) ≡ ([], ts)
unfolding strip_common
strip_common-append [] ts = refl
strip_common-append (b ∷ bs) ts = rw (text_eq_refl b) (strip_common-append bs ts)

abbrev pub below_root : CleanPath → List Text → CleanPath
below_root root names = record { rooted = root.rooted; ups = 0; names = root.names ++ names }

join-names :
    (root c : CleanPath)
    → IsRoot root
    → All IsName c.names
    → c.ups ≡ 0
    → join root c ≡ below_root root c.names
unfolding join
join-names root c r named none_up =
    rw
      (
        r.no_ups,
        none_up,
        clean_parts-names root.rooted 0 (root.names ++ c.names) []
            (All-append IsName root.names c.names r.named named),
        append-nil (reverse (root.names ++ c.names)),
        reverse-reverse (root.names ++ c.names),
      )
      refl

-- With a rooted, cleaned path as the root: a key is refused if it is empty, begins with `/`, or
-- leads to the root or out of it; any other key leads to the place that its cleaned names have
-- below the root, and each of those is the name of a file or a directory. The last test of the
-- method, by `filepath.Rel`, refuses no further key.
pub storage_path_exact :
    (root : CleanPath) (key : Text)
    → IsRoot root
    → let c = clean key in
      (storage_path root key ≡ (
        if is_empty key || is_abs key || ltb 0 c.ups || no_names c.names
        then none
        else some (below_root root c.names)))
      × All IsName c.names
unfolding storage_path
storage_path_exact root key r = (go (clean key) (clean-named key), clean-named key)
  where
    go :
        (c : CleanPath)
        → All IsName c.names
        → (if is_empty key || is_abs key
            then none
            else if (c.ups == 0 && no_names c.names) || ltb 0 c.ups
            then none
            else if ltb 0 (rel root (join root c)).ups
            then none
            else some (join root c))
          ≡ (if is_empty key || is_abs key || ltb 0 c.ups || no_names c.names
              then none
              else some (below_root root c.names))
    go c named = elim (Bool-cases (ltb 0 c.ups)) [
      | inl out ↦ ground arith
      | inr inside ↦
          let none_up : c.ups ≡ 0 = ground arith in
          rw (join-names root c r named none_up)
            (unfold rel in rw (strip_common-append root.names c.names, none_up) (ground arith))
    ]
