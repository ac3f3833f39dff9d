-- ===== src/Helpers/Normal.antt =====
-- The normal form of a subscription's content.
use sub_manager.Base.{
  ◌==◌, ◌≡◌, ◌∙◌, ap, refl, Bool, false, [], ◌∷◌, Text, exists, trim_space, arith,
}
use sub_manager.Base.Trim.{trim_space_idem, lacks-trim_space}
use sub_manager.Helpers.{replace_crlf, replace_cr, normalize_content}

abbrev pub has_cr : Text → Bool
has_cr s = exists (λ c. c == 13) s

replace_cr-free : (s : Text) → has_cr (replace_cr s) ≡ false
unfolding replace_cr
replace_cr-free [] = refl
replace_cr-free (c ∷ s) = ground (arith, replace_cr-free s)

replace_cr_id : (s : Text) → has_cr s ≡ false → replace_cr s ≡ s
unfolding replace_cr
replace_cr_id [] h = refl
replace_cr_id (c ∷ s) h = ground (arith, replace_cr_id s)

replace_crlf_id : (s : Text) → has_cr s ≡ false → replace_crlf s ≡ s
unfolding replace_crlf
replace_crlf_id [] h = refl
replace_crlf_id (c ∷ []) h = refl
replace_crlf_id (c ∷ d ∷ s) h = ground (arith, replace_crlf_id (d ∷ s))

-- Normal content holds no carriage return, and normalizing it again changes nothing.
pub normalize_content_idem :
    (s : Text)
    → (has_cr (normalize_content s) ≡ false)
      × (normalize_content (normalize_content s) ≡ normalize_content s)
unfolding normalize_content
normalize_content_idem s =
    let n = trim_space (replace_cr (replace_crlf s)) in
    let clean : has_cr n ≡ false =
      lacks-trim_space (λ c. c == 13) (replace_cr (replace_crlf s))
        (replace_cr-free (replace_crlf s)) in
    (
      clean,
      ap (λ t. trim_space (replace_cr t)) (replace_crlf_id n clean)
          ∙ ap trim_space (replace_cr_id n clean)
          ∙ trim_space_idem (replace_cr (replace_crlf s)),
    )
