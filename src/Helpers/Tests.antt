-- ===== src/Helpers/Tests.antt =====
-- The validation and the normal form at concrete texts, and the theorem on the normal form applied.
use sub_manager.Base.{◌≡◌, false, [], ◌∷◌, Text}
use sub_manager.Helpers.{normalize_content}
use sub_manager.Helpers.Normal.{has_cr, normalize_content_idem}

abbrev two_lines : Text
two_lines = b'a' ∷ 13 ∷ 10 ∷ b'b' ∷ 13 ∷ 32 ∷ []

normalize_content_example :
    (has_cr (normalize_content two_lines) ≡ false)
    × (normalize_content (normalize_content two_lines) ≡ normalize_content two_lines)
normalize_content_example = normalize_content_idem two_lines
