-- ===== src/Public/Shadowed.antt =====
-- Paths that the validation accepts and the public route never serves.
use sub_manager.Base.{
  ℕ, ◌≤◌, ◌≡◌, refl, Bool, true, false, none, ◌∷◌, ◌++◌, Text, codes, length, text_eq, to_lower,
  has_prefix, arith,
}
use sub_manager.Clock.{Time}
use sub_manager.Helpers.{
  Client, path_char, all_chars, matches_path_pattern, is_reserved, validate_subscription_metadata,
}
use sub_manager.Store.{Db}
use sub_manager.Public.{not_found, public_subscription}

admin_not_reserved : (c : ℕ) (s : Text) → is_reserved (codes "/admin" ++ c ∷ s) ≡ false
unfolding is_reserved text_eq to_lower
admin_not_reserved c s = refl

admin_pattern :
    (s : Text)
    → all_chars path_char s ≡ true
    → length s ≤ 59
    → matches_path_pattern (codes "/admin" ++ s) ≡ true
unfolding matches_path_pattern path_char
admin_pattern s chars short = ground arith

-- A path of `/admin` and one to 59 more letters, digits, `_` or `-` is accepted by the validation, with a
-- name of at most 100 characters, but whatever the database holds, a request for it is answered with
-- 404 and changes nothing.
pub admin_paths_shadowed :
    (client_name : Client → Text) (opens : Text → Bool) (name : Text) (c : ℕ) (s : Text)
    (ip user_agent method : Text) (now : Time) (d : Db)
    → length name ≤ 100
    → all_chars path_char (c ∷ s) ≡ true
    → length s ≤ 58
    → (validate_subscription_metadata name (codes "/admin" ++ c ∷ s) ≡ none)
      × (public_subscription client_name opens (codes "/admin" ++ c ∷ s) ip user_agent method now d
          ≡ (not_found, d))
unfolding validate_subscription_metadata public_subscription has_prefix text_eq
admin_paths_shadowed client_name opens name c s ip user_agent method now d few chars short =
    (rw (admin_pattern (c ∷ s) chars (omega arith), admin_not_reserved c s) (ground arith), refl)
