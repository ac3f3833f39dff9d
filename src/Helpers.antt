-- ===== src/Helpers.antt =====
-- internal/app/helpers.go: the validation of subscriptions, the normal form of their content, the
-- name of a client.
pub mod Normal
pub mod Accepted
mod Tests
use sub_manager.Base.{
  ℕ, ◌+◌, ◌*◌, ltb, leb, ◌==◌, Bool, true, false, not, ◌&&◌, ◌||◌, Option, none, some, List, [],
  ◌∷◌, ◌++◌, map, Text, codes, text_eq, length, byte_len, exists, is_empty, trim_space, contains,
  to_lower, if◌then◌else◌,
}

-- The errors, one for each message.
pub data ValidationError : Type 0 where
  name_too_long bad_path reserved_path empty_content content_too_long : ValidationError

-- [A-Za-z0-9_-]
unfoldable pub path_char : ℕ → Bool
path_char c =
    (leb b'A' c && leb c b'Z')
    || (leb b'a' c && leb c b'z')
    || (leb b'0' c && leb c b'9')
    || c == b'_'
    || c == b'-'

abbrev pub all_chars : (ℕ → Bool) → Text → Bool
all_chars p s = not (exists (λ c. not (p c)) s)

-- ^/[A-Za-z0-9_-]{1,64}$
unfoldable pub matches_path_pattern : Text → Bool
matches_path_pattern [] = false
matches_path_pattern (c ∷ s) =
    c == b'/' && all_chars path_char s && leb 1 (length s) && leb (length s) 64

abbrev pub reserved_paths : List Text
reserved_paths =
    codes "/admin" ∷ codes "/api" ∷ codes "/healthz" ∷ codes "/static" ∷ codes "/favicon.ico" ∷ []

unfoldable pub is_reserved : Text → Bool
is_reserved path = exists (λ r. text_eq r (to_lower path)) reserved_paths

-- `none` is the nil error.
unfoldable pub validate_subscription_metadata : Text → Text → Option ValidationError
validate_subscription_metadata name path =
    if ltb 100 (length name)
    then some name_too_long
    else if not (matches_path_pattern path)
    then some bad_path
    else if is_reserved path
    then some reserved_path
    else none

abbrev pub max_content : ℕ
max_content = 2 * 1024 * 1024

unfoldable pub validate_content : Text → Option ValidationError
validate_content content =
    if is_empty (trim_space content)
    then some empty_content
    else if ltb max_content (byte_len content)
    then some content_too_long
    else none

unfoldable pub validate_subscription : Text → Text → Text → Option ValidationError
validate_subscription name path content = elim (validate_subscription_metadata name path) [
  | some e ↦ some e
  | none ↦ validate_content content
]

-- `strings.ReplaceAll(content, "\r\n", "\n")`
unfoldable pub replace_crlf : Text → Text
replace_crlf [] = []
replace_crlf (c ∷ []) = c ∷ []
replace_crlf (c ∷ d ∷ s) =
    let both = 10 ∷ replace_crlf s in
    let one = c ∷ replace_crlf (d ∷ s) in if c == 13 && d == 10 then both else one

-- `strings.ReplaceAll(content, "\r", "\n")`
unfoldable pub replace_cr : Text → Text
replace_cr [] = []
replace_cr (c ∷ s) = (if c == 13 then 10 else c) ∷ replace_cr s

unfoldable pub normalize_content : Text → Text
normalize_content content = trim_space (replace_cr (replace_crlf content))

pub data Client : Type 0 where
  shadow_rocket quantumult_x stash surge clash curl wget browser unknown_client : Client

-- The first of the names that the agent's text holds.
unfoldable pub detect_client : Text → Client
detect_client user_agent =
    let ua = to_lower user_agent in
    if contains ua (codes "shadow") && contains ua (codes "rocket")
    then shadow_rocket
    else if contains ua (codes "quantumult")
    then quantumult_x
    else if contains ua (codes "stash")
    then stash
    else if contains ua (codes "surge")
    then surge
    else if contains ua (codes "clash")
    then clash
    else if contains ua (codes "curl")
    then curl
    else if contains ua (codes "wget")
    then wget
    else if contains ua (codes "mozilla")
        || contains ua (codes "safari")
        || contains ua (codes "chrome")
    then browser
    else unknown_client
