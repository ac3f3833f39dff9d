-- ===== src/Web/Origin.antt =====
-- Where a request came from, and under which address the site is reached.
use sub_manager.Base.{
  Bool, true, false, not, ◌&&◌, ◌||◌, List, [], ◌∷◌, ◌++◌, Text, codes, text_eq, is_empty,
  trim_space, to_lower, if◌then◌else◌,
}
use sub_manager.ClientIp.{Header, header_values, split_commas}

-- The parts of a request that the functions below read; `forwarded` is `FromTrustedProxy`.
pub record Origin : Type 0 where
  pub tls : Bool
  pub host : Text
  pub header : Header
  pub forwarded : Bool

abbrev first_value : List Text → Text
first_value [] = []
first_value (v ∷ vs) = v

-- Whether the first part of X-Forwarded-Proto is `https`, in whatever case.
unfoldable pub says_https : Header → Bool
says_https header =
    let value = first_value (header_values (codes "X-Forwarded-Proto") header) in
    text_eq (to_lower (trim_space (first_value (split_commas value)))) (codes "https")

-- `isSecureRequest`
unfoldable pub is_secure_request : Text → Origin → Bool
is_secure_request cookie_secure r =
    if text_eq cookie_secure (codes "true")
    then true
    else if text_eq cookie_secure (codes "false")
    then false
    else if r.tls
    then true
    else if not r.forwarded
    then false
    else says_https r.header

-- `baseURL`
unfoldable pub base_url : Text → Origin → Text
base_url configured r =
    if not (is_empty configured)
    then configured
    else (if r.tls || (r.forwarded && says_https r.header) then codes "https" else codes "http")
      ++ codes "://"
      ++ (if is_empty r.host then codes "localhost:8080" else r.host)
