-- ===== src/Storage/Names.antt =====
-- `sanitizeFilename` of internal/app/filestore.go.
use sub_manager.Base.{
  ℕ, ◌==◌, ltb, leb, Bool, ◌&&◌, ◌||◌, Option, none, some, [], ◌∷◌, map, reverse, Text, codes,
  text_eq, is_empty, length, take, trim_space, trim_right, if◌then◌else◌,
}

-- `strings.ReplaceAll(value, "\\", "/")`
unfoldable pub slashes : Text → Text
slashes s = map (λ c. if c == 92 then b'/' else c) s

-- What stands behind the last slash, with what was read since the last one.
unfoldable pub after_slash : Text → Text → Text
after_slash word [] = reverse word
after_slash word (c ∷ s) = after_slash (if c == b'/' then [] else c ∷ word) s

-- `filepath.Base`
unfoldable pub base_name : Text → Text
base_name path =
    if is_empty path
    then b'.' ∷ []
    else let trimmed = trim_right (λ c. c == b'/') path in
      if is_empty trimmed then b'/' ∷ [] else after_slash [] trimmed

-- `unicode.IsControl`
unfoldable pub is_control : ℕ → Bool
is_control c = ltb c 32 || (leb 127 c && ltb c 160)

abbrev pub is_unsafe : ℕ → Bool
is_unsafe c = is_control c || c == b'/' || c == 92

-- The loop over the runes.
unfoldable pub replace_unsafe : Text → Text
replace_unsafe s = map (λ c. if is_unsafe c then b'_' else c) s

abbrev pub name_or_default : Text → Text
name_or_default s = if is_empty s || text_eq s (b'.' ∷ []) then codes "download" else s

-- The text is valid UTF-8, so `strings.ToValidUTF8` leaves it.
unfoldable pub sanitize_filename : Text → Text
sanitize_filename value =
    let value = trim_space (base_name (slashes value)) in
    let value = name_or_default (trim_space (replace_unsafe value)) in
    if ltb 200 (length value) then take 200 value else value

-- `none` is the nil header.
unfoldable pub header_filename : Option Text → Text
header_filename none = codes "download"
header_filename (some filename) = sanitize_filename filename
