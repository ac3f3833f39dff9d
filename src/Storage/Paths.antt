-- ===== src/Storage/Paths.antt =====
-- Package path/filepath as filestore.go uses it, and the method `path`. A cleaned path is kept as what
-- its text is made of: whether it begins with `/`, how many `..` it has in front, and the names behind
-- them. So `clean == "."` is the relative path with neither, and `clean` is `..` or begins with `../`
-- exactly if it has a `..` in front.
use sub_manager.Base.{
  ℕ, suc, zero, ◌+◌, ◌==◌, ltb, Bool, true, false, ◌&&◌, ◌||◌, Option, none, some, List, [], ◌∷◌,
  ◌++◌, reverse, Text, text_eq, is_empty, length, if◌then◌else◌,
}

abbrev pub put_head : ℕ → List Text → List Text
put_head c [] = (c ∷ []) ∷ []
put_head c (w ∷ ws) = (c ∷ w) ∷ ws

-- The parts of a path between its slashes.
unfoldable pub split_slash : Text → List Text
split_slash [] = [] ∷ []
split_slash (c ∷ s) = let rest = split_slash s in if c == b'/' then [] ∷ rest else put_head c rest

abbrev pub is_abs : Text → Bool
is_abs [] = false
is_abs (c ∷ s) = c == b'/'

pub record CleanPath : Type 0 where
  pub rooted : Bool
  pub ups : ℕ
  pub names : List Text

abbrev pub dot : Text
dot = b'.' ∷ []

abbrev pub dot_dot : Text
dot_dot = b'.' ∷ b'.' ∷ []

abbrev pub up : Bool → ℕ → List Text → ℕ × List Text
up rooted ups [] = (if rooted then ups else ups + 1, [])
up rooted ups (n ∷ names) = (ups, names)

-- One part, with the names so far, the last one first.
abbrev pub clean_part : Bool → Text → ℕ × List Text → ℕ × List Text
clean_part rooted part (ups, names) =
    if is_empty part || text_eq part dot
    then (ups, names)
    else if text_eq part dot_dot
    then up rooted ups names
    else (ups, part ∷ names)

unfoldable pub clean_parts : Bool → List Text → ℕ × List Text → ℕ × List Text
clean_parts rooted [] acc = acc
clean_parts rooted (part ∷ parts) acc = clean_parts rooted parts (clean_part rooted part acc)

abbrev pub from_parts : Bool → ℕ × List Text → CleanPath
from_parts rooted (ups, names) = record { rooted = rooted; ups = ups; names = reverse names }

-- `filepath.Clean`
unfoldable pub clean : Text → CleanPath
clean path = from_parts (is_abs path) (clean_parts (is_abs path) (split_slash path) (0, []))

abbrev pub dots : ℕ → List Text
dots zero = []
dots (suc n) = dot_dot ∷ dots n

-- `filepath.Join(base, path)` of two cleaned paths.
unfoldable pub join : CleanPath → CleanPath → CleanPath
join base path = from_parts base.rooted (
    clean_parts base.rooted (dots base.ups ++ (base.names ++ (dots path.ups ++ path.names)))
      (0, []))

-- What is left of two lists of names behind the names that they share in front.
unfoldable pub strip_common : List Text → List Text → List Text × List Text
strip_common [] ts = ([], ts)
strip_common (b ∷ bs) [] = (b ∷ bs, [])
strip_common (b ∷ bs) (t ∷ ts) =
    let rest = strip_common bs ts in if text_eq b t then rest else (b ∷ bs, t ∷ ts)

abbrev pub climb : List Text × List Text → CleanPath
climb (bs, ts) = record { rooted = false; ups = length bs; names = ts }

-- `filepath.Rel(base, target)` of two rooted paths; such have no `..`, so there is no error.
unfoldable pub rel : CleanPath → CleanPath → CleanPath
rel base target = climb (strip_common base.names target.names)

abbrev pub no_names : List Text → Bool
no_names [] = true
no_names (n ∷ ns) = false

-- `FileStorage.path`, with the root that `filepath.Abs` gave.
unfoldable pub storage_path : CleanPath → Text → Option CleanPath
storage_path root key =
    if is_empty key || is_abs key
    then none
    else let c = clean key in
      if (c.ups == 0 && no_names c.names) || ltb 0 c.ups
      then none
      else let path = join root c in if ltb 0 (rel root path).ups then none else some path
