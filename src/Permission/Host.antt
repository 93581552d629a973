-- ===== src/Permission/Host.antt =====
-- `host_matches` of src/permission.rs.
use dexvm.Prelude.{ℕ, ◌==◌, [], ◌∷◌, Bool, true, false, ◌&&◌, ◌||◌, not, some, none, if◌then◌else◌}
use dexvm.Permission.Text.{
  Text, same_text, strip_prefix, all, contains, rsplit_once, is_ascii_digit, to_ascii_lowercase,
}

-- `host.is_empty()`
abbrev pub is_empty : Text → Bool
is_empty [] = true
is_empty (c ∷ cs) = false

-- `host.starts_with('[')`
abbrev pub bracketed : Text → Bool
bracketed [] = false
bracketed (c ∷ cs) = c == 91

-- The colon that stands before a port.
abbrev pub colon : ℕ
colon = 58

unfoldable pub explicit_port : Text → Bool
explicit_port value = elim (rsplit_once colon value) [
  | none ↦ false
  | some (host, port) ↦
      not (is_empty host)
      && all is_ascii_digit port
      && (bracketed host || not (contains colon host))
]

-- `strip_prefix(':')`, then that all of the rest are digits.
abbrev pub digits_after_colon : Text → Bool
digits_after_colon rest = elim (strip_prefix (colon ∷ []) rest) [
  | some port ↦ all is_ascii_digit port
  | none ↦ false
]

-- The test once both texts are in lower case.
unfoldable pub matches_lower : Text → Text → Bool
matches_lower allow host_port =
    if explicit_port allow
    then same_text host_port allow
    else if same_text host_port allow
    then true
    else elim (strip_prefix allow host_port) [ some rest ↦ digits_after_colon rest | none ↦ false ]

unfoldable pub host_matches : Text → Text → Bool
host_matches allow host_port =
    matches_lower (to_ascii_lowercase allow) (to_ascii_lowercase host_port)
