-- ===== src/Security/Path.antt =====
-- internal/security/path.go, and the functions of path/filepath that it calls (on Unix).
pub mod Segments
pub mod Prefixes
pub mod Allowed
pub mod Idempotent
use mathlib.Core.List.{reverse}
use mcp_execmesh.Base.{
  Bool, true, false, ◌&&◌, ◌||◌, not, List, [], ◌∷◌, ◌++◌, Str, codes, str_eq, has_prefix,
  has_suffix, split, join, is_empty, if◌then◌else◌,
}

abbrev pub slash : Str
slash = codes "/"

-- strings.HasPrefix(p, "/"), which is filepath.IsAbs
unfoldable pub is_abs : Str → Bool
unfolding has_prefix
is_abs p = has_prefix p slash

-- ".." takes the last part away; a relative path keeps the leading ones.
unfoldable pub pop_part : Bool → List Str → List Str
pop_part rooted [] = if rooted then [] else codes ".." ∷ []
pop_part rooted (top ∷ stack) = if str_eq top (codes "..") then codes ".." ∷ top ∷ stack else stack

-- One part of a path, on the stack of the parts kept; its top is the last part.
unfoldable pub push_part : Bool → List Str → Str → List Str
push_part rooted stack part =
    if is_empty part || str_eq part (codes ".")
    then stack
    else if str_eq part (codes "..")
    then pop_part rooted stack
    else part ∷ stack

unfoldable pub resolve_parts : Bool → List Str → List Str → List Str
resolve_parts rooted stack [] = stack
resolve_parts rooted stack (part ∷ parts) = resolve_parts rooted (push_part rooted stack part) parts

-- The parts that filepath.Clean keeps, in order.
unfoldable pub segments : Str → List Str
segments p = reverse (resolve_parts (is_abs p) [] (split p b'/'))

abbrev pub or_dot : Str → Str
or_dot p = if is_empty p then codes "." else p

-- filepath.Clean
unfoldable pub clean : Str → Str
clean p = if is_abs p then slash ++ join (segments p) slash else or_dot (join (segments p) slash)

-- filepath.Join of two elements
unfoldable pub file_join : Str → Str → Str
file_join base p =
    if is_empty base
    then (if is_empty p then [] else clean p)
    else if is_empty p
    then clean base
    else clean (base ++ (slash ++ p))

-- The prefix with a slash behind it, so that only whole names match.
unfoldable pub with_slash : Str → Str
with_slash p = if has_suffix p slash then p else p ++ slash

unfoldable pub under_prefix : Str → Str → Bool
under_prefix cleaned clean_prefix =
    if str_eq cleaned clean_prefix then true else has_prefix cleaned (with_slash clean_prefix)

-- The loop over allowedPrefixes.
unfoldable pub under_any : Str → List Str → Bool
under_any cleaned [] = false
under_any cleaned (prefix ∷ prefixes) =
    if under_prefix cleaned (clean prefix) then true else under_any cleaned prefixes

unfoldable pub is_path_allowed : Str → List Str → Bool
is_path_allowed target_path allowed_prefixes =
    if is_empty target_path
    then false
    else if not (has_prefix (clean target_path) slash)
    then false
    else if is_empty allowed_prefixes
    then true
    else under_any (clean target_path) allowed_prefixes

-- The error that CleanAndValidatePath returns is always nil, so the result is the path alone.
unfoldable pub clean_and_validate_path : Str → Str → Str
clean_and_validate_path p base_dir =
    if is_empty p
    then base_dir
    else if is_abs (clean p)
    then clean p
    else if not (is_empty base_dir)
    then clean (file_join base_dir (clean p))
    else slash ++ clean p
