-- ===== src/Security/Policy.antt =====
-- internal/security/policy.go: limits on a command.
use mcp_execmesh.Base.{
  ℕ, ◌≡◌, ◌≢◌, ◌↔◌, false, Option, none, some, List, [], ◌∷◌, arith, Str, ℤ, pos, ltb_ℤ, ◌≤ℤ◌,
  contains, trim_space, is_empty, length, All, if◌then◌else◌,
}

pub record CommandPolicy : Type 0 where
  pub max_command_length : ℤ
  pub blacklist : List Str

pub data PolicyError : Type 0 where
  empty_command : PolicyError
  too_long : ℕ → ℤ → PolicyError
  forbidden_substring : Str → PolicyError

abbrev pub default_command_policy : CommandPolicy
default_command_policy = record { max_command_length = pos 32768; blacklist = [] }

-- The loop over the blacklist.
unfoldable pub find_banned : Str → List Str → Option PolicyError
find_banned cmd [] = none
find_banned cmd (banned ∷ rest) =
    if contains cmd banned then some (forbidden_substring banned) else find_banned cmd rest

unfoldable pub validate_command : CommandPolicy → Str → Option PolicyError
validate_command p cmd =
    if is_empty (trim_space cmd)
    then some empty_command
    else if ltb_ℤ p.max_command_length (pos (length cmd))
    then some (too_long (length cmd) p.max_command_length)
    else find_banned cmd p.blacklist

find_banned_iff :
    (cmd : Str) (bs : List Str) → (find_banned cmd bs ≡ none) ↔ All (λ b. contains cmd b ≡ false) bs
unfolding find_banned
find_banned_iff cmd [] = ground arith
find_banned_iff cmd (b ∷ bs) = ground (arith, find_banned_iff cmd bs)

-- ValidateCommand accepts a command exactly when it is not blank, is no longer than the limit in
-- bytes, and holds no string of the blacklist.
pub validate_command_iff :
    (p : CommandPolicy) (cmd : Str)
    → (validate_command p cmd ≡ none) ↔ (
        (trim_space cmd ≢ [])
        × (pos (length cmd) ≤ℤ p.max_command_length)
        × All (λ b. contains cmd b ≡ false) p.blacklist)
unfolding validate_command
validate_command_iff p cmd = ground (arith, find_banned_iff cmd p.blacklist)
