-- ===== src/Security/Digest.antt =====
-- internal/security/capability.go: digests in hexadecimal, and the shape of a capability token.
use mcp_execmesh.Base.{
  ℕ, ◌+◌, ◌-◌, ◌*◌, Bool, true, ◌&&◌, ◌||◌, Option, none, some, [], ◌∷◌, Str, codes, leb, ◌==◌,
  length, to_lower, trim_space, has_prefix, trim_prefix, if◌then◌else◌,
}

-- A digit of encoding/hex.
abbrev pub hex_digit : ℕ → Option ℕ
hex_digit c =
    if leb b'0' c && leb c b'9'
    then some (c - b'0')
    else if leb b'a' c && leb c b'f'
    then some (c - b'a' + 10)
    else if leb b'A' c && leb c b'F'
    then some (c - b'A' + 10)
    else none

abbrev cons_byte : Option ℕ → Option ℕ → Option Str → Option Str
cons_byte (some hi) (some lo) (some bytes) = some ((hi * 16 + lo) ∷ bytes)
cons_byte _ _ _ = none

-- hex.DecodeString
unfoldable pub hex_decode : Str → Option Str
hex_decode [] = some []
hex_decode (a ∷ []) = none
hex_decode (a ∷ b ∷ s) = cons_byte (hex_digit a) (hex_digit b) (hex_decode s)

-- The one error is ErrInvalidCapability.
unfoldable pub parse_digest_hex : Str → Option Str
parse_digest_hex s = elim (hex_decode (trim_space (to_lower s))) [
  | none ↦ none
  | some raw ↦ if length raw == 32 then some raw else none
]

-- A byte of [A-Za-z0-9_-].
abbrev pub is_token_byte : ℕ → Bool
is_token_byte c =
    (leb b'A' c && leb c b'Z')
    || (leb b'a' c && leb c b'z')
    || (leb b'0' c && leb c b'9')
    || (c == b'_')
    || (c == b'-')

unfoldable pub all_token_bytes : Str → Bool
all_token_bytes [] = true
all_token_bytes (c ∷ s) = is_token_byte c && all_token_bytes s

abbrev pub capability_prefix : Str
capability_prefix = codes "cap_v1_"

-- ^cap_v1_[A-Za-z0-9_-]{43}$
unfoldable pub is_capability_token : Str → Bool
is_capability_token token =
    has_prefix token capability_prefix
    && (length (trim_prefix token capability_prefix) == 43)
    && all_token_bytes (trim_prefix token capability_prefix)
