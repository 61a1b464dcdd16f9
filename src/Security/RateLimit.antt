-- ===== src/Security/RateLimit.antt =====
-- internal/security/ratelimit.go: a token bucket for each key. The source computes in float64; here a
-- token is 60 * 10^9 units, so that a nanosecond refills exactly per_minute units.
pub mod Window
use mcp_execmesh.Base.{
  ℕ, suc, ◌+◌, ◌*◌, ◌/◌, ◌≤◌, Bool, true, false, Option, none, some, List, [], ◌∷◌, Str, codes, ltb,
  leb, lookup, insert, is_empty, if◌then◌else◌, ℤ, pos, negsuc, sub_ℕ, ◌+ℤ◌, ltb_ℤ, leb_ℤ, pos_part,
}

abbrev pub token : ℕ
token = 60000000000

-- `last` is in nanoseconds; the tokens, in units, can be negative when the clock readings of two
-- calls come out of order, since Allow reads the clock before it takes the lock.
pub record Bucket : Type 0 where
  pub tokens : ℤ
  pub last : ℕ

pub record RateLimiter : Type 0 where
  pub buckets : List (Str × Bucket)
  pub per_minute : ℕ
  pub burst : ℕ
  pub disabled : Bool

abbrev default_burst : ℕ → ℕ
default_burst per_minute = if ltb (per_minute / 4) 1 then 1 else per_minute / 4

unfoldable pub new_rate_limiter : ℤ → ℤ → RateLimiter
new_rate_limiter per_minute burst =
    if leb_ℤ per_minute (pos 0)
    then record { buckets = []; per_minute = 0; burst = 0; disabled = true }
    else record {
      buckets = [];
      per_minute = pos_part per_minute;
      burst = if leb_ℤ burst (pos 0) then default_burst (pos_part per_minute) else pos_part burst;
      disabled = false;
    }

abbrev min_float : ℤ → ℤ → ℤ
min_float a b = if ltb_ℤ a b then a else b

-- The bucket with what it gained since `last`, up to the burst.
unfoldable pub refill : RateLimiter → ℕ → Bucket → ℤ
refill l now b =
    min_float (pos (l.burst * token))
      (b.tokens +ℤ sub_ℕ (now * l.per_minute) (b.last * l.per_minute))

unfoldable pub take_token : ℤ → ℕ → Bucket × Bool
take_token tokens now =
    if ltb_ℤ tokens (pos token)
    then (record { tokens = tokens; last = now }, false)
    else (record { tokens = tokens +ℤ sub_ℕ 0 token; last = now }, true)

-- The bucket that a request finds, or none, and what it leaves.
unfoldable pub use_bucket : RateLimiter → ℕ → Option Bucket → Bucket × Bool
use_bucket l now none = (record { tokens = sub_ℕ (l.burst * token) token; last = now }, true)
use_bucket l now (some b) = take_token (refill l now b) now

abbrev key_or_unknown : Str → Str
key_or_unknown key = if is_empty key then codes "unknown" else key

abbrev store_bucket : RateLimiter → Str → Bucket × Bool → RateLimiter × Bool
store_bucket l key (b, allowed) = (record l { buckets = insert key b l.buckets }, allowed)

-- Allow, with the reading of the clock as an argument.
unfoldable pub allow : RateLimiter → Str → ℕ → RateLimiter × Bool
allow l key now =
    if l.disabled
    then (l, true)
    else store_bucket l (key_or_unknown key)
        (use_bucket l now (lookup (key_or_unknown key) l.buckets))
