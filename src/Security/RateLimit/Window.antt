-- ===== src/Security/RateLimit/Window.antt =====
-- How many requests a rate limiter lets through.
use mcp_execmesh.Base.{
  Option, ℕ, suc, ◌+◌, ◌*◌, ◌≤◌, ◌≡◌, refl, ◌&&◌, true, false, none, some, List, [], ◌∷◌, arith,
  Str, str_eq, str_eq_eq, lookup, lookup-insert, All, Bool-cases, inl, inr, ap, sym, ◌∙◌,
  if◌then◌else◌, ℤ, pos, negsuc, sub_ℕ, ◌≤ℤ◌, +ℤ_parts, pos_part, neg_part,
}
use mcp_execmesh.Security.RateLimit.{
  token, Bucket, RateLimiter, refill, take_token, use_bucket, allow, key_or_unknown,
  new_rate_limiter,
}

-- A refill gives at most the elapsed time's units, and never more than the burst.
refill_bounds :
    (l : RateLimiter) (now : ℕ) (b : Bucket)
    → (refill l now b ≤ℤ pos (l.burst * token))
      × (pos_part (refill l now b) + neg_part b.tokens + b.last * l.per_minute
          ≤ neg_part (refill l now b) + pos_part b.tokens + now * l.per_minute)
unfolding refill
refill_bounds l now b =
    let gain : ℤ = sub_ℕ (now * l.per_minute) (b.last * l.per_minute) in
    let sum = +ℤ_parts b.tokens gain in
    let parts : pos_part gain + b.last * l.per_minute ≡ neg_part gain + now * l.per_minute =
      ground arith in
    (ground arith, ground arith)

-- What one request leaves in the bucket that it found, and that it passes only with a token to spend.
take_token_bounds :
    (tokens : ℤ) (now : ℕ)
    → ((take_token tokens now).0.last ≡ now)
      × (pos_part (take_token tokens now).0.tokens
            + neg_part tokens
            + (if (take_token tokens now).1 then token else 0)
          ≡ neg_part (take_token tokens now).0.tokens + pos_part tokens)
      × ((take_token tokens now).1 ≡ true → neg_part (take_token tokens now).0.tokens ≡ 0)
unfolding take_token
take_token_bounds tokens now =
    let sum = +ℤ_parts tokens (sub_ℕ 0 token) in (ground arith, ground arith, ground arith)

module _ (l : RateLimiter) (key : Str) (now : ℕ) (on : l.disabled ≡ false) where
  allow_config :
      ((allow l key now).0.per_minute ≡ l.per_minute)
      × ((allow l key now).0.burst ≡ l.burst)
      × ((allow l key now).0.disabled ≡ false)
  unfolding allow
  allow_config = ground arith

  allow_result : (allow l key now).1 ≡ (use_bucket l now (lookup (key_or_unknown key) l.buckets)).1
  unfolding allow
  allow_result = ground arith

  -- Only the bucket of the request's key changes.
  pub lookup-allow :
      (j : Str)
      → lookup j (allow l key now).0.buckets ≡ (
          if str_eq (key_or_unknown key) j
          then some (use_bucket l now (lookup (key_or_unknown key) l.buckets)).0
          else lookup j l.buckets)
  unfolding allow
  lookup-allow j = rw on (lookup-insert (key_or_unknown key) j _ l.buckets)

-- How many of the requests, each a key and a reading of the clock, pass under one key.
unfoldable pub passed : Str → RateLimiter → List (Str × ℕ) → ℕ
passed key l [] = 0
passed key l ((k, now) ∷ rs) =
    let rest = passed key (allow l k now).0 rs in
    if (allow l k now).1 && str_eq (key_or_unknown k) key then suc rest else rest

pub record Within (start stop : ℕ) (r : Str × ℕ) : Type 0 where
  pub after : start ≤ r.1
  pub before : r.1 ≤ stop

-- What a bucket can still give until `stop`, when `spent` is what was given before.
record Account (per_minute burst stop spent : ℕ) (b : Bucket) : Type 0 where
  balance : pos_part b.tokens + spent ≤ neg_part b.tokens + b.last * per_minute + burst * token
  bounded : spent ≤ burst * token + stop * per_minute

Account-eq :
    {p p' q q' stop spent : ℕ} {b : Bucket}
    → p ≡ p'
    → q ≡ q'
    → Account p q stop spent b
    → Account p' q' stop spent b
Account-eq e₁ e₂ a = rw (e₁, e₂) at a

mul_mono : (a b c : ℕ) → a ≤ b → a * c ≤ b * c
mul_mono a b c h = grind arith

Account-next :
    (l : RateLimiter) (now stop spent : ℕ) (b : Bucket)
    → now ≤ stop
    → Account l.per_minute l.burst stop spent b
    → Account l.per_minute l.burst stop
        (spent + (if (use_bucket l now (some b)).1 then token else 0))
        (use_bucket l now (some b)).0
unfolding use_bucket
Account-next l now stop spent b h a =
    let r = refill_bounds l now b in
    let t = take_token_bounds (refill l now b) now in
    let m = mul_mono now stop l.per_minute h in
    let e = ap (λ (x : ℕ). x * l.per_minute) t.0 in
    let balanced : pos_part (take_token (refill l now b) now).0.tokens
          + (spent + (if (take_token (refill l now b) now).1 then token else 0))
        ≤ neg_part (take_token (refill l now b) now).0.tokens
          + (take_token (refill l now b) now).0.last * l.per_minute
          + l.burst * token =
      omega (arith, a.balance) in
    record {
      balance = balanced;
      bounded = elim (Bool-cases (take_token (refill l now b) now).1) [
        | inl pass ↦ let z = t.2 pass in omega (arith, a.bounded)
        | inr stop ↦ rw stop (omega (arith, a.bounded))
      ];
    }

Account-first :
    (l : RateLimiter) (now stop : ℕ)
    → 1 ≤ l.burst
    → now ≤ stop
    → Account l.per_minute l.burst stop (token + now * l.per_minute) (use_bucket l now none).0
unfolding use_bucket
Account-first l now stop h k =
    let m = mul_mono now stop l.per_minute k in
    record { balance = ground arith; bounded = omega arith }

-- Whatever bucket a request finds, the refill is capped: what it leaves, and what it spends, is at most the
-- burst at that moment.
Account-capped :
    (l : RateLimiter) (now stop : ℕ) (o : Option Bucket)
    → 1 ≤ l.burst
    → now ≤ stop
    → Account l.per_minute l.burst stop
        ((if (use_bucket l now o).1 then token else 0) + now * l.per_minute)
        (use_bucket l now o).0
unfolding use_bucket
Account-capped l now stop none h k = Account-first l now stop h k
Account-capped l now stop (some b) h k =
    let r = refill_bounds l now b in
    let t = take_token_bounds (refill l now b) now in
    let m = mul_mono now stop l.per_minute k in
    let e = ap (λ (x : ℕ). x * l.per_minute) t.0 in
    let capped : pos_part (refill l now b) ≤ neg_part (refill l now b) + l.burst * token =
      ground (arith, r.0) in
    let balanced : pos_part (take_token (refill l now b) now).0.tokens
          + ((if (take_token (refill l now b) now).1 then token else 0) + now * l.per_minute)
        ≤ neg_part (take_token (refill l now b) now).0.tokens
          + (take_token (refill l now b) now).0.last * l.per_minute
          + l.burst * token =
      omega (arith, capped) in
    record {
      balance = balanced;
      bounded = elim (Bool-cases (take_token (refill l now b) now).1) [
        | inl pass ↦ rw pass (omega arith)
        | inr stop ↦ rw stop (omega arith)
      ];
    }

-- The limiter behind a history of requests.
unfoldable pub after_requests : RateLimiter → List (Str × ℕ) → RateLimiter
after_requests l [] = l
after_requests l ((k, now) ∷ rs) = after_requests (allow l k now).0 rs

module _ (key : Str) (per_minute burst start stop : ℕ) where
  passed-Account :
      (l : RateLimiter) (rs : List (Str × ℕ)) (spent : ℕ) (b : Bucket)
      → l.disabled ≡ false
      → l.per_minute ≡ per_minute
      → l.burst ≡ burst
      → lookup key l.buckets ≡ some b
      → Account per_minute burst stop spent b
      → All (Within start stop) rs
      → passed key l rs * token + spent ≤ burst * token + stop * per_minute
  unfolding passed
  passed-Account l [] spent b on e₁ e₂ found a w = omega (arith, a.bounded)
  passed-Account l ((k, now) ∷ rs) spent b on e₁ e₂ found a w =
      let c = allow_config l k now on in
      elim (Bool-cases (str_eq (key_or_unknown k) key)) [
        | inl same ↦
            let at : lookup (key_or_unknown k) l.buckets ≡ some b =
              rw (str_eq_eq (key_or_unknown k) key same) found in
            let res : (allow l k now).1 ≡ (use_bucket l now (some b)).1 =
              rw (← at) (allow_result l k now on) in
            let next : lookup key (allow l k now).0.buckets ≡ some (use_bucket l now (some b)).0 =
              rw (same, at) at (lookup-allow l k now on key) in
            let a' = Account-next l now stop spent b w.0.before (Account-eq (sym e₁) (sym e₂) a) in
            let ih =
              passed-Account (allow l k now).0 rs
                (spent + (if (use_bucket l now (some b)).1 then token else 0))
                (use_bucket l now (some b)).0 c.2 (c.0 ∙ e₁) (c.1 ∙ e₂) next (Account-eq e₁ e₂ a')
                w.1 in
            ground arith
        | inr other ↦
            let next : lookup key (allow l k now).0.buckets ≡ some b =
              rw other at (lookup-allow l k now on key) ∙ found in
            let ih =
              passed-Account (allow l k now).0 rs spent b c.2 (c.0 ∙ e₁) (c.1 ∙ e₂) next a w.1 in
            ground arith
      ]

  -- The requests from `start` on, whatever the buckets hold before.
  passed-from :
      (l : RateLimiter) (rs : List (Str × ℕ))
      → l.disabled ≡ false
      → l.per_minute ≡ per_minute
      → l.burst ≡ burst
      → 1 ≤ burst
      → start ≤ stop
      → All (Within start stop) rs
      → passed key l rs * token + start * per_minute ≤ burst * token + stop * per_minute
  unfolding passed
  passed-from l [] on e₁ e₂ pos_burst le w =
      let m = mul_mono start stop per_minute le in omega arith
  passed-from l ((k, now) ∷ rs) on e₁ e₂ pos_burst le w =
      let c = allow_config l k now on in
      elim (Bool-cases (str_eq (key_or_unknown k) key)) [
        | inl same ↦
            let used = use_bucket l now (lookup (key_or_unknown k) l.buckets) in
            let res : (allow l k now).1 ≡ used.1 = allow_result l k now on in
            let next : lookup key (allow l k now).0.buckets ≡ some used.0 =
              rw same at (lookup-allow l k now on key) in
            let m = mul_mono start now per_minute w.0.after in
            let a = Account-eq e₁ e₂ (
              Account-capped l now stop (lookup (key_or_unknown k) l.buckets) (rw e₂ pos_burst)
                w.0.before) in
            let ih =
              passed-Account (allow l k now).0 rs
                ((if used.1 then token else 0) + now * l.per_minute) used.0 c.2 (c.0 ∙ e₁)
                (c.1 ∙ e₂) next a w.1 in
            let p = ap (λ (x : ℕ). now * x) e₁ in ground arith
        | inr other ↦
            let ih = passed-from (allow l k now).0 rs c.2 (c.0 ∙ e₁) (c.1 ∙ e₂) pos_burst le w.1 in
            ground arith
      ]

after_requests-config :
    (l : RateLimiter) (rs : List (Str × ℕ))
    → l.disabled ≡ false
    → ((after_requests l rs).per_minute ≡ l.per_minute)
      × ((after_requests l rs).burst ≡ l.burst)
      × ((after_requests l rs).disabled ≡ false)
unfolding after_requests
after_requests-config l [] on = (refl, refl, on)
after_requests-config l ((k, now) ∷ rs) on =
    let c = allow_config l k now on in
    let (p, b, d) = after_requests-config (allow l k now).0 rs c.2 in (p ∙ c.0, b ∙ c.1, d)

-- A limiter that NewRateLimiter enables has a burst of at least one.
new_rate_limiter_config :
    (per_minute burst : ℤ)
    → 1 ≤ pos_part per_minute
    → ((new_rate_limiter per_minute burst).disabled ≡ false)
      × ((new_rate_limiter per_minute burst).per_minute ≡ pos_part per_minute)
      × (1 ≤ (new_rate_limiter per_minute burst).burst)
      × ((new_rate_limiter per_minute burst).buckets ≡ [])
unfolding new_rate_limiter
new_rate_limiter_config (pos n) (pos m) h = ground arith
new_rate_limiter_config (pos n) (negsuc m) h = ground arith
new_rate_limiter_config (negsuc n) burst h = absurd (omega arith)

-- In any window of time, behind any history of requests, whatever the other keys do and in whatever order the
-- clock readings come: the requests of one key that pass between `start` and `stop` cost at most the burst
-- and the refill of that time.
pub passed-window :
    (key : Str) (per_minute burst : ℤ) (start stop : ℕ) (earlier rs : List (Str × ℕ))
    → 1 ≤ pos_part per_minute
    → start ≤ stop
    → All (Within start stop) rs
    → passed key (after_requests (new_rate_limiter per_minute burst) earlier) rs * token
        + start * pos_part per_minute
      ≤ (new_rate_limiter per_minute burst).burst * token + stop * pos_part per_minute
passed-window key per_minute burst start stop earlier rs on le w =
    let c = new_rate_limiter_config per_minute burst on in
    let d = after_requests-config (new_rate_limiter per_minute burst) earlier c.0 in
    passed-from key (pos_part per_minute) (new_rate_limiter per_minute burst).burst start stop
      (after_requests (new_rate_limiter per_minute burst) earlier) rs d.2 (d.0 ∙ c.1) d.1 c.2 le w

-- A request passes once the time since the key's last one has refilled a whole token, if the
-- bucket was not overdrawn.
pub allow-after_refill :
    (l : RateLimiter) (key : Str) (now : ℕ) (b : Bucket)
    → lookup (key_or_unknown key) l.buckets ≡ some b
    → 1 ≤ l.burst
    → neg_part b.tokens ≡ 0
    → b.last * l.per_minute + token ≤ now * l.per_minute
    → (allow l key now).1 ≡ true
unfolding allow use_bucket take_token refill
allow-after_refill l key now b found h k enough =
    let sum = +ℤ_parts b.tokens (sub_ℕ (now * l.per_minute) (b.last * l.per_minute)) in
    rw found (ground arith)
