-- ===== src/Transfer/Tickets.antt =====
-- internal/transfer/registry.go and ticket.go: one-time download tickets. The hash (sha256.Sum256) is a
-- parameter, times are numbers, and the clock's reading is an argument.
pub mod OneTime
pub mod Served
use mcp_execmesh.Base.{
  ℕ, ◌+◌, ◌≤◌, ◌<◌, Bool, true, false, ◌&&◌, not, Option, none, some, List, [], ◌∷◌, Str, ltb, leb,
  ◌==◌, length, lookup, insert, delete, if◌then◌else◌, Result, ok, err, ℤ, pos, leb_ℤ, pos_part,
}
use mcp_execmesh.Security.Digest.{all_token_bytes}

pub record Ticket : Type 0 where
  pub target_id : Str
  pub path : Str
  pub expires_at : ℕ

pub record Registry : Type 0 where
  pub tickets : List (Str × Ticket)
  pub max : ℕ

pub data TicketError : Type 0 where
  invalid_token : TicketError
  ticket_limit : TicketError

unfoldable pub new_registry : ℤ → Registry
new_registry max_active = record {
  tickets = [];
  max = if leb_ℤ max_active (pos 0) then 100 else pos_part max_active;
}

-- ^[A-Za-z0-9_-]{43}$
unfoldable pub valid_download_ticket : Str → Bool
valid_download_ticket ticket = (length ticket == 43) && all_token_bytes ticket

-- now.After(ent.ExpiresAt)
abbrev pub is_expired : ℕ → Ticket → Bool
is_expired now ent = ltb ent.expires_at now

unfoldable pub purge_expired : ℕ → List (Str × Ticket) → List (Str × Ticket)
purge_expired now [] = []
purge_expired now ((digest, ent) ∷ m) =
    let rest = purge_expired now m in if is_expired now ent then rest else (digest, ent) ∷ rest

unfoldable pub put_ticket : Registry → Str → Ticket → Registry × Option TicketError
put_ticket r digest ent =
    if leb r.max (length r.tickets)
    then (r, some ticket_limit)
    else elim (lookup digest r.tickets) [
      | some _ ↦ (r, some ticket_limit)
      | none ↦ (record r { tickets = insert digest ent r.tickets }, none)
    ]

unfoldable pub take_ticket :
    ℕ → Registry → Str → Option Ticket → Registry × Result TicketError Ticket
take_ticket now r digest none = (r, err invalid_token)
take_ticket now r digest (some ent) = (
  record r { tickets = delete digest r.tickets },
  if is_expired now ent then err invalid_token else ok ent,
)

module _ (hash : Str → Str) where
  -- Purged entries stay purged when the registration fails.
  unfoldable pub register : ℕ → Registry → Str → Ticket → Registry × Option TicketError
  register now r ticket ent =
      put_ticket (record r { tickets = purge_expired now r.tickets }) (hash ticket) ent

  unfoldable pub claim : ℕ → Registry → Str → Registry × Result TicketError Ticket
  claim now r ticket =
      if not (valid_download_ticket ticket)
      then (r, err invalid_token)
      else take_ticket now r (hash ticket) (lookup (hash ticket) r.tickets)
