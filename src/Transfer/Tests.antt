-- ===== src/Transfer/Tests.antt =====
-- Tests of internal/transfer, and its theorems at concrete inputs.
use mcp_execmesh.Base.{
  ◌≡◌, refl, ◌+◌, ◌≤◌, none, some, List, [], ◌∷◌, arith, Str, codes, str_eq, lookup, insert, delete,
  ok, err,
}
use mcp_execmesh.Security.Digest.{all_token_bytes}
use mcp_execmesh.Transfer.Tickets.{
  Ticket, Registry, invalid_token, ticket_limit, valid_download_ticket, purge_expired, put_ticket,
  take_ticket, register, claim,
}
use mcp_execmesh.Transfer.Tickets.OneTime.{IsBounded, register-IsBounded}
use mcp_execmesh.Transfer.Tickets.Served.{
  Op, registers, claims, apply_op, times_registered, times_served, present, times_served-le,
}

tickets : Unit {0}
unfolding str_eq lookup insert delete all_token_bytes valid_download_ticket purge_expired put_ticket
    take_ticket register claim
tickets = tt

abbrev identity_hash : Str → Str
identity_hash s = s

abbrev link : Str
link = codes "AAAAAAAAAAAAAAAAAAAAAAAAAAAAAAAAAAAAAAAAAA0"

abbrev log_file : Ticket
log_file = record { target_id = codes "web-01"; path = codes "/var/log/a"; expires_at = 900 }

abbrev no_tickets : Registry
no_tickets = record { tickets = []; max = 1 }

abbrev one_ticket : Registry
one_ticket = record { tickets = (link, log_file) ∷ []; max = 1 }

ticket_tests :
    (register identity_hash 0 no_tickets link log_file ≡ (one_ticket, none))
    × (claim identity_hash 900 one_ticket link ≡ (no_tickets, ok log_file))
    × (claim identity_hash 901 one_ticket link ≡ (no_tickets, err invalid_token))
    × ((register identity_hash 900 one_ticket (codes "b") log_file).1 ≡ some ticket_limit)
    × ((register identity_hash 901 one_ticket (codes "b") log_file).1 ≡ none)
unfolding tickets
ticket_tests = (refl, refl, refl, refl, refl)

register-IsBounded_example : IsBounded (register identity_hash 0 no_tickets link log_file).0
register-IsBounded_example =
    register-IsBounded identity_hash 0 no_tickets link log_file
      (record { distinct = tt; bounded = omega arith })

abbrev history : List Op
history = registers 0 link log_file ∷ claims 5 link ∷ claims 6 link ∷ []

times_served-le_example :
    times_served identity_hash link no_tickets history
    ≤ times_registered identity_hash link no_tickets history + present identity_hash link no_tickets
times_served-le_example =
    times_served-le identity_hash link no_tickets history
      (record { distinct = tt; bounded = omega arith })

history_test : times_served identity_hash link no_tickets history ≡ 1
unfolding tickets apply_op
history_test = refl
