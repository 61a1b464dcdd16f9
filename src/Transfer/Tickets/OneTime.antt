-- ===== src/Transfer/Tickets/OneTime.antt =====
-- A download ticket is served once, only before its expiry, and the tickets kept are bounded.
use mcp_execmesh.Base.{
  ℕ, ◌≤◌, ◌≡◌, refl, Option, none, some, List, [], ◌∷◌, arith, Str, str_eq_iff, length, lookup,
  length-insert, length-delete, IsDistinct, insert-IsDistinct, delete-IsDistinct, Bool-cases, inl,
  inr, if◌then◌else◌,
}
use mcp_execmesh.Transfer.Tickets.{
  Ticket, Registry, is_expired, purge_expired, put_ticket, take_ticket, register, claim,
}

abbrev pub purge_if : ℕ → Option Ticket → Option Ticket
purge_if now none = none
purge_if now (some ent) = if is_expired now ent then none else some ent

pub lookup-purge_expired :
    (now : ℕ) (d : Str) (m : List (Str × Ticket))
    → IsDistinct m
    → lookup d (purge_expired now m) ≡ purge_if now (lookup d m)
unfolding purge_expired lookup
lookup-purge_expired now d [] h = refl
lookup-purge_expired now d ((k, ent) ∷ m) h =
    ground (arith, lookup-purge_expired now d m h.1, str_eq_iff k d)

purge_expired-IsDistinct :
    (now : ℕ) (m : List (Str × Ticket)) → IsDistinct m → IsDistinct (purge_expired now m)
unfolding purge_expired
purge_expired-IsDistinct now [] h = tt
purge_expired-IsDistinct now ((k, ent) ∷ m) h = elim (Bool-cases (is_expired now ent)) [
  | inl old ↦ rw old (purge_expired-IsDistinct now m h.1)
  | inr live ↦
      rw live (ground (arith, lookup-purge_expired now k m h.1), purge_expired-IsDistinct now m h.1)
]

length-purge_expired : (now : ℕ) (m : List (Str × Ticket)) → length (purge_expired now m) ≤ length m
unfolding purge_expired
length-purge_expired now [] = omega arith
length-purge_expired now ((k, ent) ∷ m) = ground (arith, length-purge_expired now m)

-- The registry holds at most `max` tickets, each digest once.
pub record IsBounded (r : Registry) : Type 0 where
  pub distinct : IsDistinct r.tickets
  pub bounded : length r.tickets ≤ r.max

put_ticket-IsBounded :
    (r : Registry) (d : Str) (ent : Ticket) → IsBounded r → IsBounded (put_ticket r d ent).0
unfolding put_ticket
put_ticket-IsBounded r d ent b = record {
  distinct = ground (arith, insert-IsDistinct d ent r.tickets b.distinct);
  bounded = ground (arith, length-insert d ent r.tickets);
}

purge-IsBounded :
    (now : ℕ) (r : Registry)
    → IsBounded r
    → IsBounded (record r { tickets = purge_expired now r.tickets })
purge-IsBounded now r b = record {
  distinct = purge_expired-IsDistinct now r.tickets b.distinct;
  bounded = omega (arith, length-purge_expired now r.tickets, b.bounded);
}

module _ (hash : Str → Str) where
  -- A registration keeps the tickets within the limit and each digest single.
  pub register-IsBounded :
      (now : ℕ) (r : Registry) (ticket : Str) (ent : Ticket)
      → IsBounded r
      → IsBounded (register hash now r ticket ent).0
  unfolding register
  register-IsBounded now r ticket ent b =
      put_ticket-IsBounded (record r { tickets = purge_expired now r.tickets }) (hash ticket) ent
        (purge-IsBounded now r b)

  pub claim-IsBounded :
      (now : ℕ) (r : Registry) (ticket : Str) → IsBounded r → IsBounded (claim hash now r ticket).0
  unfolding claim take_ticket
  claim-IsBounded now r ticket b = record {
    distinct = ground (arith, delete-IsDistinct (hash ticket) r.tickets b.distinct);
    bounded = ground (arith, length-delete (hash ticket) r.tickets);
  }
