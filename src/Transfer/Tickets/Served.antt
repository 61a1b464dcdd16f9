-- ===== src/Transfer/Tickets/Served.antt =====
-- What registering and claiming a download ticket gives, and how often.
use mcp_execmesh.Base.{
  ℕ, ◌+◌, ◌≤◌, ◌≡◌, ◌&&◌, Bool, true, false, Option, none, some, List, [], ◌∷◌, arith, Str, str_eq,
  str_eq_iff, str_eq_refl, lookup, lookup-insert, lookup-delete, if◌then◌else◌, Result, ok, err,
}
use mcp_execmesh.Transfer.Tickets.{
  Ticket, Registry, TicketError, invalid_token, valid_download_ticket, purge_expired, put_ticket,
  take_ticket, register, claim,
}
use mcp_execmesh.Transfer.Tickets.OneTime.{
  IsBounded, lookup-purge_expired, register-IsBounded, claim-IsBounded,
}

-- An operation of a history, with the clock's reading.
pub data Op : Type 0 where
  registers : ℕ → Str → Ticket → Op
  claims : ℕ → Str → Op

abbrev pub succeeded : Option TicketError → Bool
succeeded none = true
succeeded (some _) = false

abbrev pub is_ok : Result TicketError Ticket → Bool
is_ok (ok _) = true
is_ok (err _) = false

module _ (hash : Str → Str) where
  pub register-found :
      (now : ℕ) (r : Registry) (ticket : Str) (ent : Ticket)
      → (register hash now r ticket ent).1 ≡ none
      → lookup (hash ticket) (register hash now r ticket ent).0.tickets ≡ some ent
  unfolding register put_ticket
  register-found now r ticket ent e = ground (
    arith,
    lookup-insert (hash ticket) (hash ticket) ent (purge_expired now r.tickets),
    str_eq_refl (hash ticket),
  )

  pub claim-gone :
      (now : ℕ) (r : Registry) (ticket : Str)
      → valid_download_ticket ticket ≡ true
      → lookup (hash ticket) (claim hash now r ticket).0.tickets ≡ none
  unfolding claim take_ticket
  claim-gone now r ticket v =
      ground (arith, lookup-delete (hash ticket) (hash ticket) r.tickets, str_eq_refl (hash ticket))

  pub claim-missing :
      (now : ℕ) (r : Registry) (ticket : Str)
      → lookup (hash ticket) r.tickets ≡ none
      → (claim hash now r ticket).1 ≡ err invalid_token
  unfolding claim take_ticket
  claim-missing now r ticket e = ground arith

  -- A ticket that was registered is served with its entry by a claim up to its expiry, and by no claim
  -- after that one, at whatever time.
  pub register-claim :
      (now later last : ℕ) (r : Registry) (ticket : Str) (ent : Ticket)
      → (register hash now r ticket ent).1 ≡ none
      → valid_download_ticket ticket ≡ true
      → later ≤ ent.expires_at
      → let r₁ = (register hash now r ticket ent).0 in
        let r₂ = (claim hash later r₁ ticket).0 in
        ((claim hash later r₁ ticket).1 ≡ ok ent)
        × ((claim hash last r₂ ticket).1 ≡ err invalid_token)
  register-claim now later last r ticket ent e v le =
      let r₁ = (register hash now r ticket ent).0 in
      let found = register-found now r ticket ent e in
      (
        unfold claim take_ticket in ground arith,
        claim-missing last (claim hash later r₁ ticket).0 ticket (claim-gone later r₁ ticket v),
      )

  -- A ticket is served only if it has the right form, its digest is registered and it has not expired;
  -- every other digest keeps its entry.
  pub claim-served :
      (now : ℕ) (r : Registry) (ticket : Str) (ent : Ticket)
      → (claim hash now r ticket).1 ≡ ok ent
      → (valid_download_ticket ticket ≡ true)
        × (lookup (hash ticket) r.tickets ≡ some ent)
        × (now ≤ ent.expires_at)
  unfolding claim take_ticket
  claim-served now r ticket ent e = (ground arith, ground arith, ground arith)

  unfoldable pub apply_op : Registry → Op → Registry
  apply_op r (registers now ticket ent) = (register hash now r ticket ent).0
  apply_op r (claims now ticket) = (claim hash now r ticket).0

  -- How often a digest was registered, and served, in a history.
  abbrev pub registered : Str → Registry → Op → ℕ
  registered d r (registers now ticket ent) =
      if succeeded (register hash now r ticket ent).1 && str_eq (hash ticket) d then 1 else 0
  registered d r (claims now ticket) = 0

  abbrev pub served : Str → Registry → Op → ℕ
  served d r (registers now ticket ent) = 0
  served d r (claims now ticket) =
      if is_ok (claim hash now r ticket).1 && str_eq (hash ticket) d then 1 else 0

  abbrev pub times_registered : Str → Registry → List Op → ℕ
  times_registered d r [] = 0
  times_registered d r (op ∷ ops) = registered d r op + times_registered d (apply_op r op) ops

  abbrev pub times_served : Str → Registry → List Op → ℕ
  times_served d r [] = 0
  times_served d r (op ∷ ops) = served d r op + times_served d (apply_op r op) ops

  abbrev pub present : Str → Registry → ℕ
  present d r = elim (lookup d r.tickets) [ none ↦ 0 | some _ ↦ 1 ]

  apply_op-IsBounded : (r : Registry) (op : Op) → IsBounded r → IsBounded (apply_op r op)
  unfolding apply_op
  apply_op-IsBounded r (registers now ticket ent) b = register-IsBounded hash now r ticket ent b
  apply_op-IsBounded r (claims now ticket) b = claim-IsBounded hash now r ticket b

  apply_op-account :
      (d : Str) (r : Registry) (op : Op)
      → IsBounded r
      → served d r op + present d (apply_op r op) ≤ registered d r op + present d r
  unfolding apply_op register put_ticket claim take_ticket
  apply_op-account d r (registers now ticket ent) b = ground (
    arith,
    lookup-purge_expired now d r.tickets b.distinct,
    lookup-insert (hash ticket) d ent (purge_expired now r.tickets),
  )
  apply_op-account d r (claims now ticket) b =
      ground (arith, lookup-delete (hash ticket) d r.tickets, str_eq_iff (hash ticket) d)

  -- In every history of registrations and claims, at any times, a digest is served at most as often as it
  -- was registered: a link works once.
  pub times_served-le :
      (d : Str) (r : Registry) (ops : List Op)
      → IsBounded r
      → times_served d r ops ≤ times_registered d r ops + present d r
  times_served-le d r [] b = omega arith
  times_served-le d r (op ∷ ops) b = omega (
    arith,
    apply_op-account d r op b,
    times_served-le d (apply_op r op) ops (apply_op-IsBounded r op b),
  )
