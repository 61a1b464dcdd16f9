-- ===== src/Transfer/Pull/Prepared.antt =====
-- What PullPrepare of internal/transfer/manager.go registered, where it succeeds.
use mcp_execmesh.Base.{
  ℕ, ◌≡◌, refl, sym, ◌∙◌, subst, ap, true, not, Option, none, some, [], ◌∷◌, Str, codes, is_empty,
  trim_space, inl, inr, Result-cases, Result, err-ne-ok, ok, guard, >>=-eq-ok, ok-injective,
}
use mcp_execmesh.Config.PublicUrl.{PublicUrl, validate_public_base_url, join_public_url}
use mcp_execmesh.Ssh.Client.{ConnectOptions}
use mcp_execmesh.Target.Registry.{Registry}
use mcp_execmesh.Transfer.Requests.{
  PullPrepareRequest, PullPrepareResponse, TransferConfig, ConnectError, TransferError,
  invalid_download_ttl, invalid_public_base_url, public_base_url_not_configured, no_random_ticket,
  map_err,
}
use mcp_execmesh.Transfer.Sftp.{Reader}
use mcp_execmesh.Transfer.Tickets
use mcp_execmesh.Transfer.Tickets.{
  Ticket, TicketError, invalid_token, valid_download_ticket, register, claim,
}
use mcp_execmesh.Transfer.Pull.{
  Found, ticket_ttl, locate, check_pull, new_ticket, pull_prepare, or_failed, registered,
}

or_failed-ok :
    {A : Type 0} (e : TransferError) (o : Option A) {a : A} → or_failed e o ≡ ok a → o ≡ some a
or_failed-ok e none h = absurd cc
or_failed-ok e (some b) h = cc

module _ {A : Type 0} {H : Type 0} (connect : ConnectOptions A H → Result ConnectError Reader)
    (config : TransferConfig) (registry : Registry A H) (parse_url : Str → Option PublicUrl)
    (print_url : PublicUrl → Str) (hash : Str → Str) where
  -- What PullPrepare found before it registered the ticket.
  abbrev pub Checked : PullPrepareRequest → Option Str → ℕ → Found → Str → Type 0
  Checked req random ttl f ticket =
      (ticket_ttl req.ttl_seconds config.default_download_ticket_ttl config.max_download_ticket_ttl
        ≡ some ttl)
      × (locate connect config registry req.target req.path ≡ ok f)
      × (random ≡ some ticket)

  check_pull-Checked :
      (base : Str) (random : Option Str) (req : PullPrepareRequest) (c : ℕ × Found × Str)
      → check_pull connect config registry parse_url print_url hash base random req ≡ ok c
      → Checked req random c.0 c.1 c.2
  unfolding check_pull
  check_pull-Checked base random req c h =
      let lifetime =
        ticket_ttl req.ttl_seconds config.default_download_ticket_ttl
          config.max_download_ticket_ttl in
      let (_, _, h₁) =
        >>=-eq-ok (guard (not (is_empty (trim_space base))) public_base_url_not_configured) _ h in
      let (_, _, h₂) =
        >>=-eq-ok (map_err invalid_public_base_url (validate_public_base_url parse_url base true)) _
          h₁ in
      let (ttl, lasting, h₃) = >>=-eq-ok (or_failed invalid_download_ttl lifetime) _ h₂ in
      let (f, located, h₄) = >>=-eq-ok (locate connect config registry req.target req.path) _ h₃ in
      let (ticket, made, h₅) = >>=-eq-ok (or_failed no_random_ticket random) _ h₄ in
      subst (λ d. Checked req random d.0 d.1 d.2) (ok-injective h₅)
        (or_failed-ok _ lifetime lasting, located, or_failed-ok _ random made)

  abbrev pub run :
      ℕ
      → Tickets.Registry
      → Str
      → Option Str
      → PullPrepareRequest
      → Tickets.Registry × Result TransferError PullPrepareResponse
  run = pull_prepare connect config registry parse_url print_url hash

  -- The ticket was registered and the response is about the file.
  abbrev pub Registered :
      ℕ
      → Tickets.Registry
      → PullPrepareRequest
      → Found
      → Str
      → Ticket
      → Tickets.Registry × PullPrepareResponse
      → Type 0
  Registered now r req f ticket ent (after, resp) =
      ((register hash now r ticket ent).1 ≡ none)
      × (after ≡ (register hash now r ticket ent).0)
      × (resp.path ≡ f.path)
      × (resp.expires_at ≡ ent.expires_at)
      × (resp.size ≡ f.info.size)

  registered-ok :
      (now : ℕ) (r : Tickets.Registry) (base : Str) (req : PullPrepareRequest) (f : Found)
      (ticket : Str) (ent : Ticket) (resp : PullPrepareResponse)
      → (registered connect config registry parse_url print_url hash base req ent f ticket
          (register hash now r ticket ent)).1
        ≡ ok resp
      → Registered now r req f ticket ent (
        (registered connect config registry parse_url print_url hash base req ent f ticket
            (register hash now r ticket ent)).0,
        resp,
      )
  registered-ok now r base req f ticket ent resp = go (register hash now r ticket ent)
    where
      go :
          (c : Tickets.Registry × Option TicketError)
          → (registered connect config registry parse_url print_url hash base req ent f ticket c).1
            ≡ ok resp
          → (c.1 ≡ none)
            × ((registered connect config registry parse_url print_url hash base req ent f ticket
                  c).0
                ≡ c.0)
            × (resp.path ≡ f.path)
            × (resp.expires_at ≡ ent.expires_at)
            × (resp.size ≡ f.info.size)
      go (s, some e) h = absurd (err-ne-ok h)
      go (s, none) h =
          let (url, _, done) =
            >>=-eq-ok
              (map_err invalid_public_base_url
                (join_public_url parse_url print_url base (codes "files" ∷ ticket ∷ [])))
              _ h in
          let same = ok-injective done in
          (
            refl,
            refl,
            ap (λ a. a.path) (sym same),
            ap (λ a. a.expires_at) (sym same),
            ap (λ a. a.size) (sym same),
          )

  run-of_check :
      (now : ℕ) (r : Tickets.Registry) (base : Str) (random : Option Str) (req : PullPrepareRequest)
      (ttl : ℕ) (f : Found) (ticket : Str)
      → check_pull connect config registry parse_url print_url hash base random req
        ≡ ok (ttl, f, ticket)
      → run now r base random req
        ≡ registered connect config registry parse_url print_url hash base req
            (new_ticket now req ttl f)
            f
            ticket
            (register hash now r ticket (new_ticket now req ttl f))
  unfolding pull_prepare
  run-of_check now r base random req ttl f ticket e = rw (e, pull_prepare) refl

  pub pull_prepare-Registered :
      (now : ℕ) (r : Tickets.Registry) (base : Str) (random : Option Str) (req : PullPrepareRequest)
      (resp : PullPrepareResponse)
      → (run now r base random req).1 ≡ ok resp
      → (ttl : ℕ) × (f : Found) × (ticket : Str) × Checked req random ttl f ticket
        × Registered now r req f ticket
            (new_ticket now req ttl f)
            ((run now r base random req).0, resp)
  unfolding pull_prepare
  pull_prepare-Registered now r base random req resp h =
      elim (Result-cases
        (check_pull connect config registry parse_url print_url hash base random req)) [
          | inr (e, failed) ↦ absurd (err-ne-ok (rw (failed, pull_prepare) at h))
          | inl (c, passed) ↦
              let ent = new_ticket now req c.0 c.1 in
              let same = run-of_check now r base random req c.0 c.1 c.2 passed in
              (
                c.0,
                c.1,
                c.2,
                check_pull-Checked base random req c passed,
                subst (λ o. Registered now r req c.1 c.2 ent (o.0, resp)) (sym same)
                    (registered-ok now r base req c.1 c.2 ent resp (ap (λ o. o.1) (sym same) ∙ h)),
              )
        ]
