-- ===== src/Transfer/Pull/Downloads.antt =====
-- Download links of internal/transfer/manager.go, from PullPrepare to ServeDownload.
use mcp_execmesh.Base.{
  ℕ, ◌≤◌, ◌≡◌, refl, sym, ◌∙◌, ap, Bool, some, Str, Bool-cases, inl, inr, Result-cases, lookup,
  Result, err-ne-ok, ok, err, guard, >>=-eq-ok,
}
use mcp_execmesh.Ssh.Client.{ConnectOptions}
use mcp_execmesh.Target.Registry.{Registry}
use mcp_execmesh.Transfer.Requests.{TransferConfig, ConnectError, cancelled, ticket_failed}
use mcp_execmesh.Transfer.Sftp.{Reader}
use mcp_execmesh.Transfer.Tickets
use mcp_execmesh.Transfer.Tickets.{
  Ticket, TicketError, invalid_token, valid_download_ticket, register, claim,
}
use mcp_execmesh.Transfer.Tickets.Served.{claim-served, claim-gone, claim-missing}
use mcp_execmesh.Transfer.Pull.{Found, Download, send, locate, serve_entry, serve_download, claimed}
use mcp_execmesh.Transfer.Pull.Located.{IsLocated, locate-IsLocated}

module _ {A : Type 0} {H : Type 0} (connect : ConnectOptions A H → Result ConnectError Reader)
    (config : TransferConfig) (registry : Registry A H) (hash : Str → Str) where
  serve_download-state :
      (now : ℕ) (r : Tickets.Registry) (slot head : Bool) (ticket : Str)
      → (serve_download connect config registry hash now r slot head ticket).0
        ≡ (claim hash now r ticket).0
  unfolding serve_download
  serve_download-state now r slot head ticket = go (claim hash now r ticket)
    where
      go :
          (c : Tickets.Registry × Result TicketError Ticket)
          → (claimed connect config registry slot head c).0 ≡ c.0
      go (s, ok entry) = refl
      go (s, err e) = refl

  pub serve_download-of_claim :
      (now : ℕ) (r : Tickets.Registry) (slot head : Bool) (ticket : Str)
      → (c : Result TicketError Ticket) → (claim hash now r ticket).1 ≡ c
      → (serve_download connect config registry hash now r slot head ticket).1
        ≡ (claimed connect config registry slot head ((claim hash now r ticket).0, c)).1
  unfolding serve_download
  serve_download-of_claim now r slot head ticket c e =
      ap (λ d. (claimed connect config registry slot head ((claim hash now r ticket).0, d)).1) e

  serve_entry-located :
      (slot head : Bool) (entry : Ticket) (d : Download)
      → serve_entry connect config registry slot head entry ≡ ok d
      → (f : Found) × (locate connect config registry entry.target_id entry.path ≡ ok f)
        × (send head f ≡ ok d)
  unfolding serve_entry
  serve_entry-located slot head entry d h =
      let (_, _, h₁) = >>=-eq-ok (guard slot cancelled) _ h in
      >>=-eq-ok (locate connect config registry entry.target_id entry.path) (send head) h₁

  claim-spent :
      (now later : ℕ) (r : Tickets.Registry) (ticket : Str)
      → (claim hash later (claim hash now r ticket).0 ticket).1 ≡ err invalid_token
  claim-spent now later r ticket = elim (Bool-cases (valid_download_ticket ticket)) [
    | inl valid ↦
        claim-missing hash later (claim hash now r ticket).0 ticket
          (claim-gone hash now r ticket valid)
    | inr malformed ↦ unfold claim in rw malformed refl
  ]

  -- A download that succeeds has a registered ticket that has not expired; its target is enabled, and what
  -- is sent is a file that the target's allowed paths admit at that moment.
  pub serve_download-IsLocated :
      (now : ℕ) (r : Tickets.Registry) (slot head : Bool) (ticket : Str) (d : Download)
      → (serve_download connect config registry hash now r slot head ticket).1 ≡ ok d
      → (entry : Ticket) × (f : Found) × (lookup (hash ticket) r.tickets ≡ some entry)
        × (now ≤ entry.expires_at)
        × IsLocated connect config registry entry.target_id entry.path f
        × (send head f ≡ ok d)
  serve_download-IsLocated now r slot head ticket d h =
      elim (Result-cases (claim hash now r ticket).1) [
        | inr (e, failed) ↦
            absurd
              (err-ne-ok (sym (serve_download-of_claim now r slot head ticket (err e) failed) ∙ h))
        | inl (entry, found) ↦
            let served : serve_entry connect config registry slot head entry ≡ ok d =
              sym (serve_download-of_claim now r slot head ticket (ok entry) found) ∙ h in
            let (_, stored, fresh) = claim-served hash now r ticket entry found in
            let (f, located, sent) = serve_entry-located slot head entry d served in
            (
              entry,
              f,
              stored,
              fresh,
              locate-IsLocated connect config registry entry.target_id entry.path f located,
              sent,
            )
      ]

-- A link works once: behind a download, whether it succeeded or failed and for whatever reason, every
-- later one with the same ticket is refused, over whatever connection, configuration and targets.
pub serve_download-once :
    {A : Type 0} {H : Type 0} (hash : Str → Str)
    (connect₁ connect₂ : ConnectOptions A H → Result ConnectError Reader)
    (config₁ config₂ : TransferConfig) (registry₁ registry₂ : Registry A H) (now later : ℕ)
    (r : Tickets.Registry) (slot₁ slot₂ head₁ head₂ : Bool) (ticket : Str)
    → (serve_download connect₂ config₂ registry₂ hash later
        (serve_download connect₁ config₁ registry₁ hash now r slot₁ head₁ ticket).0
        slot₂
        head₂
        ticket).1
      ≡ err (ticket_failed invalid_token)
serve_download-once hash connect₁ connect₂ config₁ config₂ registry₁ registry₂ now later r slot₁
      slot₂ head₁ head₂ ticket =
    rw (serve_download-state connect₁ config₁ registry₁ hash now r slot₁ head₁ ticket) (
      serve_download-of_claim connect₂ config₂ registry₂ hash later (claim hash now r ticket).0
        slot₂ head₂ ticket (err invalid_token)
        (claim-spent connect₁ config₁ registry₁ hash now later r ticket))
