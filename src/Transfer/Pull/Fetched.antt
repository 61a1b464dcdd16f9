-- ===== src/Transfer/Pull/Fetched.antt =====
-- A download link of internal/transfer/manager.go, from PullPrepare to ServeDownload.
use mcp_execmesh.Base.{
  false, none, ℤ, pos, ◌≤ℤ◌, leb_ℤ, if◌then◌else◌, ℕ, ◌+◌, ◌*◌, ◌≤◌, ◌≡◌, refl, sym, ◌∙◌, subst, ap,
  Bool, true, Option, some, arith, Str, Result, ok,
}
use mcp_execmesh.Executor.{times_second}
use mcp_execmesh.Config.PublicUrl.{PublicUrl}
use mcp_execmesh.Security.Path.{is_abs}
use mcp_execmesh.Ssh.Client.{ConnectOptions}
use mcp_execmesh.Target.Registry.{Registry}
use mcp_execmesh.Transfer.Requests.{
  PullPrepareRequest, PullPrepareResponse, TransferConfig, ConnectError, TransferError,
}
use mcp_execmesh.Transfer.Sftp.{Reader}
use mcp_execmesh.Transfer.Tickets
use mcp_execmesh.Transfer.Tickets.{
  Ticket, TicketError, invalid_token, valid_download_ticket, register, claim,
}
use mcp_execmesh.Transfer.Tickets.Served.{register-claim}
use mcp_execmesh.Transfer.Pull.{
  Found, Download, download_headers, plus_duration, send, locate, new_ticket, pull_prepare,
  serve_entry, serve_download,
}
use mcp_execmesh.Transfer.Pull.Located.{IsLocated, locate-IsLocated, ticket_ttl-bounds}
use mcp_execmesh.Transfer.Pull.Again.{locate-again}
use mcp_execmesh.Transfer.Pull.Downloads.{serve_download-of_claim}
use mcp_execmesh.Transfer.Pull.Prepared.{Registered, pull_prepare-Registered}

some-injective : {A : Type 0} {a b : A} → some a ≡ some b → a ≡ b
some-injective h = cc

-- What a download of a file answers: the headers to a HEAD, and else the content too, where it can be read.
abbrev pub Sends : Bool → Found → Result TransferError Download → Type 0
Sends true f r = r ≡ ok (record { headers = download_headers f.path f.info.size; body = none })
Sends false f r =
    (content : Str)
    → f.client.open_file f.path ≡ some (record { content = content; broken = false })
    → r ≡ ok (record { headers = download_headers f.path f.info.size; body = some content })

send-Sends :
    (head : Bool) (f : Found) {r : Result TransferError Download} → r ≡ send head f → Sends head f r
send-Sends true f e = e
send-Sends false f e = λ content opened. e ∙ rw opened refl

-- Without a wrap the ticket lasts its seconds.
lasts :
    (now ttl : ℕ)
    → 30 ≤ ttl
    → ttl ≤ 9223372036
    → now + 30 * 1000000000 ≤ plus_duration now (times_second (pos ttl))
lasts now ttl h k = ground arith

below_max :
    (max : ℤ) (ttl : ℕ)
    → pos ttl ≤ℤ (if leb_ℤ max (pos 0) then pos 3600 else max)
    → max ≤ℤ pos 9223372036
    → ttl ≤ 9223372036
below_max max ttl h k = ground arith

module _ {A : Type 0} {H : Type 0} (connect : ConnectOptions A H → Result ConnectError Reader)
    (config : TransferConfig) (registry : Registry A H) (parse_url : Str → Option PublicUrl)
    (print_url : PublicUrl → Str) (hash : Str → Str) where
  serve_entry-of_located :
      (id : Str) (f : Found) (ent : Ticket)
      → ent.target_id ≡ id
      → ent.path ≡ f.path
      → locate connect config registry id f.path ≡ ok f
      → (head : Bool) → serve_entry connect config registry true head ent ≡ send head f
  unfolding serve_entry
  serve_entry-of_located id f ent target path e head = rw (target, path, e) refl

  -- For a path that is absolute, a ticket of the form that is generated and a configured longest lifetime whose
  -- nanoseconds fit an int64: a link that PullPrepare gave out lasts at least 30 seconds, and a download with
  -- it up to its expiry, while the target and its host are as they were, finds the file that the response
  -- names again. It answers a HEAD with the headers, and else sends what the file holds, if that can be read.
  pub pull_prepare-serve_download :
      (now later : ℕ) (r : Tickets.Registry) (base ticket : Str) (req : PullPrepareRequest)
      (resp : PullPrepareResponse) (head : Bool)
      → (pull_prepare connect config registry parse_url print_url hash now r base
          (some ticket)
          req).1
        ≡ ok resp
      → valid_download_ticket ticket ≡ true
      → is_abs req.path ≡ true
      → later ≤ resp.expires_at
      → config.max_download_ticket_ttl ≤ℤ pos 9223372036
      → (now + 30 * 1000000000 ≤ resp.expires_at)
        × ((f : Found) × IsLocated connect config registry req.target req.path f
            × (f.path ≡ resp.path)
            × (f.info.size ≡ resp.size)
            × Sends head f
                (serve_download connect config registry hash later
                  (pull_prepare connect config registry parse_url print_url hash now r base
                    (some ticket)
                    req).0
                  true
                  head
                  ticket).1)
  pull_prepare-serve_download now later r base ticket req resp head h valid root le small =
      let run =
        pull_prepare connect config registry parse_url print_url hash now r base (some ticket)
          req in
      let (ttl, f, made, (lasting, located, given), registration) =
        pull_prepare-Registered connect config registry parse_url print_url hash now r base
          (some ticket) req resp h in
      let ent = new_ticket now req ttl f in
      let (added, after, path, expires, size) =
        subst
          (λ k.
            Registered connect config registry parse_url print_url hash now r req f k ent
              (run.0, resp))
          (sym (some-injective given)) registration in
      let in_time : later ≤ ent.expires_at = subst (λ n. later ≤ n) expires le in
      let (claimed_now, _) = register-claim hash now later later r ticket ent added valid in_time in
      let claim_eq : (claim hash later run.0 ticket).1 ≡ ok ent =
        ap (λ q. (claim hash later q ticket).1) after ∙ claimed_now in
      let (thirty, longest, _) =
        ticket_ttl-bounds req.ttl_seconds config.default_download_ticket_ttl
          config.max_download_ticket_ttl ttl lasting in
      (
        subst (λ n. now + 30 * 1000000000 ≤ n) (sym expires)
            (lasts now ttl thirty (below_max config.max_download_ticket_ttl ttl longest small)),
        (
          f,
          locate-IsLocated connect config registry req.target req.path f located,
          sym path,
          sym size,
          send-Sends head f (
              serve_download-of_claim connect config registry hash later run.0 true head ticket
                (ok ent) claim_eq
              ∙ serve_entry-of_located req.target f ent refl refl
                  (locate-again connect config registry req.target req.path f root located) head),
        ),
      )
