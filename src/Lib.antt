-- ===== src/Lib.antt =====
-- Verification of mcp-execmesh, an MCP server that runs commands and moves files on remote
-- hosts over SSH.
--
-- A request carries a token. The middleware (Security.Middleware) looks it up in the token
-- registry (Security.Registry), which was filled from the capability and bearer files; the
-- principal found is limited by the rate limiter (Security.RateLimit). Each tool then
-- authorizes a scope and a target (Security.Scope), checks the command (Security.Policy) or
-- the path (Security.Path), takes a slot of the SSH pool (Ssh.Pool) and collects the output
-- in bounded buffers (Ssh.LimitedBuffer). A job is a script that is left running on the host
-- (Jobs); its target is found again by an index (Jobs.Resolve), its log is read in pages
-- (Jobs.Logs). A file is put on a host from a URL (Transfer.Push), which a guard keeps away
-- from private addresses (Security.Ssrf), and handed out through a one-time ticket
-- (Transfer.Tickets, Transfer.Pull). The targets are edited in their file, which is then
-- loaded again (Management, Config.Sidecars).
--
-- Which file models which part of the code:
--   * Base: strings as lists of bytes with the functions of package strings, maps and sets
--     as association lists, results; nothing of the program itself.
--   * Security.Scope, Security.Access: internal/security/scope.go and the Principal of
--     auth.go (Authorize, AuthorizeAny, ScopeSet, TargetSet, HasScope, AllowsTarget).
--   * Security.Path and its children: internal/security/path.go (IsPathAllowed,
--     CleanAndValidatePath), with path/filepath's Clean and Join on Unix.
--   * Security.Policy: internal/security/policy.go (ValidateCommand).
--   * Security.RateLimit: internal/security/ratelimit.go (NewRateLimiter, Allow).
--   * Security.Digest, Security.Credentials, Security.Registry and its children:
--     internal/security/capability.go and registry.go (Reload, indexCapabilities,
--     indexBearers, verify, VerifyCapability, VerifyBearer).
--   * Ssh.LimitedBuffer, Ssh.Pool: internal/ssh/bounded_writer.go and pool.go.
--   * Ssh.Client, Ssh.Client.Words: internal/ssh/client.go (Exec, buildCommand), and how a
--     POSIX shell reads a quoted word.
--   * Target, Target.Registry: internal/target/model.go and registry.go, with TargetConfig
--     of internal/config/config.go.
--   * Jobs: internal/jobs/model.go; Jobs.Remote and Jobs.Parse: remote.go (the scripts,
--     ParseQueryOutput, ParseReadOutput); Jobs.Resolve, Jobs.Manager and Jobs.Start:
--     manager.go (resolveTarget, Status, Output, Cancel, Start). Jobs.Scripts, Jobs.Pages,
--     Jobs.Logs, Jobs.Launch and Jobs.Tracking hold their proofs.
--   * Config, Config.Valid: internal/config/validate.go (what Validate checks of the
--     targets).
--   * Executor, Executor.Limits: internal/executor/exec.go (Exec and its time limit).
--   * Tools, Tools.Access: internal/mcp/tools/jobs.go and authz.go (the handlers
--     exec_start, job_status, job_output and job_cancel, and filterTargets).
--   * Tools.Files, Tools.Files.Authorized: internal/mcp/tools/transfer.go (the handlers
--     file_push, file_push_url, file_stat, file_hash and file_pull_prepare), over the
--     interface TransferManager.
--   * Tools.Targets: internal/mcp/tools/targets.go (targets_list, target_info).
--   * Transfer.Tickets and its children: internal/transfer/registry.go and ticket.go
--     (register, claim, purgeExpired).
--   * Transfer.Sftp, Transfer.Sftp.Memory: the client of github.com/pkg/sftp as a record of
--     operations with their laws, and a host in memory that obeys them.
--   * Transfer.Links, Transfer.Links.Resolved: internal/transfer/download.go
--     (safeDownloadFilename, resolveRemoteFilePath).
--   * Transfer.Requests: internal/transfer/model.go and the errors of manager.go;
--     Transfer.Mode, Transfer.Prepare and Transfer.Push: manager.go (Push, with
--     countingReader); Transfer.Pull: manager.go (Stat, Hash, PullPrepare, ServeDownload).
--     Their children hold the proofs.
--   * Security.Requests: what internal/security/auth.go, capability.go and middleware.go
--     read of a request (NewAuthenticator and the Authenticators, ParseCapabilityPath,
--     extractBearerOrAPIKey); Security.Middleware, Security.Middleware.Served:
--     middleware.go, cors.go and the middleware of ratelimit.go.
--   * Security.Ssrf and its children: internal/security/ssrf.go (IsPrivateIP, ValidateURL,
--     and the checks of NewSafeHTTPClient).
--   * Config.PublicUrl and Config.Sidecars: internal/config/public_url.go and files.go.
--   * Management, Management.Update, Management.Add: internal/management/service.go
--     (mutateTargets with EnableTarget, DisableTarget and RemoveTarget; UpdateTarget;
--     AddTarget). Their siblings hold the proofs.
--
-- The hash of a token (sha256), time.Parse and what reading a YAML file gives are parameters
-- or arguments; so are the readings of the clock, in nanoseconds. What a remote host does
-- with a command is a function from the connection's options to the writes and the end of a
-- session; making SSH authentication methods, and the JSON of a job's metadata, are
-- parameters too. So are url.Parse, net.ParseIP, the answer of the HTTP client and the
-- operations of the SFTP client; what the SFTP client promises of a temporary file and its
-- destination, where an operation succeeds, is a record of laws. The lock, the backup, the
-- write of the file, the reload and the connection test of the administration are values of
-- an environment. Maps are visited in the order of their list, where Go's order is open.
-- Strings are ASCII where case or white space matters. The rate limiter counts in units of 1
-- / (60 * 10^9) of a token, exact where the source computes in float64. The byte counters do
-- not wrap at 2^63. The printing of a number takes the number as fuel, which is enough, since
-- a division by ten leaves less; the loop over symbolic links has the eight steps of the
-- source; every other loop goes through a list.
--
-- Not modelled: HTTP bodies and headers that are only written, DNS and SSH traffic, the file
-- system, random tokens, logs and the command line, which are input and output; the reading
-- of YAML, the validation of the other sections of the configuration, the administration of
-- known hosts (internal/management/knownhosts), the tools for administration, which pass
-- their input on, and the tool exec.
pub mod Base
pub mod Security
pub mod Ssh
pub mod Transfer
pub mod Target
pub mod Jobs
pub mod Executor
pub mod Tools
pub mod Config
pub mod Management
