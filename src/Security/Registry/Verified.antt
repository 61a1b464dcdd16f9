-- ===== src/Security/Registry/Verified.antt =====
-- What VerifyCapability and VerifyBearer of internal/security/registry.go accept.
use mcp_execmesh.Base.{
  ◌≡◌, refl, ◌≢◌, ◌↔◌, inl, inr, ◌≤◌, true, false, Option, none, some, List, arith, ℕ, Str, codes,
  str_eq_iff, lookup, In, Option-cases, Result, ok, err, >>=-eq-ok,
}
use mcp_execmesh.Security.Scope.{Principal, scope_set, target_set}
use mcp_execmesh.Security.Credentials.{
  CapabilityFileEntry, BearerFileEntry, Identity, Snapshot, RegistryError, FileRead, loaded,
  Manager,
}
use mcp_execmesh.Security.Registry.{
  collect_digests, capability_identity, bearer_identity, full_access_identity, build_snapshot,
  reload, store, is_expired, principal_of, check_identity, verify, verify_capability,
  parse_optional_time,
}
use mcp_execmesh.Security.Registry.Sources.{
  legacy_bearer, legacy_api_key, Source, capability, bearer, legacy, build_snapshot-sources,
}

-- The expiry, if there is one, is not before `now`.
abbrev pub IsAlive : ℕ → Option ℕ → Type 0
IsAlive now none = Unit
IsAlive now (some exp) = now ≤ exp

-- The identity that a token names, and the principal that it becomes.
pub record Accepts (hash : Str → Str) (snap : Snapshot) (now : ℕ) (token want ip : Str)
    (p : Principal) : Type 0 where
  pub identity : Identity
  pub found : lookup (hash token) snap ≡ some identity
  pub type : identity.auth_type ≡ want
  pub enabled : identity.enabled ≡ true
  pub alive : IsAlive now identity.expires_at
  pub principal : p ≡ principal_of identity ip

is_expired_iff : (now : ℕ) (o : Option ℕ) → (is_expired now o ≡ false) ↔ IsAlive now o
is_expired_iff now none = ground arith
is_expired_iff now (some exp) = ground arith

check_identity-ok :
    (now : ℕ) (want ip : Str) (id : Identity) (p : Principal)
    → check_identity now want ip (some id) ≡ ok p
    → (id.auth_type ≡ want)
      × (id.enabled ≡ true)
      × IsAlive now id.expires_at
      × (p ≡ principal_of id ip)
unfolding check_identity
check_identity-ok now want ip id p e =
    ground (arith, str_eq_iff id.auth_type want, is_expired_iff now id.expires_at)

pub check_identity-pass :
    (now : ℕ) (want ip : Str) (id : Identity)
    → id.auth_type ≡ want
    → id.enabled ≡ true
    → IsAlive now id.expires_at
    → check_identity now want ip (some id) ≡ ok (principal_of id ip)
unfolding check_identity
check_identity-pass now want ip id t en al =
    ground (arith, str_eq_iff id.auth_type want, is_expired_iff now id.expires_at)

-- A token is accepted exactly when its digest names an identity of the wanted type that is enabled and
-- has not expired; the principal then carries that identity's grants.
pub verify_iff :
    (hash : Str → Str) (m : Manager) (snap : Snapshot) (now : ℕ) (token want ip : Str)
    (p : Principal)
    → m.current ≡ some snap
    → (verify hash m now token want ip ≡ ok p) ↔ Accepts hash snap now token want ip p
unfolding verify
verify_iff hash m snap now token want ip p cur = rw cur (sound, complete)
  where
    sound :
        check_identity now want ip (lookup (hash token) snap) ≡ ok p
        → Accepts hash snap now token want ip p
    sound e = elim (Option-cases (lookup (hash token) snap)) [
      | inl missing ↦ absurd (unfold check_identity in ground arith)
      | inr (id, found) ↦
          let (t, en, al, same) = check_identity-ok now want ip id p (rw found at e) in
          record {
            identity = id;
            found = found;
            type = t;
            enabled = en;
            alive = al;
            principal = same;
          }
    ]

    complete :
        Accepts hash snap now token want ip p
        → check_identity now want ip (lookup (hash token) snap) ≡ ok p
    complete a =
        rw (a.found, a.principal)
          (check_identity-pass now want ip a.identity a.type a.enabled a.alive)

module _ (parse_time : Str → Option ℕ) (hash : Str → Str)
    (read_capabilities : Str → FileRead CapabilityFileEntry)
    (read_bearers : Str → FileRead BearerFileEntry) where
  pub reload-current :
      (m : Manager)
      → (reload parse_time hash read_capabilities read_bearers m).1 ≡ none
      → (snap : Snapshot) × (build_snapshot parse_time hash read_capabilities read_bearers m
          ≡ ok snap)
        × ((reload parse_time hash read_capabilities read_bearers m).0
            ≡ record m { current = some snap })
  unfolding reload
  reload-current m e = go (build_snapshot parse_time hash read_capabilities read_bearers m) e
    where
      go :
          (r : Result RegistryError Snapshot)
          → (store m r).1 ≡ none
          → (snap : Snapshot) × (r ≡ ok snap) × ((store m r).0 ≡ record m { current = some snap })
      go (ok snap) h = (snap, refl, refl)
      go (err x) h = cc

  -- A Reload that returns an error leaves the manager as it was: the tokens accepted before are
  -- accepted as before, and no others.
  pub reload_failure :
      (m : Manager)
      → (reload parse_time hash read_capabilities read_bearers m).1 ≢ none
      → (reload parse_time hash read_capabilities read_bearers m).0 ≡ m
  unfolding reload
  reload_failure m h = go (build_snapshot parse_time hash read_capabilities read_bearers m) h
    where
      go : (r : Result RegistryError Snapshot) → (store m r).1 ≢ none → (store m r).0 ≡ m
      go (ok snap) k = absurd (k refl)
      go (err x) k = refl

  -- The entry of the capability file that grants what a principal carries.
  pub record Grantor (m : Manager) (now : ℕ) (token : Str) (p : Principal) : Type 0 where
    pub ents : List CapabilityFileEntry
    pub read : read_capabilities m.capability_file ≡ loaded ents
    pub entry : CapabilityFileEntry
    pub listed : In entry ents
    pub digest : In (hash token) (collect_digests entry.token_sha256 entry.active_tokens)
    pub enabled : entry.enabled ≡ true
    pub expiry : Option ℕ
    pub parsed : parse_optional_time parse_time entry.expires_at ≡ ok expiry
    pub alive : IsAlive now expiry
    pub id : p.id ≡ entry.id
    pub scopes : p.scopes ≡ scope_set entry.scopes
    pub targets : p.targets ≡ target_set entry.targets

  pub capability_identity-eq :
      (ent : CapabilityFileEntry) (id : Identity)
      → capability_identity parse_time ent ≡ ok id
      → (exp : Option ℕ) × (parse_optional_time parse_time ent.expires_at ≡ ok exp)
        × (id.expires_at ≡ exp)
        × (id.enabled ≡ ent.enabled)
        × (id.id ≡ ent.id)
        × (id.scopes ≡ scope_set ent.scopes)
        × (id.targets ≡ target_set ent.targets)
  unfolding capability_identity
  capability_identity-eq ent id e =
      let (exp, parsed, made) = >>=-eq-ok _ _ e in (exp, parsed, cc, cc, cc, cc, cc)

  bearer_identity-type :
      (ent : BearerFileEntry) (id : Identity)
      → bearer_identity parse_time ent ≡ ok id
      → id.auth_type ≡ codes "bearer"
  unfolding bearer_identity
  bearer_identity-type ent id e =
      let (exp, parsed, made) = >>=-eq-ok (parse_optional_time parse_time ent.expires_at) _ e in
      cc made

  Source-Grantor :
      (m : Manager) (now : ℕ) (token ip : Str) (p : Principal) (id : Identity)
      → Source parse_time hash read_capabilities read_bearers m (hash token) id
      → id.auth_type ≡ codes "capability"
      → id.enabled ≡ true
      → IsAlive now id.expires_at
      → p ≡ principal_of id ip
      → Grantor m now token p
  Source-Grantor m now token ip p id (capability ents read s) t en al same =
      let (exp, parsed, e₁, e₂, e₃, e₄, e₅) = capability_identity-eq s.entry id s.identity in
      record {
        ents = ents;
        read = read;
        entry = s.entry;
        listed = s.listed;
        digest = s.digest;
        enabled = cc;
        expiry = exp;
        parsed = parsed;
        alive = rw e₁ at al;
        id = cc;
        scopes = cc;
        targets = cc;
      }
  Source-Grantor m now token ip p id (bearer ents read s) t en al same =
      let other = bearer_identity-type s.entry id s.identity in absurd (ground arith)
  Source-Grantor m now token ip p id (legacy (legacy_bearer d e)) t en al same =
      absurd (unfold full_access_identity in ground arith)
  Source-Grantor m now token ip p id (legacy (legacy_api_key d e)) t en al same =
      absurd (unfold full_access_identity in ground arith)

  -- After a Reload that succeeds, a capability token is accepted only if an enabled entry of the file
  -- lists its digest and has not expired, and the principal has that entry's grants: a token whose
  -- entry was removed or disabled is refused, whatever was accepted before.
  pub verify_capability-Grantor :
      (m : Manager) (now : ℕ) (token ip : Str) (p : Principal)
      → (reload parse_time hash read_capabilities read_bearers m).1 ≡ none
      → verify_capability hash
          (reload parse_time hash read_capabilities read_bearers m).0
          now
          token
          ip
        ≡ ok p
      → Grantor m now token p
  unfolding verify_capability
  verify_capability-Grantor m now token ip p done e =
      let (snap, built, after) = reload-current m done in
      let a =
        (verify_iff hash (record m { current = some snap }) snap now token (codes "capability") ip p
            refl).0
          (rw after at e) in
      Source-Grantor m now token ip p a.identity
        (build_snapshot-sources parse_time hash read_capabilities read_bearers m snap built
          (hash token) a.identity a.found)
        a.type a.enabled a.alive a.principal
