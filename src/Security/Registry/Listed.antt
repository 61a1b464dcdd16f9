-- ===== src/Security/Registry/Listed.antt =====
-- A listed capability is accepted after Reload.
use mcp_execmesh.Base.{
  ◌≡◌, refl, ◌≢◌, inl, inr, true, false, Option, none, some, List, [], arith, ℕ, Str, codes,
  str_eq_iff, In, is_empty, Bool-cases, Result, ok, >>=-eq-ok, ◌∙◌,
}
use mcp_execmesh.Security.Scope.{Principal, scope_set, target_set}
use mcp_execmesh.Security.Credentials.{
  CapabilityFileEntry, BearerFileEntry, Identity, Snapshot, RegistryError, FileRead, not_exist,
  failed, loaded, Manager,
}
use mcp_execmesh.Security.Registry.{
  collect_digests, capability_identity, index_capabilities, index_bearers, index_file, legacy_stage,
  capability_stage, bearer_stage, build_snapshot, reload, principal_of, verify_capability,
  parse_optional_time,
}
use mcp_execmesh.Security.Registry.Verified.{
  IsAlive, reload-current, verify_iff, capability_identity-eq,
}
use mcp_execmesh.Security.Registry.Complete.{
  Extends, index_capabilities_complete, index_bearers-Extends,
}

Extends-index_file :
    {A : Type 0} (index : Snapshot → List A → Result RegistryError Snapshot) (snap out : Snapshot)
    (r : FileRead A)
    → ((ents : List A) → index snap ents ≡ ok out → Extends snap out)
    → index_file index snap r ≡ ok out
    → Extends snap out
Extends-index_file index snap out not_exist h e =
    let same : snap ≡ out = cc in rw (← same) (λ d id found. found)
Extends-index_file index snap out failed h e = cc
Extends-index_file index snap out (loaded ents) h e = h ents e

legacy_stage-off :
    (hash : Str → Str) (m : Manager) (snap : Snapshot)
    → m.legacy_type ≢ codes "bearer"
    → m.legacy_type ≢ codes "api_key"
    → legacy_stage hash m snap ≡ snap
unfolding legacy_stage
legacy_stage-off hash m snap h k =
    ground
      (arith, str_eq_iff m.legacy_type (codes "bearer"), str_eq_iff m.legacy_type (codes "api_key"))

module _ (parse_time : Str → Option ℕ) (hash : Str → Str)
    (read_capabilities : Str → FileRead CapabilityFileEntry)
    (read_bearers : Str → FileRead BearerFileEntry) (m : Manager) where
  bearer_stage-Extends :
      (caps bearers : Snapshot)
      → bearer_stage parse_time hash read_capabilities read_bearers m caps ≡ ok bearers
      → Extends caps bearers
  bearer_stage-Extends caps bearers e = elim (Bool-cases (is_empty m.bearer_file)) [
    | inl none_set ↦ let same : caps ≡ bearers = ground arith in rw (← same) (λ d id found. found)
    | inr set ↦
        Extends-index_file (index_bearers parse_time) caps bearers (read_bearers m.bearer_file)
          (λ ents. index_bearers-Extends parse_time caps bearers ents) (rw set at e)
  ]

  build_snapshot-capabilities :
      (ents : List CapabilityFileEntry) (snap : Snapshot)
      → is_empty m.capability_file ≡ false
      → m.legacy_type ≢ codes "bearer"
      → m.legacy_type ≢ codes "api_key"
      → read_capabilities m.capability_file ≡ loaded ents
      → build_snapshot parse_time hash read_capabilities read_bearers m ≡ ok snap
      → (caps : Snapshot) × (index_capabilities parse_time [] ents ≡ ok caps) × Extends caps snap
  unfolding build_snapshot
  build_snapshot-capabilities ents snap file l₁ l₂ read e =
      let (caps, e₁, e₂) =
        >>=-eq-ok (capability_stage parse_time hash read_capabilities read_bearers m []) _ e in
      let (bearers, e₃, e₄) =
        >>=-eq-ok (bearer_stage parse_time hash read_capabilities read_bearers m caps) _ e₂ in
      let off = legacy_stage-off hash m bearers l₁ l₂ in
      let same : bearers ≡ snap = cc (off, e₄) in
      (caps, rw (file, read) at e₁, rw (← same) (bearer_stage-Extends caps bearers e₃))

  capability_identity-type :
      (ent : CapabilityFileEntry) (id : Identity)
      → capability_identity parse_time ent ≡ ok id
      → id.auth_type ≡ codes "capability"
  unfolding capability_identity
  capability_identity-type ent id e =
      let (exp, parsed, made) = >>=-eq-ok (parse_optional_time parse_time ent.expires_at) _ e in
      cc made

  is_empty-false : (s : Str) → s ≢ [] → is_empty s ≡ false
  is_empty-false s h = ground arith

  -- After a Reload that succeeds with no legacy token, a token whose digest an enabled, unexpired entry
  -- of the capability file lists is accepted, with that entry's grants.
  pub verify_capability-listed :
      (ents : List CapabilityFileEntry) (ent : CapabilityFileEntry) (exp : Option ℕ) (now : ℕ)
      (token ip : Str)
      → m.capability_file ≢ []
      → m.legacy_type ≢ codes "bearer"
      → m.legacy_type ≢ codes "api_key"
      → (reload parse_time hash read_capabilities read_bearers m).1 ≡ none
      → read_capabilities m.capability_file ≡ loaded ents
      → In ent ents
      → In (hash token) (collect_digests ent.token_sha256 ent.active_tokens)
      → ent.enabled ≡ true
      → parse_optional_time parse_time ent.expires_at ≡ ok exp
      → IsAlive now exp
      → (p : Principal) × (verify_capability hash
            (reload parse_time hash read_capabilities read_bearers m).0
            now
            token
            ip
          ≡ ok p)
        × (p.scopes ≡ scope_set ent.scopes)
        × (p.targets ≡ target_set ent.targets)
  unfolding verify_capability
  verify_capability-listed ents ent exp now token ip file l₁ l₂ done read i j en parsed alive =
      let (snap, built, after) =
        reload-current parse_time hash read_capabilities read_bearers m done in
      let (caps, indexed, ext) =
        build_snapshot-capabilities ents snap (is_empty-false m.capability_file file) l₁ l₂ read
          built in
      let (id, made, found, _) =
        (index_capabilities_complete parse_time [] caps ents indexed).1 ent (hash token) i j in
      let (exp', parsed', t, e₁, e₂, e₃, e₄) =
        capability_identity-eq parse_time hash read_capabilities read_bearers ent id made in
      let same : exp ≡ exp' = cc (parsed, parsed') in
      (
        principal_of id ip,
        rw after (
            (verify_iff hash (record m { current = some snap }) snap now token (codes "capability")
                ip (principal_of id ip) refl).1
              (record {
                identity = id;
                found = ext (hash token) id found;
                type = capability_identity-type ent id made;
                enabled = e₁ ∙ en;
                alive = rw (t, ← same) alive;
                principal = refl;
              })),
        e₃,
        e₄,
      )
