-- ===== src/Security/Registry/Sources.antt =====
-- Every identity of a snapshot that Reload builds has a source: an entry of one of the two files, or
-- the legacy token.
use mcp_execmesh.Base.{
  ◌≡◌, refl, inl, inr, Option, none, some, List, [], ◌∷◌, arith, ℕ, Str, codes, str_eq, str_eq_eq,
  lookup, insert, lookup-insert, In, is_empty, Bool-cases, Option-cases, Result, ok, >>=-eq-ok,
  subst,
}
use mcp_execmesh.Security.Credentials.{
  CapabilityFileEntry, BearerFileEntry, Identity, Snapshot, RegistryError, FileRead, not_exist,
  failed, loaded, Manager,
}
use mcp_execmesh.Security.Digest.{parse_digest_hex}
use mcp_execmesh.Security.Registry.{
  full_access_identity, collect_digests, index_digests, capability_identity, index_capabilities,
  bearer_identity, index_bearers, index_file, digest_or_error, fresh_or_error, legacy_stage,
  capability_stage, bearer_stage, build_snapshot,
}

-- Each identity of the snapshot has the property, at its digest.
abbrev pub Each : (Str → Identity → Type 0) → Snapshot → Type 0
Each P snap = (d : Str) (id : Identity) → lookup d snap ≡ some id → P d id

module _ (P : Str → Identity → Type 0) where
  Each-nil : Each P []
  Each-nil d id e = absurd (unfold lookup in cc)

  Each-insert :
      (snap : Snapshot) (k : Str) (v : Identity) → Each P snap → P k v → Each P (insert k v snap)
  Each-insert snap k v h p d id e = elim (Bool-cases (str_eq k d)) [
    | inl same ↦
        let found : lookup d (insert k v snap) ≡ some v = rw (lookup-insert k d v snap, same) in
        let eq : v ≡ id = cc in rw (← eq) (subst (λ j. P j v) (str_eq_eq k d same) p)
    | inr other ↦ h d id (rw (lookup-insert k d v snap, other) at e)
  ]

  Each-index_digests :
      (name : Str) (identity : Identity) (snap out : Snapshot) (ds : List Str)
      → Each P snap
      → ((d : Str) → In d ds → P d identity)
      → index_digests name identity snap ds ≡ ok out
      → Each P out
  unfolding index_digests
  Each-index_digests name identity snap out [] h k e = let same : snap ≡ out = cc in rw (← same) h
  Each-index_digests name identity snap out (d ∷ ds) h k e = elim (Option-cases (lookup d snap)) [
    | inr (old, found) ↦ absurd (ground arith)
    | inl fresh ↦
        Each-index_digests name identity (insert d identity snap) out ds
          (Each-insert snap d identity h (k d (inl refl))) (λ c i. k c (inr i))
          (rw (fresh, index_digests) at e)
  ]

digest_or_error-eq :
    (ent : BearerFileEntry) (o : Option Str) {d : Str} → digest_or_error ent o ≡ ok d → o ≡ some d
digest_or_error-eq ent none e = cc
digest_or_error-eq ent (some c) e = cc

module _ (P : Str → Identity → Type 0) (parse_time : Str → Option ℕ) where
  Each-index_capabilities :
      (snap out : Snapshot) (ents : List CapabilityFileEntry)
      → Each P snap
      → ((ent : CapabilityFileEntry) (id : Identity) (d : Str)
          → In ent ents
          → In d (collect_digests ent.token_sha256 ent.active_tokens)
          → capability_identity parse_time ent ≡ ok id
          → P d id)
      → index_capabilities parse_time snap ents ≡ ok out
      → Each P out
  unfolding index_capabilities
  Each-index_capabilities snap out [] h k e = let same : snap ≡ out = cc in rw (← same) h
  Each-index_capabilities snap out (ent ∷ ents) h k e =
      let (identity, made, e₁) = >>=-eq-ok _ _ e in
      let (next, indexed, e₂) = >>=-eq-ok _ _ e₁ in
      Each-index_capabilities next out ents
        (Each-index_digests P ent.id identity snap next _ h
          (λ d i. k ent identity d (inl refl) i made) indexed)
        (λ f id d i. k f id d (inr i)) e₂

  Each-index_bearers :
      (snap out : Snapshot) (ents : List BearerFileEntry)
      → Each P snap
      → ((ent : BearerFileEntry) (id : Identity) (d : Str)
          → In ent ents
          → parse_digest_hex ent.token_sha256 ≡ some d
          → bearer_identity parse_time ent ≡ ok id
          → P d id)
      → index_bearers parse_time snap ents ≡ ok out
      → Each P out
  unfolding index_bearers
  Each-index_bearers snap out [] h k e = let same : snap ≡ out = cc in rw (← same) h
  Each-index_bearers snap out (ent ∷ ents) h k e =
      let (digest, parsed, e₁) =
        >>=-eq-ok (digest_or_error ent (parse_digest_hex ent.token_sha256)) _ e in
      let (_, fresh, e₂) = >>=-eq-ok (fresh_or_error ent.id (lookup digest snap)) _ e₁ in
      let (identity, made, e₃) = >>=-eq-ok (bearer_identity parse_time ent) _ e₂ in
      let digest_eq : parse_digest_hex ent.token_sha256 ≡ some digest =
        digest_or_error-eq ent (parse_digest_hex ent.token_sha256) parsed in
      Each-index_bearers (insert digest identity snap) out ents
        (Each-insert P snap digest identity h (k ent identity digest (inl refl) digest_eq made))
        (λ f id d i. k f id d (inr i)) e₃

-- A file that is read adds what its index function adds, and any other adds nothing.
Each-index_file :
    {A : Type 0} (P : Str → Identity → Type 0)
    (index : Snapshot → List A → Result RegistryError Snapshot) (snap out : Snapshot)
    (r : FileRead A)
    → Each P snap
    → ((ents : List A) → r ≡ loaded ents → index snap ents ≡ ok out → Each P out)
    → index_file index snap r ≡ ok out
    → Each P out
Each-index_file P index snap out not_exist h k e = let same : snap ≡ out = cc in rw (← same) h
Each-index_file P index snap out failed h k e = cc
Each-index_file P index snap out (loaded ents) h k e = k ents refl e

module _ (parse_time : Str → Option ℕ) where
  -- The entry of the capability file behind an identity.
  pub record CapabilitySource (ents : List CapabilityFileEntry) (d : Str) (id : Identity)
      : Type 0 where
    pub entry : CapabilityFileEntry
    pub listed : In entry ents
    pub digest : In d (collect_digests entry.token_sha256 entry.active_tokens)
    pub identity : capability_identity parse_time entry ≡ ok id

  -- The entry of the bearer file behind an identity.
  pub record BearerSource (ents : List BearerFileEntry) (d : Str) (id : Identity) : Type 0 where
    pub entry : BearerFileEntry
    pub listed : In entry ents
    pub digest : parse_digest_hex entry.token_sha256 ≡ some d
    pub identity : bearer_identity parse_time entry ≡ ok id

  module _ (hash : Str → Str) (read_capabilities : Str → FileRead CapabilityFileEntry)
      (read_bearers : Str → FileRead BearerFileEntry) (m : Manager) where
    -- The legacy token, which stands for the data-plane scopes on every target.
    pub data LegacySource (d : Str) (id : Identity) : Type 0 where
      legacy_bearer :
          d ≡ hash m.legacy_bearer
          → id ≡ full_access_identity (codes "legacy-bearer") (codes "bearer-user") (codes "bearer")
          → LegacySource d id
      legacy_api_key :
          d ≡ hash m.legacy_api_key
          → id
            ≡ full_access_identity (codes "legacy-api-key") (codes "api-key-user") (codes "api_key")
          → LegacySource d id

    pub data Source (d : Str) (id : Identity) : Type 0 where
      capability :
          (ents : List CapabilityFileEntry)
          → read_capabilities m.capability_file ≡ loaded ents
          → CapabilitySource ents d id
          → Source d id
      bearer :
          (ents : List BearerFileEntry)
          → read_bearers m.bearer_file ≡ loaded ents
          → BearerSource ents d id
          → Source d id
      legacy : LegacySource d id → Source d id

    capability_stage-sources :
        (caps : Snapshot)
        → capability_stage parse_time hash read_capabilities read_bearers m [] ≡ ok caps
        → Each Source caps
    capability_stage-sources caps e = elim (Bool-cases (is_empty m.capability_file)) [
      | inl none_set ↦
          let same : ◌≡◌ {A = Snapshot} [] caps = ground arith in rw (← same) (Each-nil Source)
      | inr set ↦
          Each-index_file Source (index_capabilities parse_time) [] caps
            (read_capabilities m.capability_file) (Each-nil Source)
            (λ ents read indexed.
              Each-index_capabilities Source parse_time [] caps ents (Each-nil Source)
                (λ ent id d i j made.
                  capability ents read
                    (record { entry = ent; listed = i; digest = j; identity = made }))
                indexed)
            (rw set at e)
    ]

    bearer_stage-sources :
        (caps bearers : Snapshot)
        → Each Source caps
        → bearer_stage parse_time hash read_capabilities read_bearers m caps ≡ ok bearers
        → Each Source bearers
    bearer_stage-sources caps bearers h e = elim (Bool-cases (is_empty m.bearer_file)) [
      | inl none_set ↦ let same : caps ≡ bearers = ground arith in rw (← same) h
      | inr set ↦
          Each-index_file Source (index_bearers parse_time) caps bearers
            (read_bearers m.bearer_file) h
            (λ ents read indexed.
              Each-index_bearers Source parse_time caps bearers ents h
                (λ ent id d i parsed made.
                  bearer ents read
                    (record { entry = ent; listed = i; digest = parsed; identity = made }))
                indexed)
            (rw set at e)
    ]

    legacy_stage-sources :
        (snap : Snapshot) → Each Source snap → Each Source (legacy_stage hash m snap)
    unfolding legacy_stage
    legacy_stage-sources snap h = elim (Bool-cases (str_eq m.legacy_type (codes "bearer"))) [
      | inl is_bearer ↦ elim (Bool-cases (is_empty m.legacy_bearer)) [
        | inl none_set ↦ rw (is_bearer, none_set) h
        | inr set ↦
            rw (is_bearer, set)
              (Each-insert Source snap (hash m.legacy_bearer) _ h
                (legacy (legacy_bearer refl refl)))
      ]
      | inr not_bearer ↦ elim (Bool-cases (str_eq m.legacy_type (codes "api_key"))) [
        | inl is_key ↦ elim (Bool-cases (is_empty m.legacy_api_key)) [
          | inl none_set ↦ rw (not_bearer, is_key, none_set) h
          | inr set ↦
              rw (not_bearer, is_key, set)
                (Each-insert Source snap (hash m.legacy_api_key) _ h
                  (legacy (legacy_api_key refl refl)))
        ]
        | inr not_key ↦ rw (not_bearer, not_key) h
      ]
    ]

    -- Every identity of the snapshot that Reload builds has a source at its digest.
    pub build_snapshot-sources :
        (snap : Snapshot)
        → build_snapshot parse_time hash read_capabilities read_bearers m ≡ ok snap
        → Each Source snap
    unfolding build_snapshot
    build_snapshot-sources snap e =
        let (caps, e₁, e₂) =
          >>=-eq-ok (capability_stage parse_time hash read_capabilities read_bearers m []) _ e in
        let (bearers, e₃, e₄) =
          >>=-eq-ok (bearer_stage parse_time hash read_capabilities read_bearers m caps) _ e₂ in
        let same : legacy_stage hash m bearers ≡ snap = cc in
        rw (← same) (
          legacy_stage-sources bearers
            (bearer_stage-sources caps bearers (capability_stage-sources caps e₁) e₃))
