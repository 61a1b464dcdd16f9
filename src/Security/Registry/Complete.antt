-- ===== src/Security/Registry/Complete.antt =====
-- What a successful Reload has indexed: each digest of each entry, under that entry's identity, and
-- no digest twice.
use mcp_execmesh.Base.{
  ◌≡◌, refl, ◌≢◌, inl, inr, Option, none, some, List, [], ◌∷◌, arith, ℕ, Str, str_eq, str_eq_eq,
  str_eq_refl, lookup, insert, lookup-insert, In, Bool-cases, Option-cases, ok, >>=-eq-ok, subst,
  sym,
}
use mcp_execmesh.Security.Credentials.{CapabilityFileEntry, BearerFileEntry, Identity, Snapshot}
use mcp_execmesh.Security.Digest.{parse_digest_hex}
use mcp_execmesh.Security.Registry.{
  collect_digests, index_digests, capability_identity, index_capabilities, bearer_identity,
  index_bearers, digest_or_error, fresh_or_error,
}

-- Every identity of the first snapshot is in the second, at its digest.
abbrev pub Extends : Snapshot → Snapshot → Type 0
Extends snap out = (d : Str) (id : Identity) → lookup d snap ≡ some id → lookup d out ≡ some id

Extends-trans : (s t u : Snapshot) → Extends s t → Extends t u → Extends s u
Extends-trans s t u h k d id e = k d id (h d id e)

Extends-insert :
    (snap : Snapshot) (k : Str) (v : Identity)
    → lookup k snap ≡ none
    → Extends snap (insert k v snap)
Extends-insert snap k v fresh d id e = elim (Bool-cases (str_eq k d)) [
  | inl same ↦
      let eq = str_eq_eq k d same in
      let gone : lookup d snap ≡ none = subst (λ j. lookup j snap ≡ none) eq fresh in cc
  | inr other ↦ rw (lookup-insert k d v snap, other) e
]

lookup-insert_self :
    (k : Str) (v : Identity) (snap : Snapshot) → lookup k (insert k v snap) ≡ some v
lookup-insert_self k v snap = rw (lookup-insert k k v snap, str_eq_refl k)

fresh-before_insert :
    (snap : Snapshot) (k j : Str) (v : Identity)
    → lookup j (insert k v snap) ≡ none
    → lookup j snap ≡ none
fresh-before_insert snap k j v e = ground (arith, lookup-insert k j v snap)

fresh-before :
    (snap out : Snapshot) (d : Str) → Extends snap out → lookup d out ≡ none → lookup d snap ≡ none
fresh-before snap out d h e = elim (Option-cases (lookup d snap)) [
  | inl fresh ↦ fresh
  | inr (id, found) ↦ let later = h d id found in cc
]

-- The digests are all indexed, and none was before.
index_digests_complete :
    (name : Str) (identity : Identity) (snap out : Snapshot) (ds : List Str)
    → index_digests name identity snap ds ≡ ok out
    → Extends snap out
      × ((d : Str) → In d ds → (lookup d out ≡ some identity) × (lookup d snap ≡ none))
unfolding index_digests
index_digests_complete name identity snap out [] e =
    let same : snap ≡ out = cc in (rw (← same) (λ d id found. found), λ d i. absurd i)
index_digests_complete name identity snap out (d ∷ ds) e = elim (Option-cases (lookup d snap)) [
  | inr (old, found) ↦ absurd (ground arith)
  | inl fresh ↦
      let (ext, all) =
        index_digests_complete name identity (insert d identity snap) out ds
          (rw (fresh, index_digests) at e) in
      let grown = Extends-insert snap d identity fresh in
      (
        Extends-trans snap (insert d identity snap) out grown ext,
        λ c i. elim i [
          | inl eq ↦ (
            subst (λ j. lookup j out ≡ some identity) eq
                (ext d identity (lookup-insert_self d identity snap)),
            subst (λ j. lookup j snap ≡ none) eq fresh,
          )
          | inr later ↦ ((all c later).0, fresh-before_insert snap d c identity (all c later).1)
        ],
      )
]

fresh_or_error-eq :
    (id : Str) (o : Option Identity) {u : Unit {0}} → fresh_or_error id o ≡ ok u → o ≡ none
fresh_or_error-eq id none e = refl
fresh_or_error-eq id (some c) e = cc

some-ne-none : (o : Option Identity) {id : Identity} → o ≡ some id → o ≢ none
some-ne-none none e f = cc
some-ne-none (some c) e f = cc

module _ (parse_time : Str → Option ℕ) where
  pub index_capabilities_complete :
      (snap out : Snapshot) (ents : List CapabilityFileEntry)
      → index_capabilities parse_time snap ents ≡ ok out
      → Extends snap out
        × ((ent : CapabilityFileEntry) (d : Str)
            → In ent ents
            → In d (collect_digests ent.token_sha256 ent.active_tokens)
            → (id : Identity) × (capability_identity parse_time ent ≡ ok id)
              × (lookup d out ≡ some id)
              × (lookup d snap ≡ none))
  unfolding index_capabilities
  index_capabilities_complete snap out [] e =
      let same : snap ≡ out = cc in (rw (← same) (λ d id found. found), λ ent d i j. absurd i)
  index_capabilities_complete snap out (ent ∷ ents) e =
      let (identity, made, e₁) = >>=-eq-ok _ _ e in
      let (next, indexed, e₂) = >>=-eq-ok _ _ e₁ in
      let (grown, here) = index_digests_complete ent.id identity snap next _ indexed in
      let (ext, rest) = index_capabilities_complete next out ents e₂ in
      (
        Extends-trans snap next out grown ext,
        λ f d i j. elim i [
          | inl eq ↦
              let j' =
                subst (λ g. In d (collect_digests g.token_sha256 g.active_tokens)) (sym eq) j in
              let found = here d j' in
              (
                identity,
                subst (λ g. capability_identity parse_time g ≡ ok identity) eq made,
                ext d identity found.0,
                found.1,
              )
          | inr later ↦
              let (id, made_later, found, fresh) = rest f d later j in
              (id, made_later, found, fresh-before snap next d grown fresh)
        ],
      )

  pub index_bearers-Extends :
      (snap out : Snapshot) (ents : List BearerFileEntry)
      → index_bearers parse_time snap ents ≡ ok out
      → Extends snap out
  unfolding index_bearers
  index_bearers-Extends snap out [] e =
      let same : snap ≡ out = cc in rw (← same) (λ d id found. found)
  index_bearers-Extends snap out (ent ∷ ents) e =
      let (digest, parsed, e₁) =
        >>=-eq-ok (digest_or_error ent (parse_digest_hex ent.token_sha256)) _ e in
      let (_, fresh, e₂) = >>=-eq-ok (fresh_or_error ent.id (lookup digest snap)) _ e₁ in
      let (identity, made, e₃) = >>=-eq-ok (bearer_identity parse_time ent) _ e₂ in
      let next = insert digest identity snap in
      let none_before : lookup digest snap ≡ none =
        fresh_or_error-eq ent.id (lookup digest snap) fresh in
      Extends-trans snap next out (Extends-insert snap digest identity none_before)
        (index_bearers-Extends next out ents e₃)

  -- Two entries of a capability file that is indexed share no digest.
  pub index_capabilities-distinct :
      (snap out : Snapshot) (ent : CapabilityFileEntry) (ents : List CapabilityFileEntry)
      → index_capabilities parse_time snap (ent ∷ ents) ≡ ok out
      → (other : CapabilityFileEntry) (d : Str) → In other ents
      → In d (collect_digests ent.token_sha256 ent.active_tokens)
      → ¬ In d (collect_digests other.token_sha256 other.active_tokens)
  unfolding index_capabilities
  index_capabilities-distinct snap out ent ents e other d i j k =
      let (identity, made, e₁) = >>=-eq-ok (capability_identity parse_time ent) _ e in
      let digests = collect_digests ent.token_sha256 ent.active_tokens in
      let (next, indexed, e₂) = >>=-eq-ok (index_digests ent.id identity snap digests) _ e₁ in
      let (grown, here) = index_digests_complete ent.id identity snap next digests indexed in
      let (ext, rest) = index_capabilities_complete next out ents e₂ in
      let later = rest other d i k in some-ne-none (lookup d next) (here d j).0 later.3
