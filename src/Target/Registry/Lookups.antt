-- ===== src/Target/Registry/Lookups.antt =====
-- internal/target/registry.go: what Get finds after Reload.
use mcp_execmesh.Base.{
  ◌≡◌, refl, sym, Bool, ◌⊎◌, inl, inr, Option, none, some, List, [], ◌∷◌, Str, str_eq, str_eq_iff,
  str_eq_eq, lookup, insert, lookup-insert, In, Result, ok, >>=-eq-ok, Result-cases, Bool-cases,
  arith,
}
use mcp_execmesh.Target.{Target, TargetError, target_not_found}
use mcp_execmesh.Target.Registry.{
  TargetAuthConfig, TargetConfig, Registry, or_error, get, target_of, build_map, reload,
}

some-ne-none : {B : Type 0} (b : B) → Path (Option B) (some b) none → ⊥
some-ne-none b h = cc

module _ {A : Type 0} {H : Type 0} where
  -- Each target stands under its own id, and each id once.
  abbrev pub IsKeyed : List (Str × Target A H) → Type 0
  IsKeyed [] = Unit
  IsKeyed ((k, t) ∷ m) = (t.id ≡ k) × (lookup k m ≡ none) × IsKeyed m

  pub insert-IsKeyed :
      (t : Target A H) (m : List (Str × Target A H)) → IsKeyed m → IsKeyed (insert t.id t m)
  unfolding insert lookup
  insert-IsKeyed t [] h = (refl, refl, tt)
  insert-IsKeyed t ((j, u) ∷ m) h = elim (Bool-cases (str_eq j t.id)) [
    | inl same ↦ rw same (refl, rw (← str_eq_eq j t.id same) h.1, h.2)
    | inr other ↦ rw other (
      h.0,
      ground (arith, lookup-insert t.id j t m, str_eq_iff t.id j, str_eq_iff j t.id),
      insert-IsKeyed t m h.2,
    )
  ]

  pub lookup-IsKeyed :
      (m : List (Str × Target A H)) (id : Str) {t : Target A H}
      → IsKeyed m
      → lookup id m ≡ some t
      → t.id ≡ id
  unfolding lookup
  lookup-IsKeyed [] id h e = cc
  lookup-IsKeyed ((j, u) ∷ m) id {t = t} h e =
      ground (arith, str_eq_iff j id, lookup-IsKeyed m id {t = t} h.2)

  pub found_in :
      (m : List (Str × Target A H)) (id : Str) {t : Target A H}
      → or_error (target_not_found id) (lookup id m) ≡ ok t
      → lookup id m ≡ some t
  found_in m id h = ground arith

  module _ (create_auth_methods : TargetAuthConfig → Option (List A))
      (new_host_key_callback : Str → Bool → Option H) where
    target_of_id :
        (tc : TargetConfig) {t : Target A H}
        → target_of create_auth_methods new_host_key_callback tc ≡ ok t
        → t.id ≡ tc.id
    unfolding target_of
    target_of_id tc h = ground arith

    ok-IsKeyed :
        (m n : List (Str × Target A H))
        → IsKeyed m
        → ◌≡◌ {A = Result TargetError (List (Str × Target A H))} (ok m) (ok n)
        → IsKeyed n
    ok-IsKeyed m n h e = ground (arith, h)

    build_map-IsKeyed :
        (new_map : List (Str × Target A H)) (tcs : List TargetConfig) {m : List (Str × Target A H)}
        → IsKeyed new_map
        → build_map create_auth_methods new_host_key_callback new_map tcs ≡ ok m
        → IsKeyed m
    unfolding build_map
    build_map-IsKeyed new_map [] {m = m} h e = ok-IsKeyed new_map m h e
    build_map-IsKeyed new_map (tc ∷ tcs) h e =
        let (t, made, rest) =
          >>=-eq-ok (target_of create_auth_methods new_host_key_callback tc) _ e in
        build_map-IsKeyed (insert t.id t new_map) tcs (insert-IsKeyed t new_map h) rest

    -- A key's target comes from an entry of that id.
    abbrev pub Configured : List TargetConfig → Str → Target A H → Type 0
    Configured tcs id t =
        (tc : TargetConfig) × In tc tcs
        × (tc.id ≡ id)
        × (target_of create_auth_methods new_host_key_callback tc ≡ ok t)

    inserted-lookup :
        (tc : TargetConfig) (t : Target A H) (new_map : List (Str × Target A H))
        (tcs : List TargetConfig) (id : Str) (u : Target A H)
        → target_of create_auth_methods new_host_key_callback tc ≡ ok t
        → lookup id (insert t.id t new_map) ≡ some u
        → (lookup id new_map ≡ some u) ⊎ Configured (tc ∷ tcs) id u
    inserted-lookup tc t new_map tcs id u made kept = elim (Bool-cases (str_eq t.id id)) [
      | inl same ↦ inr (
        tc,
        inl refl,
        cc (target_of_id tc made, str_eq_eq t.id id same),
        ground (arith, made, kept, same, lookup-insert t.id id t new_map),
      )
      | inr other ↦ inl (ground (arith, kept, other, lookup-insert t.id id t new_map))
    ]

    build_map-lookup :
        (new_map : List (Str × Target A H)) (tcs : List TargetConfig) {m : List (Str × Target A H)}
        (id : Str) (u : Target A H)
        → build_map create_auth_methods new_host_key_callback new_map tcs ≡ ok m
        → lookup id m ≡ some u
        → (lookup id new_map ≡ some u) ⊎ Configured tcs id u
    unfolding build_map
    build_map-lookup new_map [] id u e found = inl (ground arith)
    build_map-lookup new_map (tc ∷ tcs) id u e found =
        let (t, made, rest) =
          >>=-eq-ok (target_of create_auth_methods new_host_key_callback tc) _ e in
        elim (build_map-lookup (insert t.id t new_map) tcs id u rest found) [
          | inr (tc2, at, same, made2) ↦ inr (tc2, inr at, same, made2)
          | inl kept ↦ inserted-lookup tc t new_map tcs id u made kept
        ]

    from_nothing :
        (tcs : List TargetConfig) (id : Str) (t : Target A H)
        → (lookup {V = Target A H} id [] ≡ some t) ⊎ Configured tcs id t
        → Configured tcs id t
    unfolding lookup
    from_nothing tcs id t (inl e) = absurd cc
    from_nothing tcs id t (inr c) = c

    -- After a Reload without an error, a target that Get finds is made from a configured entry with the
    -- id that was asked for, and carries that id.
    pub reload-get :
        (r : Registry A H) (tcs : List TargetConfig) (id : Str) (t : Target A H)
        → (reload create_auth_methods new_host_key_callback r tcs).1 ≡ none
        → get (reload create_auth_methods new_host_key_callback r tcs).0 id ≡ ok t
        → Configured tcs id t × (t.id ≡ id)
    unfolding reload get
    reload-get r tcs id t done found =
        elim (Result-cases (build_map create_auth_methods new_host_key_callback [] tcs)) [
          | inl (m, built) ↦
              let at_id = found_in m id (rw (reload, built) at found) in
              (
                from_nothing tcs id t (build_map-lookup [] tcs id t built at_id),
                lookup-IsKeyed m id (build_map-IsKeyed [] tcs tt built) at_id,
              )
          | inr (e, broken) ↦ absurd (some-ne-none e (rw (reload, broken) at done))
        ]

    -- A Reload with an error leaves the registry as it was.
    pub reload-kept :
        (r : Registry A H) (tcs : List TargetConfig) (e : TargetError)
        → (reload create_auth_methods new_host_key_callback r tcs).1 ≡ some e
        → (reload create_auth_methods new_host_key_callback r tcs).0 ≡ r
    unfolding reload
    reload-kept r tcs e failed =
        elim (Result-cases (build_map create_auth_methods new_host_key_callback [] tcs)) [
          | inl (m, built) ↦ absurd (some-ne-none e (sym (rw (reload, built) at failed)))
          | inr (x, broken) ↦ rw (reload, broken) refl
        ]
