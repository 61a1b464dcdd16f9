-- ===== src/Target/Registry.antt =====
-- internal/target/registry.go, with the TargetConfig of internal/config/config.go. Making authentication
-- methods and host key callbacks (internal/ssh/auth.go and hostkey.go, which read key files) are
-- parameters.
pub mod Lookups
use mcp_execmesh.Base.{
  Bool, true, Option, none, some, List, [], ◌∷◌, Str, ℤ, lookup, insert, Result, ok, err, ◌>>=◌,
}
use mcp_execmesh.Target.{
  Target, TargetSummary, TargetLimits, TargetCapabilities, TargetError, target_not_found,
  auth_failed, host_key_failed, summary,
}

pub record TargetAuthConfig : Type 0 where
  pub type : Str
  pub private_key_file : Str
  pub private_key_passphrase_file : Str
  pub password_file : Str

pub record HostKeyConfig : Type 0 where
  pub known_hosts_file : Str
  pub strict : Bool

pub record TargetConfig : Type 0 where
  pub id : Str
  pub name : Str
  pub host : Str
  pub port : ℤ
  pub user : Str
  pub auth : TargetAuthConfig
  pub host_key : HostKeyConfig
  pub default_cwd : Str
  pub shell : Str
  pub tags : List Str
  pub limits : TargetLimits
  pub capabilities : TargetCapabilities
  pub allowed_paths : List Str
  pub env : List (Str × Str)
  pub auth_ref : Str
  pub known_host_ref : Str
  pub enabled : Option Bool

abbrev pub is_enabled : TargetConfig → Bool
is_enabled t = elim t.enabled [ none ↦ true | some b ↦ b ]

pub record Registry (A : Type 0) (H : Type 0) : Type 0 where
  pub targets : List (Str × Target A H)

abbrev or_error {κ η} : {E : Type η} {A : Type κ} → E → Option A → Result E A
or_error e none = err e
or_error e (some a) = ok a

module _ {A : Type 0} {H : Type 0} where
  unfoldable pub list_targets : List (Str × Target A H) → List TargetSummary
  list_targets [] = []
  list_targets ((k, t) ∷ m) = summary t ∷ list_targets m

  unfoldable pub get : Registry A H → Str → Result TargetError (Target A H)
  get r id = or_error (target_not_found id) (lookup id r.targets)

  module _ (create_auth_methods : TargetAuthConfig → Option (List A))
      (new_host_key_callback : Str → Bool → Option H) where
    unfoldable pub target_of : TargetConfig → Result TargetError (Target A H)
    target_of tc = do
      methods ← or_error (auth_failed tc.id) (create_auth_methods tc.auth)
      callback ←
          or_error (host_key_failed tc.id)
            (new_host_key_callback tc.host_key.known_hosts_file tc.host_key.strict)
      ok (record {
        id = tc.id;
        name = tc.name;
        host = tc.host;
        port = tc.port;
        user = tc.user;
        auth_method = methods;
        host_key_callback = callback;
        default_cwd = tc.default_cwd;
        shell = tc.shell;
        tags = tc.tags;
        limits = tc.limits;
        capabilities = tc.capabilities;
        allowed_paths = tc.allowed_paths;
        env = tc.env;
        enabled = is_enabled tc;
        auth_ref = tc.auth_ref;
        known_host_ref = tc.known_host_ref;
      })

    -- The loop of Reload, which fills the new map.
    unfoldable pub build_map :
        List (Str × Target A H) → List TargetConfig → Result TargetError (List (Str × Target A H))
    build_map new_map [] = ok new_map
    build_map new_map (tc ∷ tcs) = do t ← target_of tc; build_map (insert t.id t new_map) tcs

    -- The registry behind Reload, and its error.
    unfoldable pub reload : Registry A H → List TargetConfig → Registry A H × Option TargetError
    reload r tcs = elim (build_map [] tcs) [
      | ok new_map ↦ (record r { targets = new_map }, none)
      | err e ↦ (r, some e)
    ]

    unfoldable pub new_registry : List TargetConfig → Result TargetError (Registry A H)
    new_registry tcs =
        let (r, e) = reload (record { targets = [] }) tcs in
        elim e [ none ↦ ok r | some failure ↦ err failure ]
