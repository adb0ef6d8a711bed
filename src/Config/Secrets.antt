-- ===== src/Config/Secrets.antt =====
-- config/secret_loader.go: where a service's secrets come from. Keys are ASCII.
pub mod Laws
use platform_kit.Common.{
  ℕ, suc, zero, ◌==◌, Bool, true, false, Option, none, some, List, [], ◌∷◌, ◌++◌, map,
  if◌then◌else◌, Str, lit, is_empty, Dict, lookup, insert, take, drop,
}
use platform_kit.Config.Vault.{
  Logins, VaultClient, NewClient, client, no_address, not_created, unauthenticated, Kv, Secret,
  value, read_failed, key_not_found, get_secret, to_upper, new_from_env,
}

-- What Get returns: a string, "" when there is none, or an error.
pub data Got : Type 0 where
  got : Str → Got
  get_failed : Got

-- SecretLoader, on the state that the loaders share.
abbrev pub SecretLoader : Type 0 → Type 0
SecretLoader T = Str → T → Got × T

-- strings.ReplaceAll(key, ".", "_")
abbrev underscored : Str → Str
underscored = map (λ c. if c == b'.' then b'_' else c)

unfoldable pub env_key : (prefix key : Str) → Str
env_key prefix key =
    let name = to_upper (underscored key) in
    if is_empty prefix then name else to_upper prefix ++ b'_' ∷ name

-- EnvSecretLoader.Get; `getenv` is os.Getenv.
unfoldable pub env_get : {T : Type 0} → (Str → Str) → (prefix : Str) → SecretLoader T
unfolding env_key
env_get getenv prefix key t = (got (getenv (env_key prefix key)), t)

-- StaticSecretLoader.Get
unfoldable pub static_get : {T : Type 0} → Dict Str → SecretLoader T
static_get d key t = (got (elim (lookup key d) [ none ↦ [] | some v ↦ v ]), t)

-- strings.LastIndex(s, "#"); none stands for -1.
abbrev after_head : ℕ → Option ℕ → Option ℕ
after_head c none = if c == b'#' then some 0 else none
after_head c (some i) = some (suc i)

unfoldable pub last_hash : Str → Option ℕ
last_hash [] = none
last_hash (c ∷ s) = after_head c (last_hash s)

abbrev split_at : Str → Str → Option ℕ → Str × Str
split_at key default_path none = (default_path, key)
split_at key default_path (some zero) = (default_path, key)
split_at key default_path (some (suc i)) = (take (suc i) key, drop (suc (suc i)) key)

-- The path and the field.
unfoldable pub split_vault_key : (key default_path : Str) → Str × Str
unfolding last_hash
split_vault_key key default_path = split_at key default_path (last_hash key)

-- A VaultSecretLoader's cache and the engine's state.
pub record Cached (S : Type 0) : Type 0 where
  pub cache : Dict Str
  pub engine : S

abbrev pub cache_key : Str × Str → Str
cache_key (path, field) = path ++ b'#' ∷ field

abbrev pub keep : {S : Type 0} → Str → Dict Str → Secret × S → Got × Cached S
keep k cache (value v, engine) = (got v, record { cache = insert k v cache; engine = engine })
keep k cache (read_failed, engine) = (get_failed, record { cache = cache; engine = engine })
keep k cache (key_not_found key, engine) = (get_failed, record { cache = cache; engine = engine })

module _ {S : Type 0} (kv : Kv S) (default_path : Str) where
  abbrev pub cached_or : Str × Str → Cached S → Option Str → Got × Cached S
  cached_or at s (some v) = (got v, s)
  cached_or at s none = keep (cache_key at) s.cache (get_secret kv at.0 at.1 s.engine)

  -- VaultSecretLoader.Get, with a client.
  unfoldable pub vault_get : SecretLoader (Cached S)
  unfolding split_vault_key get_secret
  vault_get key s =
      let at = split_vault_key key default_path in cached_or at s (lookup (cache_key at) s.cache)

module _ {T : Type 0} where
  abbrev pub first_or : (rest : Got × T) → Got × T → Got × T
  first_or rest (get_failed, t) = rest
  first_or rest (got v, t) = if is_empty v then rest else (got v, t)

  -- ChainSecretLoader.Get; none is a nil loader.
  unfoldable pub chain_get : List (Option (SecretLoader T)) → SecretLoader T
  chain_get [] key t = (got [], t)
  chain_get (none ∷ ls) key t = chain_get ls key t
  chain_get (some l ∷ ls) key t = first_or (chain_get ls key (l key t).1) (l key t)

-- The last lines of NewDefaultSecretLoader, by the result of NewFromEnv.
abbrev pub loader_for :
    {S : Type 0}
    → (VaultClient → Kv S)
    → (Str → Str)
    → (Str × Str)
    → NewClient
    → SecretLoader (Cached S)
loader_for mount getenv (prefix, path) no_address = env_get getenv prefix
loader_for mount getenv (prefix, path) not_created = env_get getenv prefix
loader_for mount getenv (prefix, path) (unauthenticated e) = env_get getenv prefix
loader_for mount getenv (prefix, path) (client c) =
    chain_get (some (vault_get (mount c) path) ∷ some (env_get getenv prefix) ∷ [])

-- NewDefaultSecretLoader; `mount` is the KV engine that a client reads.
unfoldable pub new_default_secret_loader :
    {S : Type 0}
    → Logins
    → (created : Bool) → (mount : VaultClient → Kv S) → (getenv : Str → Str)
    → (env_prefix default_vault_path : Str) → SecretLoader (Cached S)
unfolding env_get vault_get chain_get new_from_env
new_default_secret_loader logins created mount getenv env_prefix default_vault_path =
    if is_empty (getenv (lit "VAULT_ADDR"))
    then env_get getenv env_prefix
    else loader_for mount getenv (env_prefix, default_vault_path)
        (new_from_env logins created getenv)
