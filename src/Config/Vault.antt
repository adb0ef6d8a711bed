-- ===== src/Config/Vault.antt =====
-- config/vault.go: the Vault client. The KV engine and the logins of hashicorp/vault/api are parameters.
pub mod Laws
use platform_kit.Common.{
  ◌+◌, ◌-◌, leb, map, ◌&&◌, ℕ, ◌*◌, ◌^◌, Bool, true, false, ◌&&◌, ◌||◌, Option, none, some, List,
  [], ◌∷◌, if◌then◌else◌, Str, lit, str_eq, is_empty, Dict, lookup, insert, ℤ, pos, ltb_ℤ,
}
use platform_kit.Common.Json.{Json, null, bool, num, str, arr, obj}

pub record VaultConfig : Type 0 where
  pub address : Str
  pub namespace : Str
  pub auth_mode : Str
  pub token : Str
  pub role_id : Str
  pub secret_id : Str
  pub k8s_role : Str
  pub k8s_jwt_path : Str
  pub mount_path : Str
  pub timeout : ℤ

-- A login's answer: an error, a secret without auth info, or a token.
pub data Login : Type 0 where
  login_failed : Login
  no_auth_info : Login
  logged_in : (token : Str) → Login

-- auth/approle/login and the Kubernetes login, with `none` for a login that could not be built.
pub record Logins : Type 0 where
  pub approle : (role_id secret_id : Str) → Login
  pub kubernetes : (role : Str) → (jwt_path : Option Str) → Option Login

pub data AuthError : Type 0 where
  no_token : AuthError
  no_role_or_secret : AuthError
  no_role : AuthError
  not_built : AuthError
  refused : AuthError
  no_auth : AuthError
  unsupported_mode : Str → AuthError

-- The client's token, or the error.
pub data Authenticated : Type 0 where
  authenticated : (token : Str) → Authenticated
  auth_failed : AuthError → Authenticated

abbrev after_login : Login → Authenticated
after_login login_failed = auth_failed refused
after_login no_auth_info = auth_failed no_auth
after_login (logged_in token) = authenticated token

unfoldable pub authenticate : Logins → VaultConfig → Authenticated
authenticate logins c =
    let mode : Str = if is_empty c.auth_mode then lit "token" else c.auth_mode in
    if str_eq mode (lit "token")
    then (if is_empty c.token then auth_failed no_token else authenticated c.token)
    else if str_eq mode (lit "approle")
    then (if is_empty c.role_id || is_empty c.secret_id
        then auth_failed no_role_or_secret
        else after_login (logins.approle c.role_id c.secret_id))
    else if str_eq mode (lit "kubernetes")
    then (if is_empty c.k8s_role
        then auth_failed no_role
        else (elim (logins.kubernetes c.k8s_role
            (if is_empty c.k8s_jwt_path then none else some c.k8s_jwt_path)) [
              | none ↦ auth_failed not_built
              | some l ↦ after_login l
            ]))
    else auth_failed (unsupported_mode mode)

pub record VaultClient : Type 0 where
  pub address : Str
  pub namespace : Str
  pub timeout : ℤ
  pub token : Str
  pub mount_path : Str

pub data NewClient : Type 0 where
  client : VaultClient → NewClient
  no_address : NewClient
  not_created : NewClient
  unauthenticated : AuthError → NewClient

abbrev with_token : VaultConfig → Authenticated → NewClient
with_token c (auth_failed e) = unauthenticated e
with_token c (authenticated token) = client (record {
  address = c.address;
  namespace = c.namespace;
  timeout = if ltb_ℤ (pos 0) c.timeout then c.timeout else pos (10 * 10 ^ 9);
  token = token;
  mount_path = if is_empty c.mount_path then lit "secret" else c.mount_path;
})

-- NewVaultClient; `created` is whether vault.NewClient made a client.
unfoldable pub new_vault_client : Logins → (created : Bool) → VaultConfig → NewClient
unfolding authenticate
new_vault_client logins created c =
    if is_empty c.address
    then no_address
    else if created
    then with_token c (authenticate logins c)
    else not_created

-- The answer of a KV v2 read: an error, no secret or no data, or the data of the latest version.
pub data KvAnswer : Type 0 where
  kv_failed : KvAnswer
  no_data : KvAnswer
  kv_data : Dict Json → KvAnswer

-- The mounted engine, with its state; a write returns whether it succeeded.
pub record Kv (S : Type 0) : Type 0 where
  pub get : Str → S → KvAnswer × S
  pub put : Str → Dict Json → S → Bool × S

abbrev pub add_string : Str → Json → Dict Str → Dict Str
add_string k (str s) rest = (k, s) ∷ rest
add_string k null rest = rest
add_string k (bool b) rest = rest
add_string k (num x) rest = rest
add_string k (arr xs) rest = rest
add_string k (obj fs) rest = rest

-- The loop of GetSecrets: only strings are kept.
unfoldable pub strings_of : Dict Json → Dict Str
strings_of [] = []
strings_of ((k, v) ∷ d) = add_string k v (strings_of d)

-- The loop of PutSecret.
abbrev pub as_json : Dict Str → Dict Json
as_json [] = []
as_json ((k, s) ∷ d) = (k, str s) ∷ as_json d

abbrev pub secrets_of : KvAnswer → Option (Dict Str)
secrets_of kv_failed = none
secrets_of no_data = some []
secrets_of (kv_data d) = some (strings_of d)

pub data Secret : Type 0 where
  value : Str → Secret
  read_failed : Secret
  key_not_found : Str → Secret

abbrev pub field_of : Str → Option (Dict Str) → Secret
field_of key none = read_failed
field_of key (some d) = elim (lookup key d) [ none ↦ key_not_found key | some v ↦ value v ]

abbrev pub or_empty : Option (Dict Str) → Dict Str
or_empty none = []
or_empty (some d) = d

module _ {S : Type 0} (kv : Kv S) where
  unfoldable pub get_secrets : Str → S → Option (Dict Str) × S
  unfolding strings_of
  get_secrets path s = let (a, s') = kv.get path s in (secrets_of a, s')

  unfoldable pub get_secret : (path key : Str) → S → Secret × S
  unfolding get_secrets
  get_secret path key s = let (d, s') = get_secrets path s in (field_of key d, s')

  -- The error of the read is dropped.
  unfoldable pub put_secret : (path key value : Str) → S → Bool × S
  unfolding get_secrets
  put_secret path key v s =
      let (existing, s') = get_secrets path s in
      kv.put path (as_json (insert key v (or_empty existing))) s'

-- strings.ToLower and strings.ToUpper on ASCII
abbrev pub to_lower : Str → Str
to_lower = map (λ c. if leb b'A' c && leb c b'Z' then c + 32 else c)

abbrev pub to_upper : Str → Str
to_upper = map (λ c. if leb b'a' c && leb c b'z' then c - 32 else c)

-- NewFromEnv; `getenv` is os.Getenv.
unfoldable pub new_from_env : Logins → (created : Bool) → (Str → Str) → NewClient
unfolding new_vault_client
new_from_env logins created getenv =
    if is_empty (getenv (lit "VAULT_ADDR"))
    then no_address
    else new_vault_client logins created (record {
      address = getenv (lit "VAULT_ADDR");
      namespace = getenv (lit "VAULT_NAMESPACE");
      auth_mode = to_lower (getenv (lit "VAULT_AUTH_MODE"));
      token = getenv (lit "VAULT_TOKEN");
      role_id = getenv (lit "VAULT_APPROLE_ROLE_ID");
      secret_id = getenv (lit "VAULT_APPROLE_SECRET_ID");
      k8s_role = getenv (lit "VAULT_K8S_ROLE");
      k8s_jwt_path = getenv (lit "VAULT_K8S_TOKEN_PATH");
      mount_path = getenv (lit "VAULT_KV_MOUNT");
      timeout = pos 0;
    })
