-- ===== src/Tests/Settings.antt =====
-- A configuration with a secret that a reload must not touch, a Vault with one secret, and their loaders.
use platform_kit.Common.{
  ℕ, suc, Bool, true, false, Option, none, some, List, [], ◌∷◌, ◌≡◌, refl, arith, Str, lit, str_eq,
  pos, lookup, insert, Dict, ap, if◌then◌else◌, inl, inr,
}
use platform_kit.Common.Json.{Json, str, bool}
use platform_kit.Config.Reloadable.{
  Field, leaf, structure, Members, end, member, Argument, pointer_to, apply_reloadable_struct,
}
use platform_kit.Config.Reloadable.Laws.{leaf_in, reaches_in, leaf_in-apply_reloadable_struct}
use platform_kit.Config.HotReload.{
  Op, Arrival, changed, State, fresh, fire, start, install_hot_reload,
}
use platform_kit.Config.HotReload.Laws.{IsSpaced, start-IsSpaced, start_too_soon}
use platform_kit.Config.HotReload.Serves.{Serves, start-Serves}
use platform_kit.Config.HotReload.Live.{install_hot_reload_untagged}
use platform_kit.Config.Vault.{
  kv_data, Kv, get_secrets, get_secret, put_secret, as_json, or_empty, value, field_of, VaultClient,
  Logins, logged_in, client, new_from_env,
}
use platform_kit.Config.Vault.Laws.{KvLaws, get_secret-put_secret}
use platform_kit.Config.Secrets.{got, Cached, vault_get, env_key, new_default_secret_loader}
use platform_kit.Config.Secrets.Laws.{
  vault_get_all, vault_get_kept, value_of, or_default, new_default_secret_loader-value,
}

abbrev log_level : Field
log_level = record { name = lit "LogLevel"; exported = true; reloadable = true }

abbrev password : Field
password = record { name = lit "Password"; exported = true; reloadable = false }

abbrev config : Str → Str → Members
config level secret = member log_level (leaf level) (member password (leaf secret) end)

leaf_in-apply_reloadable_struct_example :
    leaf_in
      (apply_reloadable_struct (config (lit "info") (lit "p")) (config (lit "debug") (lit "q")))
      (0 ∷ [])
    ≡ (if reaches_in (config (lit "info") (lit "p")) (config (lit "debug") (lit "q")) (0 ∷ [])
        then leaf_in (config (lit "debug") (lit "q")) (0 ∷ [])
        else leaf_in (config (lit "info") (lit "p")) (0 ∷ []))
leaf_in-apply_reloadable_struct_example =
    leaf_in-apply_reloadable_struct (config (lit "info") (lit "p")) (config (lit "debug") (lit "q"))
      (0 ∷ [])

abbrev write : Op
write = record { write = true; create = false }

-- An editor truncates the file, writes it, and saves again later.
abbrev saves : List Arrival
saves = changed write 100 101 ∷ changed write 130 131 ∷ changed write 400 401 ∷ []

-- Each reload counts.
abbrev count : ℕ → ℕ → ℕ
count now n = suc n

start-IsSpaced_example : IsSpaced 200 (start 200 count saves (fresh 0)).fires
start-IsSpaced_example =
    start-IsSpaced 200 count saves 0 (omega arith) (omega arith, (omega arith, (omega arith, tt)))

start-Serves_example : Serves 200 count 130 (start 200 count saves (fresh 0)).fires
start-Serves_example =
    start-Serves 200 count saves 0 write 130 131 (omega arith) (omega arith)
      (omega arith, (omega arith, (omega arith, tt))) (tt, (tt, (tt, tt))) (inr (inl refl)) refl

abbrev reloaded : State ℕ
reloaded = fire 200 count 101 (fresh 0)

start_too_soon_example : start 200 count (changed write 130 131 ∷ []) reloaded ≡ reloaded
start_too_soon_example =
    start_too_soon 200 count (changed write 130 131 ∷ []) reloaded 101 refl (omega arith, tt)

abbrev reload : ℕ → Option Argument
reload now = some (pointer_to (lit "AppConfig") (structure (config (lit "debug") (lit "q"))))

abbrev before : Argument
before = pointer_to (lit "AppConfig") (structure (config (lit "info") (lit "p")))

abbrev after : State Argument
after =
    fire 2000000000
      (λ now a. pointer_to (lit "AppConfig") (structure (config (lit "debug") (lit "p")))) 101
      (fresh before)

runs :
    install_hot_reload true
      (λ p. true)
      reload
      (lit "c.yaml" ∷ [])
      (pos 0)
      (changed write 100 101 ∷ [])
      before
    ≡ some after
unfolding install_hot_reload str_eq
runs = refl

install_hot_reload_untagged_example :
    (ns : Members) × (after.live ≡ pointer_to (lit "AppConfig") (structure ns))
    × (leaf_in ns (1 ∷ []) ≡ leaf_in (config (lit "info") (lit "p")) (1 ∷ []))
install_hot_reload_untagged_example =
    install_hot_reload_untagged (lit "AppConfig") (config (lit "info") (lit "p")) (1 ∷ []) true
      (λ p. true) reload (lit "c.yaml" ∷ []) (pos 0) (changed write 100 101 ∷ []) after refl runs

-- An engine with one secret, whose state is the secret's data.
abbrev kv : Kv (Dict Json)
kv = record { get = λ path d. (kv_data d, d); put = λ path d old. (true, d) }

kv_laws : KvLaws kv
kv_laws = record {
  read_back = λ path d s s' h. let e : d ≡ s' = ap (λ (r : Bool × Dict Json). r.1) h in rw e refl;
}

abbrev stored : Dict Json
stored = (lit "token", str (lit "t")) ∷ (lit "ttl", bool true) ∷ []

abbrev rewritten : Dict Json
rewritten = (lit "token", str (lit "t")) ∷ (lit "user", str (lit "u")) ∷ []

puts : put_secret kv (lit "app") (lit "user") (lit "u") stored ≡ (true, rewritten)
unfolding put_secret insert str_eq
puts = refl

get_secret-put_secret_example :
    ((kv.get (lit "app") rewritten).0
      ≡ kv_data (
          as_json (insert (lit "user") (lit "u") (or_empty (get_secrets kv (lit "app") stored).0))))
    × ((get_secret kv (lit "app") (lit "token") rewritten).0 ≡ (
        if str_eq (lit "user") (lit "token")
        then value (lit "u")
        else field_of (lit "token") (some (or_empty (get_secrets kv (lit "app") stored).0))))
get_secret-put_secret_example =
    get_secret-put_secret kv kv_laws (lit "app") (lit "user") (lit "u") (lit "token") stored
      rewritten puts

abbrev empty : Cached (Dict Json)
empty = record { cache = []; engine = stored }

abbrev filled : Cached (Dict Json)
filled = record { cache = (lit "app#token", lit "t") ∷ []; engine = stored }

gets : vault_get kv (lit "app") (lit "token") empty ≡ (got (lit "t"), filled)
unfolding vault_get lookup insert str_eq
gets = refl

vault_get_kept_example :
    vault_get kv
      (lit "app")
      (lit "token")
      (vault_get_all kv (lit "app") (lit "other#k" ∷ []) filled)
    ≡ (got (lit "t"), vault_get_all kv (lit "app") (lit "other#k" ∷ []) filled)
vault_get_kept_example =
    vault_get_kept kv (lit "app") (lit "token") (lit "t") (lit "other#k" ∷ []) empty filled gets

abbrev environment : Dict Str
environment =
    (lit "VAULT_ADDR", lit "http://v")
    ∷ (lit "VAULT_TOKEN", lit "s")
    ∷ (lit "APP_PASSWORD", lit "p")
    ∷ []

abbrev getenv : Str → Str
getenv name = elim (lookup name environment) [ none ↦ [] | some v ↦ v ]

abbrev logins : Logins
logins = record { approle = λ r s. logged_in r; kubernetes = λ r p. none }

abbrev connected : VaultClient
connected = record {
  address = lit "http://v";
  namespace = [];
  timeout = pos 10000000000;
  token = lit "s";
  mount_path = lit "secret";
}

connects : new_from_env logins true getenv ≡ client connected
unfolding new_from_env lookup str_eq
connects = refl

vault_or_variable :
    (new_default_secret_loader logins true
      (λ c. kv)
      getenv
      (lit "APP")
      (lit "app")
      (lit "password")
      empty).0
    ≡ got (
        or_default
          (value_of (vault_get kv (lit "app") (lit "password") empty).0)
          (getenv (env_key (lit "APP") (lit "password"))))
unfolding lookup str_eq
vault_or_variable =
    new_default_secret_loader-value logins true (λ c. kv) getenv (lit "APP") (lit "app")
      (lit "password") connected empty refl connects

falls_back :
    (new_default_secret_loader logins true
      (λ c. kv)
      getenv
      (lit "APP")
      (lit "app")
      (lit "password")
      empty).0
    ≡ got (lit "p")
unfolding new_default_secret_loader lookup str_eq
falls_back = refl
