-- ===== src/Config/Secrets/Laws.antt =====
-- config/secret_loader.go: what a secret's value is, and how long.
use platform_kit.Common.{
  ap, lit, subst, sym, Bool, false, Option, none, some, List, [], ◌∷◌, if◌then◌else◌, if-both, Str,
  is_empty, Dict, lookup, insert, ◌≡◌, refl, inl, inr, Bool-cases, str_eq, lookup-insert_self,
  lookup-insert_miss, str_eq_iff,
}
use platform_kit.Config.Vault.{
  Kv, Secret, value, read_failed, key_not_found, get_secret, VaultClient, client, Logins,
  new_from_env,
}
use platform_kit.Config.Secrets.{
  Got, got, get_failed, SecretLoader, env_key, env_get, Cached, cache_key, keep, cached_or,
  vault_get, first_or, chain_get, loader_for, split_vault_key, new_default_secret_loader,
}

module _ {S : Type 0} (kv : Kv S) (default_path : Str) where
  abbrev at_key : Str → Str × Str
  at_key key = split_vault_key key default_path

  -- Gets of other secrets.
  pub vault_get_all : List Str → Cached S → Cached S
  vault_get_all [] s = s
  vault_get_all (key ∷ keys) s = vault_get_all keys (vault_get kv default_path key s).1

  keep-lookup :
      (j k v : Str) (cache : Dict Str) (r : Secret × S)
      → lookup j cache ≡ some v
      → lookup k cache ≡ none
      → lookup j (keep k cache r).1.cache ≡ some v
  keep-lookup j k v cache (read_failed, engine) e n = e
  keep-lookup j k v cache (key_not_found key, engine) e n = e
  keep-lookup j k v cache (value w, engine) e n = elim (Bool-cases (str_eq k j)) [
    | inl t ↦
        let q : k ≡ j = (str_eq_iff k j).0 t in let n' : lookup j cache ≡ none = rw q at n in cc
    | inr f ↦ rw (lookup-insert_miss k j w cache f) e
  ]

  cached_or-lookup :
      (j v : Str) (at : Str × Str) (s : Cached S) (o : Option Str)
      → lookup (cache_key at) s.cache ≡ o
      → lookup j s.cache ≡ some v
      → lookup j (cached_or kv default_path at s o).1.cache ≡ some v
  cached_or-lookup j v at s (some w) l e = e
  cached_or-lookup j v at s none l e =
      keep-lookup j (cache_key at) v s.cache (get_secret kv at.0 at.1 s.engine) e l

  vault_get_all-lookup :
      (keys : List Str) (j v : Str) (s : Cached S)
      → lookup j s.cache ≡ some v
      → lookup j (vault_get_all keys s).cache ≡ some v
  unfolding vault_get_all vault_get
  vault_get_all-lookup [] j v s e = e
  vault_get_all-lookup (key ∷ keys) j v s e =
      vault_get_all-lookup keys j v _ (cached_or-lookup j v (at_key key) s _ refl e)

  keep-stores :
      (k v : Str) (cache : Dict Str) (r : Secret × S) (s : Cached S)
      → keep k cache r ≡ (got v, s)
      → lookup k s.cache ≡ some v
  keep-stores k v cache (read_failed, engine) s e = cc
  keep-stores k v cache (key_not_found key, engine) s e = cc
  keep-stores k v cache (value w, engine) s e =
      let c : insert k w cache ≡ s.cache = ap (λ (r : Got × Cached S). r.1.cache) e in
      let q : w ≡ v = cc in rw (← c, q) (lookup-insert_self k v cache)

  cached_or-stores :
      (at : Str × Str) (v : Str) (s s' : Cached S) (o : Option Str)
      → lookup (cache_key at) s.cache ≡ o
      → cached_or kv default_path at s o ≡ (got v, s')
      → lookup (cache_key at) s'.cache ≡ some v
  cached_or-stores at v s s' none l e = keep-stores (cache_key at) v s.cache _ s' e
  cached_or-stores at v s s' (some w) l e =
      let c : s.cache ≡ s'.cache = ap (λ (r : Got × Cached S). r.1.cache) e in
      let q : w ≡ v = cc in rw (← c, l, q) refl

  -- Once a Vault loader has returned a secret, it returns the same value for that key ever after, whatever
  -- other keys are asked for in between, without a request to Vault and without a change of its state.
  pub vault_get_kept :
      (key v : Str) (keys : List Str) (s s' : Cached S)
      → vault_get kv default_path key s ≡ (got v, s')
      → vault_get kv default_path key (vault_get_all keys s') ≡ (got v, vault_get_all keys s')
  unfolding vault_get
  vault_get_kept key v keys s s' e =
      let stored = cached_or-stores (at_key key) v s s' _ refl e in
      rw (vault_get_all-lookup keys (cache_key (at_key key)) v s' stored) refl

-- The value that a Get found; "" when it failed.
abbrev pub value_of : Got → Str
value_of (got v) = v
value_of get_failed = []

abbrev pub or_default : Str → Str → Str
or_default s d = if is_empty s then d else s

first_or-value :
    {T : Type 0} (v : Str) (t : T) (r : Got × T)
    → (first_or (got v, t) r).0 ≡ got (or_default (value_of r.0) v)
first_or-value v t (get_failed, t') = refl
first_or-value v t (got w, t') = elim (Bool-cases (is_empty w)) [
  | inl e ↦ rw e refl
  | inr e ↦ rw e refl
]

-- The last loader of a chain: "" is what is left after it, too.
last-value :
    {T : Type 0} (v : Str) (t : T)
    → ◌≡◌ {A = Got × T} (if is_empty v then (got [], t) else (got v, t)) (got v, t)
last-value [] t = refl
last-value (c ∷ v) t = refl

-- With an authenticated Vault client, the default loader returns Vault's value if Vault has one that is not
-- empty, and otherwise the variable of the key's upper-case name; a failure of Vault is never reported.
pub new_default_secret_loader-value :
    {S : Type 0} (logins : Logins) (created : Bool) (mount : VaultClient → Kv S)
    (getenv : Str → Str) (prefix default_path key : Str) (c : VaultClient) (s : Cached S)
    → is_empty (getenv (lit "VAULT_ADDR")) ≡ false
    → new_from_env logins created getenv ≡ client c
    → (new_default_secret_loader logins created mount getenv prefix default_path key s).0
      ≡ got (
          or_default
            (value_of (vault_get (mount c) default_path key s).0)
            (getenv (env_key prefix key)))
unfolding new_default_secret_loader chain_get env_get
new_default_secret_loader-value {S} logins created mount getenv prefix default_path key c s a e =
    let P : SecretLoader (Cached S) → Type 0 = λ l.
      (l key s).0
      ≡ got (
          or_default (value_of (vault_get (mount c) default_path key s).0)
            (getenv (env_key prefix key))) in
    if-both P (is_empty (getenv (lit "VAULT_ADDR"))) _ _ (λ t. cc)
      (λ _.
        subst (λ n. P (loader_for mount getenv (prefix, default_path) n)) (sym e)
          (let r = vault_get (mount c) default_path key s in
            rw (last-value (getenv (env_key prefix key)) r.1)
              (first_or-value (getenv (env_key prefix key)) r.1 r)))
