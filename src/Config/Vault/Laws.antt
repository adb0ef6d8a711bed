-- ===== src/Config/Vault/Laws.antt =====
-- config/vault.go: reading and writing a secret.
use platform_kit.Common.{
  Bool, true, false, Option, none, some, [], ◌∷◌, if◌then◌else◌, Str, str_eq, Dict, lookup, insert,
  ◌≡◌, refl, ap, ◌∙◌, lookup-insert,
}
use platform_kit.Common.Json.{Json}
use platform_kit.Config.Vault.{
  kv_data, Kv, strings_of, as_json, Secret, value, key_not_found, field_of, or_empty, get_secrets,
  get_secret, put_secret,
}

strings_of-as_json : (d : Dict Str) → strings_of (as_json d) ≡ d
unfolding strings_of
strings_of-as_json [] = refl
strings_of-as_json ((k, s) ∷ d) = ap (λ r. (k, s) ∷ r) (strings_of-as_json d)

-- What Vault documents of a KV v2 engine: a read after a write that succeeded returns what was written.
pub record KvLaws {S : Type 0} (kv : Kv S) : Type 0 where
  pub read_back :
      (path : Str) (d : Dict Json) (s s' : S)
      → kv.put path d s ≡ (true, s')
      → (kv.get path s').0 ≡ kv_data d

abbrev value_or_not_found : Str → Option Str → Secret
value_or_not_found j none = key_not_found j
value_or_not_found j (some v) = value v

field_of-insert :
    (key j v : Str) (d : Dict Str)
    → field_of j (some (insert key v d)) ≡ (if str_eq key j then value v else field_of j (some d))
field_of-insert key j v d =
    ap (value_or_not_found j) (lookup-insert key j v d) ∙ split (str_eq key j)
  where
    split :
        (b : Bool)
        → value_or_not_found j (if b then some v else lookup j d)
          ≡ (if b then value v else field_of j (some d))
    split true = refl
    split false = refl

module _ {S : Type 0} (kv : Kv S) where
  -- After a PutSecret that succeeded, on an engine that reads what was written last, the secret consists of
  -- the string fields that PutSecret's own read found, with the given field set: fields of other types are
  -- gone, and so is every other field when that read failed. GetSecret then returns the value under its key,
  -- and under another key what those string fields have.
  pub get_secret-put_secret :
      KvLaws kv
      → (path key v j : Str) (s s' : S) → put_secret kv path key v s ≡ (true, s')
      → ((kv.get path s').0 ≡ kv_data (as_json (insert key v (or_empty (get_secrets kv path s).0))))
        × ((get_secret kv path j s').0 ≡ (
            if str_eq key j
            then value v
            else field_of j (some (or_empty (get_secrets kv path s).0))))
  unfolding get_secret put_secret
  get_secret-put_secret laws path key v j s s' h =
      let fields = insert key v (or_empty (get_secrets kv path s).0) in
      let e : (kv.get path s').0 ≡ kv_data (as_json fields) =
        laws.read_back path (as_json fields) (kv.get path s).1 s' h in
      (e, rw (e, strings_of-as_json fields) (field_of-insert key j v _))
