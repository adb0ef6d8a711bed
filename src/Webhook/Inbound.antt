-- ===== src/Webhook/Inbound.antt =====
-- webhook/inbound/inbound.go. HMAC-SHA256 and SHA-256 in hexadecimal are parameters; hmac.Equal compares
-- bytes. A handler may answer each call differently: it is a function of the calls made before.
pub mod Idempotency
pub mod Signature
pub mod Laws
pub mod Duplicates
use platform_kit.Common.{
  ℕ, ◌-◌, Bool, true, false, Option, none, some, List, [], ◌∷◌, ◌++◌, ltb, length, drop,
  if◌then◌else◌, Str, lit, str_eq, is_empty, has_prefix, Dict, lookup, insert, delete_if,
}
use platform_kit.Middleware.Http.{get}

pub record Delivery : Type 0 where
  pub org_id : Str
  pub key : Str
  pub body : Str

pub record Provider : Type 0 where
  pub name : Str
  pub secret : Str
  pub signature_header : Str
  pub verifier : Option (Dict Str → Str → Str → Option Str)
  pub handler : Delivery → ℕ → Option Str

-- `store` is the TTL of the in-memory store, or `none` for a nil store.
pub record Receiver : Type 0 where
  pub providers : Dict Provider
  pub store : Option ℕ

-- The keys seen, with their times, and the deliveries given to handlers, oldest first.
pub record State : Type 0 where
  pub seen : Dict ℕ
  pub handled : List Delivery

unfoldable pub register : Provider → Receiver → Receiver
unfolding insert
register p r = record r { providers = insert p.name p r.providers }

abbrev pub expired : ℕ → ℕ → ℕ → Bool
expired ttl now t = ltb ttl (now - t)

abbrev pub record_key : Str → ℕ → Dict ℕ → Option ℕ → Bool × Dict ℕ
record_key key now seen (some t) = (true, seen)
record_key key now seen none = (false, insert key now seen)

unfoldable pub seen_or_record : (ttl : ℕ) → Str → (now : ℕ) → Dict ℕ → Bool × Dict ℕ
unfolding lookup insert delete_if
seen_or_record ttl key now seen =
    let live = delete_if (λ k t. expired ttl now t) seen in
    record_key key now live (lookup key live)

-- The checks before the store is asked: a status, or a delivery for a provider.
pub data Admission : Type 0 where
  rejected : (status : ℕ) → Admission
  admitted : Provider → Delivery → Admission

module _ (hmac : (secret body : Str) → Str) (sha256 : Str → Str) where
  -- Does verifyHMACSHA256 return nil?
  unfoldable pub verify_hmac : (header body secret : Str) → Bool
  unfolding str_eq has_prefix
  verify_hmac header body secret =
      if is_empty header
      then false
      else str_eq (if has_prefix header (lit "sha256=") then drop 7 header else header)
          (hmac secret body)

  abbrev pub signature_name : Str → Str
  signature_name s = if is_empty s then lit "X-Sentiae-Signature" else s

  abbrev pub verified_by :
      Provider → Dict Str → Str → Option (Dict Str → Str → Str → Option Str) → Bool
  verified_by p headers body (some verify) = elim (verify headers body p.secret) [
    | none ↦ true
    | some e ↦ false
  ]
  verified_by p headers body none =
      if is_empty p.secret
      then true
      else verify_hmac (get (signature_name p.signature_header) headers) body p.secret

  unfoldable pub verified : Provider → Dict Str → Str → Bool
  unfolding verify_hmac get
  verified p headers body = verified_by p headers body p.verifier

  -- The key without the provider's name before it, as handlers see it.
  unfoldable pub idempotency_key : Str → Dict Str → Str → Str
  unfolding get
  idempotency_key name headers body =
      let k = get (lit "X-Idempotency-Key") headers in
      if is_empty k then name ++ b':' ∷ sha256 body else k

  abbrev pub admit_body : Str → Str → Dict Str → Option Provider → Option Str → Admission
  admit_body name org headers none body = rejected 404
  admit_body name org headers (some p) none = rejected 400
  admit_body name org headers (some p) (some body) =
      if verified p headers body
      then admitted p
          (record { org_id = org; key = idempotency_key name headers body; body = body })
      else rejected 401

  -- The checks of Handle before the store is asked; `none` is a body that cannot be read.
  unfoldable pub admit : Receiver → (name org : Str) → Dict Str → Option Str → Admission
  unfolding verified idempotency_key lookup
  admit r name org headers body = admit_body name org headers (lookup name r.providers) body

  -- 202 if the handler returns nil, 502 else; either way the store keeps the key.
  abbrev pub run_handler : Provider → Delivery → State → ℕ × State
  run_handler p d s = (
    elim (p.handler d (length s.handled)) [ none ↦ 202 | some e ↦ 502 ],
    record s { handled = s.handled ++ d ∷ [] },
  )

  abbrev pub unless_seen : Provider → Delivery → State → Bool × Dict ℕ → ℕ × State
  unless_seen p d s (dup, seen) =
      if dup then (409, record s { seen = seen }) else run_handler p d (record s { seen = seen })

  abbrev pub dispatch : Option ℕ → (name : Str) → ℕ → State → Admission → ℕ × State
  dispatch store name now s (rejected status) = (status, s)
  dispatch none name now s (admitted p d) = run_handler p d s
  dispatch (some ttl) name now s (admitted p d) =
      unless_seen p d s (seen_or_record ttl (name ++ b':' ∷ d.key) now s.seen)

  -- Handle: the status that is written, and the state after the call.
  unfoldable pub handle :
      Receiver → (name org : Str) → Dict Str → Option Str → (now : ℕ) → State → ℕ × State
  unfolding admit seen_or_record
  handle r name org headers body now s = dispatch r.store name now s (admit r name org headers body)
