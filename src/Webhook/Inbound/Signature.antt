-- ===== src/Webhook/Inbound/Signature.antt =====
-- webhook/inbound/inbound.go: when a delivery counts as verified, apart from how Handle finds out.
use mathlib.Core.Bool.{false≢true}
use platform_kit.Common.{
  true, false, Option, none, some, [], ◌∷◌, ◌++◌, ◌≡◌, ◌↔◌, refl, sym, ap, ◌∙◌, inl, inr,
  Bool-cases, Option-cases, Str, lit, Dict, is_empty, drop, has_prefix, has_prefix_iff, str_eq_iff,
  subst,
}
use platform_kit.Middleware.Http.{get}
use platform_kit.Webhook.Inbound.{Provider, verify_hmac, signature_name, verified_by, verified}

-- The value of a signature header is the authentication code in hexadecimal, after "sha256=" or bare. A
-- bare value does not begin with "sha256=", and no value is empty.
pub data IsCode (mac value : Str) : Type 0 where
  prefixed : value ≡ lit "sha256=" ++ mac → IsCode mac value
  bare :
      is_empty value ≡ false
      → ((u : Str) → value ≡ lit "sha256=" ++ u → ⊥)
      → value ≡ mac
      → IsCode mac value

-- The header that holds the signature: the provider's, or X-Sentiae-Signature if it names none.
pub data IsSignatureHeader (p : Provider) (name : Str) : Type 0 where
  own : is_empty p.signature_header ≡ false → name ≡ p.signature_header → IsSignatureHeader p name
  default : p.signature_header ≡ [] → name ≡ lit "X-Sentiae-Signature" → IsSignatureHeader p name

module _ (hmac : (secret body : Str) → Str) where
  -- The provider's verifier accepts; or it has no verifier, and the signature header holds the code of
  -- the body under its secret; or it has neither a verifier nor a secret, and nothing is checked.
  pub data Signed (p : Provider) (headers : Dict Str) (body : Str) : Type 0 where
    accepted :
        (verify : Dict Str → Str → Str → Option Str)
        → p.verifier ≡ some verify
        → verify headers body p.secret ≡ none
        → Signed p headers body
    authentic :
        (name : Str)
        → p.verifier ≡ none
        → is_empty p.secret ≡ false
        → IsSignatureHeader p name
        → IsCode (hmac p.secret body) (get name headers)
        → Signed p headers body
    unprotected : p.verifier ≡ none → p.secret ≡ [] → Signed p headers body

module _ (hmac : (secret body : Str) → Str) (sha256 : Str → Str) where
  empty-nil : (s : Str) → is_empty s ≡ true → s ≡ []
  empty-nil [] e = refl
  empty-nil (c ∷ s) e = cc

  verify_hmac-IsCode :
      (value body secret : Str)
      → verify_hmac hmac sha256 value body secret ≡ true
      → IsCode (hmac secret body) value
  unfolding verify_hmac
  verify_hmac-IsCode value body secret h = elim (Bool-cases (is_empty value)) [
    | inl t ↦ absurd (false≢true (rw t at h))
    | inr n ↦ elim (Bool-cases (has_prefix value (lit "sha256="))) [
      | inl p ↦
          let (u, e) = (has_prefix_iff value (lit "sha256=")).0 p in
          let q : drop 7 value ≡ u = ap (drop 7) e in
          let m : u ≡ hmac secret body = (str_eq_iff u (hmac secret body)).0 (rw (n, p, q) at h) in
          prefixed (e ∙ ap (λ x. lit "sha256=" ++ x) m)
      | inr f ↦
          bare n (λ u e. false≢true (sym f ∙ (has_prefix_iff value (lit "sha256=")).1 (u, e)))
            ((str_eq_iff value (hmac secret body)).0 (rw (n, f) at h))
    ]
  ]

  IsCode-verify_hmac :
      (value body secret : Str)
      → IsCode (hmac secret body) value
      → verify_hmac hmac sha256 value body secret ≡ true
  unfolding verify_hmac has_prefix
  IsCode-verify_hmac value body secret (prefixed e) =
      rw e ((str_eq_iff (hmac secret body) (hmac secret body)).1 refl)
  IsCode-verify_hmac value body secret (bare n other e) =
      elim (Bool-cases (has_prefix value (lit "sha256="))) [
        | inl p ↦ let (u, q) = (has_prefix_iff value (lit "sha256=")).0 p in absurd (other u q)
        | inr f ↦ rw (n, f) ((str_eq_iff value (hmac secret body)).1 e)
      ]

  signature_name-IsSignatureHeader :
      (p : Provider) → IsSignatureHeader p (signature_name hmac sha256 p.signature_header)
  signature_name-IsSignatureHeader p = elim (Bool-cases (is_empty p.signature_header)) [
    | inl t ↦ default (empty-nil p.signature_header t) (rw t refl)
    | inr f ↦ own f (rw f refl)
  ]

  IsSignatureHeader-eq :
      (p : Provider) (name : Str)
      → IsSignatureHeader p name
      → name ≡ signature_name hmac sha256 p.signature_header
  IsSignatureHeader-eq p name (own n e) = rw n e
  IsSignatureHeader-eq p name (default d e) = rw d e

  verified_by-Signed :
      (p : Provider) (headers : Dict Str) (body : Str)
      (v : Option (Dict Str → Str → Str → Option Str))
      → p.verifier ≡ v
      → verified_by hmac sha256 p headers body v ≡ true
      → Signed hmac p headers body
  verified_by-Signed p headers body (some verify) q h =
      elim (Option-cases (verify headers body p.secret)) [
        | inl e ↦ accepted verify q e
        | inr (x, e) ↦ absurd (false≢true (rw (e, verified_by) at h))
      ]
  verified_by-Signed p headers body none q h = elim (Bool-cases (is_empty p.secret)) [
    | inl t ↦ unprotected q (empty-nil p.secret t)
    | inr f ↦
        authentic (signature_name hmac sha256 p.signature_header) q f
          (signature_name-IsSignatureHeader p) (verify_hmac-IsCode _ body p.secret (rw f at h))
  ]

  Signed-verified :
      (p : Provider) (headers : Dict Str) (body : Str)
      → Signed hmac p headers body
      → verified_by hmac sha256 p headers body p.verifier ≡ true
  Signed-verified p headers body (accepted verify q e) = rw (q, verified_by, e) refl
  Signed-verified p headers body (unprotected q e) = rw (q, verified_by, e) refl
  Signed-verified p headers body (authentic name q f n c) =
      let c' : IsCode (hmac p.secret body)
          (get (signature_name hmac sha256 p.signature_header) headers) =
        subst (λ x. IsCode (hmac p.secret body) (get x headers)) (IsSignatureHeader-eq p name n)
          c in
      rw (q, verified_by, f) (IsCode-verify_hmac _ body p.secret c')

  -- Handle takes a delivery for verified exactly if it is signed.
  pub verified_iff :
      (p : Provider) (headers : Dict Str) (body : Str)
      → (verified hmac sha256 p headers body ≡ true) ↔ Signed hmac p headers body
  unfolding verified
  verified_iff p headers body =
      (verified_by-Signed p headers body p.verifier refl, Signed-verified p headers body)
