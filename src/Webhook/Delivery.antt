-- ===== src/Webhook/Delivery.antt =====
-- webhook/dispatch.go and webhook/retry.go: the headers of a delivery, and when to try again. Durations
-- are nanoseconds. Outgoing is the part of Request that buildHeaders reads. HMAC-SHA256 in hexadecimal, webhook/signing.go, is a parameter.
pub mod Laws
use platform_kit.Common.{
  ℕ, ◌*◌, Bool, true, false, ◌&&◌, ◌||◌, not, List, [], ◌∷◌, ◌++◌, if◌then◌else◌, Str, lit, str_eq,
  is_empty, Dict, insert, ℤ, pos, leb_ℤ, ltb_ℤ,
}

abbrev pub minute : ℕ
minute = 60000000000

abbrev equal_ℤ : ℤ → ℤ → Bool
equal_ℤ a b = leb_ℤ a b && leb_ℤ b a

unfoldable pub backoff_duration : ℤ → ℕ
backoff_duration attempt =
    if leb_ℤ attempt (pos 1)
    then minute
    else if equal_ℤ attempt (pos 2)
    then 5 * minute
    else if equal_ℤ attempt (pos 3)
    then 25 * minute
    else if equal_ℤ attempt (pos 4)
    then 120 * minute
    else 600 * minute

unfoldable pub is_retryable : ℤ → Bool
is_retryable code =
    if leb_ℤ (pos 200) code && ltb_ℤ code (pos 300)
    then false
    else if equal_ℤ code (pos 408) || equal_ℤ code (pos 429)
    then true
    else not (leb_ℤ (pos 400) code && ltb_ℤ code (pos 500))

pub record Outgoing : Type 0 where
  pub payload : Str
  pub event_type : Str
  pub delivery_id : Str
  pub content_type : Str
  pub secret : Str
  pub user_agent : Str
  pub extra_headers : Dict Str

unfoldable pub resolve_content_type : Str → Str
unfolding str_eq
resolve_content_type ct =
    if is_empty ct || str_eq ct (lit "json")
    then lit "application/json"
    else if str_eq ct (lit "form")
    then lit "application/x-www-form-urlencoded"
    else ct

abbrev pub defaulted_string : Str → Str → Str
defaulted_string v fallback = if is_empty v then fallback else v

abbrev pub set_if : Bool → Str → Str → Dict Str → Dict Str
set_if b k v h = if b then insert k v h else h

-- headers[k] = v for each extra header
unfoldable pub merge : Dict Str → Dict Str → Dict Str
unfolding insert
merge [] h = h
merge ((k, v) ∷ extra) h = merge extra (insert k v h)

module _ (hmac : (secret payload : Str) → Str) where
  unfoldable pub built_in : Outgoing → Dict Str
  unfolding insert resolve_content_type
  built_in r =
      let h0 =
        insert (lit "User-Agent") (defaulted_string r.user_agent (lit "Sentiae-Hookshot/1.0"))
          (insert (lit "Content-Type") (resolve_content_type r.content_type) []) in
      let h1 = set_if (not (is_empty r.event_type)) (lit "X-Sentiae-Event") r.event_type h0 in
      let h2 = set_if (not (is_empty r.delivery_id)) (lit "X-Sentiae-Delivery") r.delivery_id h1 in
      set_if (not (is_empty r.secret)) (lit "X-Hub-Signature-256")
        (lit "sha256=" ++ hmac r.secret r.payload) h2

  unfoldable pub build_headers : Outgoing → Dict Str
  unfolding built_in merge
  build_headers r = merge r.extra_headers (built_in r)
