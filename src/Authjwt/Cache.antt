-- ===== src/Authjwt/Cache.antt =====
-- authjwt/validator.go: how the cache of the keys is kept.
use platform_kit.Common.{
  ℕ, suc, true, false, ◌&&◌, not, Option, none, some, List, [], ◌∷◌, if-both, Str, is_empty, Dict,
  lookup, ◌≡◌, refl, All, leb,
}
use platform_kit.Authjwt.{
  Config, PublicKey, RefreshError, Exchange, not_built, no_response, response, Remote, State,
  unknown_kid, is_recent, refresh, key_for_kid, store, read_document, read_exchange, usable_keys,
  any_key,
}

-- What the fields promise of each other: no error is kept, and a time of fetching comes with keys.
abbrev pub IsConsistent : State → Type 0
IsConsistent s = (s.fetch_err ≡ none) × ((t : ℕ) → s.fetched ≡ some t → is_empty s.keys ≡ false)

store-IsConsistent :
    (keys : Dict PublicKey) (finished : ℕ) (s : State)
    → IsConsistent s
    → IsConsistent (store keys finished s).1
store-IsConsistent [] finished s h = h
store-IsConsistent (k ∷ ks) finished s h = (refl, λ t e. refl)

any_key-named :
    (kid : Str) (keys : Dict PublicKey) → is_empty kid ≡ false → any_key kid keys ≡ unknown_kid kid
any_key-named kid [] e = refl
any_key-named kid ((j, k) ∷ keys) e = rw e refl

module _ (c : Config) (remote : Remote) where
  read_exchange-IsConsistent :
      (x : Exchange) (s : State) → IsConsistent s → IsConsistent (read_exchange c remote x s).1
  read_exchange-IsConsistent not_built s h = h
  read_exchange-IsConsistent no_response s h = h
  read_exchange-IsConsistent (response status body finished) s h =
      if-both (λ (r : Option RefreshError × State). IsConsistent r.1) (leb 300 status) _ _ (λ _. h)
        (λ _.
          elim (remote.parse_jwks body)
            as (λ d. IsConsistent (read_document c remote d finished s).1) [
              | none ↦ h
              | some ks ↦ store-IsConsistent (usable_keys c remote ks []) finished s h
            ])

  refresh-IsConsistent :
      (now : ℕ) (s : State) → IsConsistent s → IsConsistent (refresh c remote now s).1
  unfolding refresh
  refresh-IsConsistent now s h =
      if-both (λ (r : Option RefreshError × State). IsConsistent r.1)
        (is_recent c remote now s && not (is_empty s.keys)) _ _ (λ _. h)
        (λ _.
          read_exchange-IsConsistent (remote.exchange s.requests)
            (record s { requests = suc s.requests }) h)

  -- Keys that are younger than the cache's lifetime serve a call of refresh without a request.
  refresh_recent :
      (now : ℕ) (s : State)
      → is_recent c remote now s ≡ true
      → is_empty s.keys ≡ false
      → refresh c remote now s ≡ (s.fetch_err, s)
  unfolding refresh
  refresh_recent now s r e = rw (r, e) refl

  -- The calls of refresh that the single-flight lock lets through, in the order in which they get it.
  pub refresh_all : List ℕ → State → State
  refresh_all [] s = s
  refresh_all (now ∷ nows) s = refresh_all nows (refresh c remote now s).1

  -- Callers of refresh who get the lock while the keys are younger than the cache's lifetime make no
  -- request and change nothing, however many they are.
  pub refresh_burst :
      (nows : List ℕ) (s : State)
      → is_empty s.keys ≡ false
      → All (λ now. is_recent c remote now s ≡ true) nows
      → refresh_all nows s ≡ s
  unfolding refresh_all
  refresh_burst [] s e h = refl
  refresh_burst (now ∷ nows) s e (r, rs) = rw (refresh_recent now s r e) (refresh_burst nows s e rs)

  -- A kid that is not empty and not among keys younger than the cache's lifetime, with no error kept, is
  -- refused without a request, whatever keys the identity service publishes by then.
  pub key_for_kid_rotated :
      (kid : Str) (now : ℕ) (s : State)
      → s.fetch_err ≡ none
      → is_empty s.keys ≡ false
      → is_recent c remote now s ≡ true
      → is_empty kid ≡ false
      → lookup kid s.keys ≡ none
      → key_for_kid c remote kid now s ≡ (unknown_kid kid, s)
  unfolding key_for_kid
  key_for_kid_rotated kid now s f e r k l =
      rw (l, refresh_recent now s r e, f, l, any_key-named kid s.keys k, ← f) refl
