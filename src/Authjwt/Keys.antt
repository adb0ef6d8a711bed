-- ===== src/Authjwt/Keys.antt =====
-- authjwt/validator.go: where a key that serves a token comes from.
use platform_kit.Common.{
  ℕ, suc, ◌<◌, true, ◌&&◌, not, Option, none, some, List, [], ◌∷◌, if-both, Bool-cases, Str,
  is_empty, Dict, lookup, ◌≡◌, refl, arith, In, ◌⊎◌, inl, inr, leb, some-inj, ap, sym, str_eq,
}
use platform_kit.Authjwt.{
  Config, PublicKey, RefreshError, Jwk, Exchange, not_built, no_response, response, Remote, State,
  Keyed, key, unknown_kid, is_recent, refresh, key_for_kid, store, read_document, read_exchange,
  usable_keys, after_refresh, cached_or, find_key, any_key,
}

-- The key stands under some kid.
abbrev pub HasKey : PublicKey → Dict PublicKey → Type 0
HasKey k keys = (kid : Str) × In (kid, k) keys

HasKey-tail :
    (k : PublicKey) (e : Str × PublicKey) (keys : Dict PublicKey)
    → HasKey k keys
    → HasKey k (e ∷ keys)
HasKey-tail k e keys (kid, m) = (kid, inr m)

lookup-HasKey :
    (kid : Str) (k : PublicKey) (keys : Dict PublicKey) → lookup kid keys ≡ some k → HasKey k keys
unfolding lookup
lookup-HasKey kid k [] h = cc
lookup-HasKey kid k ((j, i) ∷ keys) h = elim (Bool-cases (str_eq j kid)) [
  | inl t ↦ let h' : i ≡ k = some-inj (rw t at h) in (j, inl (ap (λ z. (j, z)) (sym h')))
  | inr f ↦ HasKey-tail k (j, i) keys (lookup-HasKey kid k keys (rw f at h))
]

any_key-HasKey :
    (kid : Str) (k : PublicKey) (keys : Dict PublicKey) → any_key kid keys ≡ key k → HasKey k keys
any_key-HasKey kid k [] h = cc
any_key-HasKey kid k ((j, i) ∷ keys) h = elim (Bool-cases (is_empty kid)) [
  | inl t ↦
      let h' : key i ≡ key k = rw t at h in
      let e : i ≡ k = cc in (j, inl (ap (λ z. (j, z)) (sym e)))
  | inr f ↦ let h' : unknown_kid kid ≡ key k = rw f at h in cc
]

find_key-HasKey :
    (kid : Str) (k : PublicKey) (keys : Dict PublicKey) (o : Option PublicKey)
    → lookup kid keys ≡ o
    → find_key kid keys o ≡ key k
    → HasKey k keys
find_key-HasKey kid k keys none l h = any_key-HasKey kid k keys h
find_key-HasKey kid k keys (some i) l h =
    let e : i ≡ k = cc in lookup-HasKey kid k keys (rw l (ap some e))

module _ (c : Config) (remote : Remote) where
  -- The key is in the document that request `s.requests` brought, and the document is the new cache.
  pub record FromDocument (k : PublicKey) (x : Exchange) (s s' : State) : Type 0 where
    pub status : ℕ
    pub body : Str
    pub finished : ℕ
    pub document : List Jwk
    pub answered : x ≡ response status body finished
    pub ok : status < 300
    pub parses : remote.parse_jwks body ≡ some document
    pub has_key : HasKey k (usable_keys c remote document [])
    pub cached : s' ≡ record {
      keys = usable_keys c remote document [];
      fetched = some finished;
      fetch_err = none;
      requests = s.requests;
    }

  -- Where the key of a result comes from, when a key is returned.
  abbrev pub FromRequest : Exchange → State → Keyed × State → Type 0
  FromRequest x s r = (k : PublicKey) → r.0 ≡ key k → FromDocument k x s r.1

  after_store :
      (kid : Str) (status : ℕ) (body : Str) (finished : ℕ) (document : List Jwk)
      (keys : Dict PublicKey) (s : State)
      → status < 300
      → remote.parse_jwks body ≡ some document
      → keys ≡ usable_keys c remote document []
      → FromRequest
          (response status body finished)
          s
          (after_refresh c remote kid (store keys finished s))
  after_store kid status body finished document [] s ok p u k h = cc
  after_store kid status body finished document (e ∷ keys) s ok p u k h = record {
    status = status;
    body = body;
    finished = finished;
    document = document;
    answered = refl;
    ok = ok;
    parses = p;
    has_key = rw (← u) (find_key-HasKey kid k (e ∷ keys) _ refl h);
    cached = rw (← u) refl;
  }

  after_document :
      (kid : Str) (status : ℕ) (body : Str) (finished : ℕ) (d : Option (List Jwk)) (s : State)
      → status < 300
      → remote.parse_jwks body ≡ d
      → FromRequest
          (response status body finished)
          s
          (after_refresh c remote kid (read_document c remote d finished s))
  after_document kid status body finished none s ok p = λ k h. cc
  after_document kid status body finished (some document) s ok p =
      after_store kid status body finished document (usable_keys c remote document []) s ok p refl

  after_exchange :
      (kid : Str) (x : Exchange) (s : State)
      → FromRequest x s (after_refresh c remote kid (read_exchange c remote x s))
  after_exchange kid not_built s = λ k h. cc
  after_exchange kid no_response s = λ k h. cc
  after_exchange kid (response status body finished) s =
      let P : Option RefreshError × State → Type 0 =
        λ r. FromRequest (response status body finished) s (after_refresh c remote kid r) in
      if-both P (leb 300 status) _ _ (λ _ k h. cc)
        (λ f.
          after_document kid status body finished (remote.parse_jwks body) s (ground arith) refl)

  -- A key that key_for_kid returns is a cached one, with the cache untouched, or it is in the document that
  -- one request brought.
  abbrev pub Served : ℕ → State → Keyed × State → Type 0
  Served now s r =
      (k : PublicKey)
      → r.0 ≡ key k
      → ((r.1 ≡ s) × (is_recent c remote now s ≡ true) × HasKey k s.keys)
        ⊎ FromDocument k (remote.exchange s.requests) (record s { requests = suc s.requests }) r.1

  find_cached :
      (kid : Str) (now : ℕ) (s : State) (e : Option RefreshError)
      → is_recent c remote now s ≡ true
      → Served now s (after_refresh c remote kid (e, s))
  find_cached kid now s none r k h = inl (refl, r, find_key-HasKey kid k s.keys _ refl h)
  find_cached kid now s (some e) r k h = cc

  after_refresh-Served :
      (kid : Str) (now : ℕ) (s : State)
      → Served now s (after_refresh c remote kid (refresh c remote now s))
  unfolding refresh
  after_refresh-Served kid now s =
      let P : Option RefreshError × State → Type 0 =
        λ r. Served now s (after_refresh c remote kid r) in
      if-both P (is_recent c remote now s && not (is_empty s.keys)) _ _
        (λ t. find_cached kid now s s.fetch_err (ground arith))
        (λ f k h. inr (
          after_exchange kid (remote.exchange s.requests) (record s { requests = suc s.requests }) k
            h))

  cached_or-Served :
      (kid : Str) (now : ℕ) (s : State) (o : Option PublicKey)
      → lookup kid s.keys ≡ o
      → Served now s (cached_or c remote kid now s o)
  cached_or-Served kid now s none l = after_refresh-Served kid now s
  cached_or-Served kid now s (some i) l =
      if-both (Served now s) (is_recent c remote now s) _ _
        (λ t k h.
          let e : i ≡ k = cc in inl (refl, t, lookup-HasKey kid k s.keys (rw l (ap some e))))
        (λ f. after_refresh-Served kid now s)

  pub key_for_kid-Served :
      (kid : Str) (now : ℕ) (s : State) → Served now s (key_for_kid c remote kid now s)
  unfolding key_for_kid
  key_for_kid-Served kid now s = cached_or-Served kid now s (lookup kid s.keys) refl
