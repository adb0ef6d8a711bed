-- ===== src/Kafka/Registry/Cache.antt =====
-- The schema cache changes no answer, and what the payload checks accept.
use platform_kit.Common.{
  Option, none, some, List, [], ◌∷◌, ◌≡◌, refl, ap, sym, subst, ◌∙◌, inl, inr, ◌↔◌, arith, Str,
  str_eq, str_eq_iff, lookup, insert, All, Bool-cases, some-inj,
}
use platform_kit.Common.Json.{obj, Fields}
use platform_kit.Kafka.Schema.{Node, Problem}
use platform_kit.Kafka.Schema.Conforms.{Conforms}
use platform_kit.Kafka.Schema.Laws.{validate_node_iff}
use platform_kit.Kafka.Registry.{
  RegisteredEvent, Registry, lookup_event, CompiledSchema, SchemaCache, compile_schema,
  compile_from, parse_and_store, validate_raw_entry, report, check_root, validate_raw_payload,
}

module _ (parse_schema : Str → Option Node) where
  -- Every entry holds what its own text parses to.
  abbrev pub IsCoherent : SchemaCache → Type 0
  IsCoherent cache = All (λ p. parse_schema p.1.src ≡ some p.1.root) cache

  lookup-IsCoherent :
      (cache : SchemaCache) (k : Str) (cs : CompiledSchema)
      → IsCoherent cache
      → lookup k cache ≡ some cs
      → parse_schema cs.src ≡ some cs.root
  unfolding lookup
  lookup-IsCoherent [] k cs h e = cc
  lookup-IsCoherent ((j, c) ∷ cache) k cs (h, hs) e = elim (Bool-cases (str_eq j k)) [
    | inl t ↦ let q : c ≡ cs = ground arith in rw (← q) h
    | inr f ↦ lookup-IsCoherent cache k cs hs (rw f at e)
  ]

  insert-IsCoherent :
      (cache : SchemaCache) (k : Str) (cs : CompiledSchema)
      → parse_schema cs.src ≡ some cs.root
      → IsCoherent cache
      → IsCoherent (insert k cs cache)
  unfolding insert
  insert-IsCoherent [] k cs p h = (p, tt)
  insert-IsCoherent ((j, c) ∷ cache) k cs p (h, hs) = elim (Bool-cases (str_eq j k)) [
    | inl t ↦ rw t (p, hs)
    | inr f ↦ rw f (h, insert-IsCoherent cache k cs p hs)
  ]

  store-IsCoherent :
      (cache : SchemaCache) (k src : Str) (o : Option Node)
      → parse_schema src ≡ o
      → IsCoherent cache
      → IsCoherent (parse_and_store parse_schema k src o cache).1
  store-IsCoherent cache k src none e h = h
  store-IsCoherent cache k src (some root) e h =
      insert-IsCoherent cache k (record { src = src; root = root }) e h

  store_result :
      (cache : SchemaCache) (k src : Str) (o : Option Node)
      → (parse_and_store parse_schema k src o cache).0 ≡ o
  store_result cache k src none = refl
  store_result cache k src (some root) = refl

  compile_from_lem :
      (k src : Str) (cache : SchemaCache) (o : Option CompiledSchema)
      → lookup k cache ≡ o
      → IsCoherent cache
      → ((compile_from parse_schema k src cache o).0 ≡ parse_schema src)
        × IsCoherent (compile_from parse_schema k src cache o).1
  compile_from_lem k src cache none e h =
      (store_result cache k src _, store-IsCoherent cache k src _ refl h)
  compile_from_lem k src cache (some cs) e h = elim (Bool-cases (str_eq cs.src src)) [
    | inl t ↦
        let q = sym (lookup-IsCoherent cache k cs h e) ∙ ap parse_schema ((str_eq_iff _ _).0 t) in
        rw t (q, h)
    | inr f ↦ rw f (store_result cache k src _, store-IsCoherent cache k src _ refl h)
  ]

  -- With a coherent cache, compileSchema returns what parsing the text anew returns, and leaves a
  -- coherent cache.
  pub compile_schema_lem :
      (k src : Str) (cache : SchemaCache)
      → IsCoherent cache
      → ((compile_schema parse_schema k src cache).0 ≡ parse_schema src)
        × IsCoherent (compile_schema parse_schema k src cache).1
  unfolding compile_schema
  compile_schema_lem k src cache h = compile_from_lem k src cache _ refl h

  -- The event is registered, its schema parses, and the payload conforms to it.
  abbrev pub Accepts : Registry → Str → Fields → Type 0
  Accepts r event_type payload =
      (e : RegisteredEvent) × (n : Node) × (lookup_event r event_type ≡ some e)
      × (parse_schema e.schema ≡ some n)
      × Conforms n (obj payload)

  report-nil : (k : Str) (ps : List Problem) → (report k ps ≡ none) ↔ (ps ≡ [])
  report-nil k [] = (λ h. refl, λ h. refl)
  report-nil k (p ∷ ps) = (λ h. cc, λ h. absurd (ground arith))

  check_root_iff :
      (k : Str) (payload : Fields) (o : Option Node)
      → (check_root parse_schema k payload o ≡ none)
        ↔ ((n : Node) × (o ≡ some n) × Conforms n (obj payload))
  check_root_iff k payload none = (λ h. absurd (ground arith), λ (n, e, c). absurd (ground arith))
  check_root_iff k payload (some root) = (
    λ h. (root, refl, (validate_node_iff root (obj payload) []).0 ((report-nil k _).0 h)),
    λ (n, e, c). (report-nil k _).1 (
        (validate_node_iff root (obj payload) []).1
          (subst (λ m. Conforms m (obj payload)) (sym (some-inj e)) c)),
  )

  raw_entry_iff :
      (k : Str) (payload : Fields) (cache : SchemaCache) (o : Option RegisteredEvent)
      → IsCoherent cache
      → ((validate_raw_entry parse_schema k payload cache o).0 ≡ none) ↔ (
          (e : RegisteredEvent) × (n : Node) × (o ≡ some e)
          × (parse_schema e.schema ≡ some n)
          × Conforms n (obj payload))
  raw_entry_iff k payload cache none h =
      (λ e. absurd (ground arith), λ (e, n, p, q, c). absurd (ground arith))
  raw_entry_iff k payload cache (some entry) h =
      let same = (compile_schema_lem k entry.schema cache h).0 in
      let (to, from) =
        check_root_iff k payload (compile_schema parse_schema k entry.schema cache).0 in
      (
        λ p. let (n, q, c) = to p in (entry, n, refl, sym same ∙ q, c),
        λ (e, n, p, q, c).
            from
              (n, same ∙ ap (λ (x : RegisteredEvent). parse_schema x.schema) (some-inj p) ∙ q, c),
      )

  -- With a coherent cache, ValidateRawPayload returns nil exactly if the event is registered, its
  -- schema parses and the payload conforms to it; the cache stays coherent. As in validateNode, fields that
  -- additionalProperties forbids conform, and so does a value that is not a string and not in the enum.
  pub validate_raw_payload_iff :
      (r : Registry) (event_type : Str) (payload : Fields) (cache : SchemaCache)
      → IsCoherent cache
      → (((validate_raw_payload parse_schema r event_type payload cache).0 ≡ none)
          ↔ Accepts r event_type payload)
        × IsCoherent (validate_raw_payload parse_schema r event_type payload cache).1
  unfolding validate_raw_payload
  validate_raw_payload_iff r k payload cache h =
      (raw_entry_iff k payload cache (lookup_event r k) h, keeps (lookup_event r k))
    where
      keeps :
          (o : Option RegisteredEvent)
          → IsCoherent (validate_raw_entry parse_schema k payload cache o).1
      keeps none = h
      keeps (some e) = (compile_schema_lem k e.schema cache h).1
