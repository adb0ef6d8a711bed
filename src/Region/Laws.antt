-- ===== src/Region/Laws.antt =====
-- Lookups after Add, and the targets that a policy allows.
use platform_kit.Common.{
  true, false, ◌&&◌, ◌||◌, Option, none, some, List, ◌≡◌, ◌↔◌, ◌⊎◌, refl, ap, ◌∙◌, subst, inl, inr,
  if◌then◌else◌, Bool-cases, Str, str_eq, str_eq_iff, Dict, lookup, insert, lookup-insert,
  lookup-insert_hit, lookup-insert_miss, str_eq_refl, In, any, any-In, In-any, if-both,
}
use platform_kit.Region.{
  Table, services, add, resolve, resolve_in, ReplicationPolicy, allowed, allows_region, isolated,
  best_effort, strict_mirror, not_a_peer,
}

resolve_services :
    (service : Str) (o : Option (Dict Str)) → lookup service (services o) ≡ resolve_in service o
unfolding lookup
resolve_services service none = refl
resolve_services service (some d) = refl

-- After Add, Resolve finds the new URL for that region and service, and for every other pair what it
-- found before.
pub resolve-add :
    (region service url region' service' : Str) (tbl : Table)
    → resolve region' service' (add region service url tbl) ≡ (
        if str_eq region region' && str_eq service service'
        then some url
        else resolve region' service' tbl)
unfolding resolve add
resolve-add region service url region' service' tbl =
    let inner = insert service url (services (lookup region tbl)) in
    elim (Bool-cases (str_eq region region')) [
      | inr f ↦ rw (f, lookup-insert_miss region region' inner tbl f) refl
      | inl t ↦
          let e = (str_eq_iff region region').0 t in
          let found = lookup-insert service service' url (services (lookup region tbl)) in
          let old : lookup service' (services (lookup region tbl))
              ≡ resolve_in service' (lookup region' tbl) =
            resolve_services service' (lookup region tbl)
            ∙ ap (λ r. resolve_in service' (lookup r tbl)) e in
          rw (t, lookup-insert_hit region region' inner tbl t, found, old) refl
    ]

-- The home region, or a peer region under one of the two modes that replicate.
abbrev pub Replicates : ReplicationPolicy → Str → Type 0
Replicates p target =
    (target ≡ p.home_region)
    ⊎ (((p.mode ≡ best_effort) ⊎ (p.mode ≡ strict_mirror)) × In target p.peer_regions)

abbrev pub MayGo : Option ReplicationPolicy → Str → Type 0
MayGo none target = ⊥
MayGo (some p) target = Replicates p target

peer_In :
    (target : Str) (peers : List Str)
    → any (λ peer. str_eq peer target) peers ≡ true
    → In target peers
peer_In target peers h =
    let (p, m, e) = any-In (λ peer. str_eq peer target) peers h in
    subst (λ q. In q peers) ((str_eq_iff p target).0 e) m

peers :
    (p : ReplicationPolicy) (target : Str)
    → (if any (λ peer. str_eq peer target) p.peer_regions then allowed else not_a_peer) ≡ allowed
    → In target p.peer_regions
peers p target e = elim (Bool-cases (any (λ peer. str_eq peer target) p.peer_regions)) [
  | inl t ↦ peer_In target p.peer_regions t
  | inr f ↦ let no = rw f at e in cc
]

allowed-Replicates :
    (p : ReplicationPolicy) (target : Str)
    → allows_region (some p) target ≡ allowed
    → Replicates p target
unfolding allows_region
allowed-Replicates p target e = elim (Bool-cases (str_eq target p.home_region)) [
  | inl t ↦ inl ((str_eq_iff target p.home_region).0 t)
  | inr f ↦ elim (Bool-cases (str_eq p.mode isolated)) [
    | inl i ↦ let no = rw (f, i) at e in cc
    | inr i ↦ elim (Bool-cases (str_eq p.mode best_effort)) [
      | inl m ↦ inr (inl ((str_eq_iff p.mode best_effort).0 m), peers p target (rw (f, i, m) at e))
      | inr m ↦ elim (Bool-cases (str_eq p.mode strict_mirror)) [
        | inl n ↦
            inr (inr ((str_eq_iff p.mode strict_mirror).0 n), peers p target (rw (f, i, m, n) at e))
        | inr n ↦ let no = rw (f, i, m, n) at e in cc
      ]
    ]
  ]
]

Replicates-allowed :
    (p : ReplicationPolicy) (target : Str)
    → Replicates p target
    → allows_region (some p) target ≡ allowed
unfolding allows_region str_eq
Replicates-allowed p target (inl e) = let t = (str_eq_iff target p.home_region).1 e in rw t refl
Replicates-allowed p target (inr (modes, m)) =
    let a : any (λ peer. str_eq peer target) p.peer_regions ≡ true =
      In-any (λ peer. str_eq peer target) p.peer_regions target m (str_eq_refl target) in
    let i : str_eq p.mode isolated ≡ false = elim modes [ inl q ↦ rw q refl | inr q ↦ rw q refl ] in
    let b : (str_eq p.mode best_effort || str_eq p.mode strict_mirror) ≡ true = elim modes [
      | inl q ↦ rw q refl
      | inr q ↦ rw q refl
    ] in
    if-both (λ x. x ≡ allowed) (str_eq target p.home_region) _ _ (λ t. refl)
      (λ f. rw (i, b, a) refl)

-- AllowsRegion returns nil exactly if there is a policy and the target is its home region, or a peer
-- region with mode best_effort or strict_mirror.
pub allows_region_iff :
    (policy : Option ReplicationPolicy) (target : Str)
    → (allows_region policy target ≡ allowed) ↔ MayGo policy target
unfolding allows_region str_eq
allows_region_iff none target = (λ e. cc, λ m. elim m [ ])
allows_region_iff (some p) target = (allowed-Replicates p target, Replicates-allowed p target)
