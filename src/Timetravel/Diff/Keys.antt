-- ===== src/Timetravel/Diff/Keys.antt =====
-- The keys that diffMaps visits, and what an empty difference says of each.
use platform_kit.Common.{
  some, List, [], ◌∷◌, ◌++◌, ◌≡◌, refl, sym, ◌∙◌, inl, inr, ◌⊎◌, arith, Str, str_eq, str_eq_iff,
  Bool-cases, Dict, lookup, insert, lookup-insert, In, All, All-In,
}
use platform_kit.Common.Json.{Json}
use platform_kit.Common.Sort.{sort_by, sort_by-In}
use platform_kit.Timetravel.Diff.{Child, add_keys, names, diff_key, diff_keys, diff_maps, join_path}

abbrev Key : Str → Dict (Unit {0}) → Type 0
Key k d = lookup k d ≡ some tt

insert-Key : (k j : Str) (d : Dict (Unit {0})) → Key k d → Key k (insert j tt d)
insert-Key k j d h = rw (lookup-insert j k tt d) (ground arith)

add_keys-Key :
    {V : Type 0} (k : Str) (d : Dict V) (keys : Dict (Unit {0}))
    → Key k keys
    → Key k (add_keys d keys)
add_keys-Key k [] keys h = h
add_keys-Key k ((j, v) ∷ d) keys h = add_keys-Key k d (insert j tt keys) (insert-Key k j keys h)

add_keys_self :
    {V : Type 0} (k : Str) (v : V) (d : Dict V) (keys : Dict (Unit {0}))
    → lookup k d ≡ some v
    → Key k (add_keys d keys)
unfolding lookup
add_keys_self k v [] keys h = cc
add_keys_self k v ((j, w) ∷ d) keys h = elim (Bool-cases (str_eq j k)) [
  | inl t ↦ add_keys-Key k d _ (lookup-insert j k tt keys ∙ rw t refl)
  | inr f ↦ add_keys_self k v d _ (rw f at h)
]

Key-In : (k : Str) (d : Dict (Unit {0})) → Key k d → In k (names d)
unfolding lookup
Key-In k [] h = cc
Key-In k ((j, u) ∷ d) h = elim (Bool-cases (str_eq j k)) [
  | inl t ↦ inl (sym ((str_eq_iff j k).0 t))
  | inr f ↦ inr (Key-In k d (rw f at h))
]

pub append_nil : {A : Type 0} (xs ys : List A) → xs ++ ys ≡ [] → (xs ≡ []) × (ys ≡ [])
append_nil [] ys e = (refl, e)
append_nil (x ∷ xs) ys e = cc

diff_keys-nil :
    (path : Str) (from : Dict Child) (to : Dict Json) (ks : List Str)
    → diff_keys path from to ks ≡ []
    → All (λ k. diff_key (join_path path k) (lookup k from) (lookup k to) ≡ []) ks
diff_keys-nil path from to [] e = tt
diff_keys-nil path from to (k ∷ ks) e =
    let (h, t) = append_nil _ _ e in (h, diff_keys-nil path from to ks t)

-- An empty difference of two maps is empty at every key of either.
pub diff_maps-nil :
    (path : Str) (from : Dict Child) (to : Dict Json)
    → diff_maps path from to ≡ []
    → (k : Str) → ((c : Child) × (lookup k from ≡ some c)) ⊎ ((v : Json) × (lookup k to ≡ some v))
    → diff_key (join_path path k) (lookup k from) (lookup k to) ≡ []
unfolding diff_maps
diff_maps-nil path from to e k h =
    let keys = names (add_keys to (add_keys from [])) in
    let m : In k keys = elim h [
      | inl (c, q) ↦ Key-In k _ (add_keys-Key k to _ (add_keys_self k c from [] q))
      | inr (v, q) ↦ Key-In k _ (add_keys_self k v to _ q)
    ] in
    All-In (λ k. diff_key (join_path path k) (lookup k from) (lookup k to) ≡ [])
      (sort_by (λ k. k) keys) k (diff_keys-nil path from to _ e)
      ((sort_by-In (λ (s : Str). s) k keys).1 m)
