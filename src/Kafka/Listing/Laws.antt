-- ===== src/Kafka/Listing/Laws.antt =====
-- Which letters ListDLQ returns.

use platform_kit.Common.{
  ℕ, zero, suc, Bool, true, false, ◌&&◌, List, [], ◌∷◌, ◌++◌, ◌≡◌, refl, sym, ap, ◌∙◌, map, take,
  length, ltb, is_empty, arith,
}
use platform_kit.Kafka.Envelope.{Codec}
use platform_kit.Kafka.Listing.{
  Letter, DlqEntry, Attempt, letter, timed_out, context_done, entry_of, list_loop, ListConfig,
  listed, list_dlq, max_of,
}

-- The letters before the first read that fails, and whether that one failed because the context was done.
abbrev pub letters : List Attempt → List Letter
letters [] = []
letters (letter m ∷ fs) = m ∷ letters fs
letters (timed_out ∷ fs) = []
letters (context_done ∷ fs) = []

abbrev pub ends_done : List Attempt → Bool
ends_done [] = false
ends_done (letter m ∷ fs) = ends_done fs
ends_done (timed_out ∷ fs) = false
ends_done (context_done ∷ fs) = true

append_assoc : {A : Type 0} (xs ys zs : List A) → (xs ++ ys) ++ zs ≡ xs ++ (ys ++ zs)
append_assoc [] ys zs = refl
append_assoc (x ∷ xs) ys zs = ap (λ t. x ∷ t) (append_assoc xs ys zs)

append_nil : {A : Type 0} (xs : List A) → xs ++ [] ≡ xs
append_nil [] = refl
append_nil (x ∷ xs) = ap (λ t. x ∷ t) (append_nil xs)

both :
    {es es' : List DlqEntry} {b b' : Bool}
    → es ≡ es'
    → b ≡ b'
    → ◌≡◌ {A = List DlqEntry × Bool} (es, b) (es', b')
both p q = cc

list_loop_lem :
    (codec : Codec) (n : ℕ) (fs : List Attempt) (entries : List DlqEntry)
    → list_loop codec n fs entries ≡ (
      entries ++ map (entry_of codec) (take n (letters fs)),
      ltb (length (letters fs)) n && ends_done fs,
    )
unfolding list_loop
list_loop_lem codec zero fs entries = both (sym (append_nil entries)) (ground arith)
list_loop_lem codec (suc n) [] entries = both (sym (append_nil entries)) (ground arith)
list_loop_lem codec (suc n) (letter m ∷ fs) entries =
    let rest = map (entry_of codec) (take n (letters fs)) in
    list_loop_lem codec n fs (entries ++ entry_of codec m ∷ [])
    ∙ both (append_assoc entries (entry_of codec m ∷ []) rest) (ground arith)
list_loop_lem codec (suc n) (timed_out ∷ fs) entries =
    both (sym (append_nil entries)) (ground arith)
list_loop_lem codec (suc n) (context_done ∷ fs) entries =
    both (sym (append_nil entries)) (ground arith)

-- With brokers and a topic, ListDLQ returns the entries of the letters before the first failing read,
-- in order and at most as many as asked for, 100 by default; the context's error comes with them
-- exactly if fewer letters were read and the context was then done.
pub list_dlq_lem :
    (codec : Codec) (c : ListConfig) (fs : List Attempt)
    → is_empty c.brokers ≡ false
    → is_empty c.topic ≡ false
    → list_dlq codec c fs
      ≡ listed
          (map (entry_of codec) (take (max_of c.max_entries) (letters fs)))
          (ltb (length (letters fs)) (max_of c.max_entries) && ends_done fs)
unfolding list_dlq
list_dlq_lem codec c fs b t =
    rw (b, t)
      (ap (λ (x : List DlqEntry × Bool). listed x.0 x.1)
        (list_loop_lem codec (max_of c.max_entries) fs []))
