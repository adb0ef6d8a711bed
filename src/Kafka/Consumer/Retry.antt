-- ===== src/Kafka/Consumer/Retry.antt =====
-- The retry loop: when it succeeds, and how often it calls the handler.
use platform_kit.Common.{
  ℕ, zero, suc, ◌+◌, ◌<◌, none, some, ◌≡◌, ◌≢◌, refl, ap, ◌∙◌, ◌⊎◌, inl, inr, arith, Str,
  Option-cases,
}
use platform_kit.Kafka.Envelope.{CloudEvent}
use platform_kit.Kafka.Consumer.{Handler, Failure, handler_failed, retry}

module _ (handler : Handler) (event : CloudEvent) where
  -- Within n calls, after `calls` earlier ones, call number k (from 0) is the first to succeed.
  pub record FirstSuccess (calls n k : ℕ) : Type 0 where
    pub within : k < n
    pub succeeds : handler event (calls + k) ≡ none
    pub earlier_fail : (j : ℕ) → j < k → handler event (calls + j) ≢ none

  -- All n calls fail.
  abbrev pub AllFail : ℕ → ℕ → Type 0
  AllFail calls n = (j : ℕ) → j < n → handler event (calls + j) ≢ none

  FirstSuccess-suc :
      (calls n k : ℕ) (e : Str)
      → handler event calls ≡ some e
      → FirstSuccess (suc calls) n k
      → FirstSuccess calls (suc n) (suc k)
  FirstSuccess-suc calls n k e p h = record {
    within = omega (arith, h.within);
    succeeds = ap (handler event) (omega arith) ∙ h.succeeds;
    earlier_fail = before h.earlier_fail;
  }
    where
      before :
          ((j : ℕ) → j < k → handler event (suc calls + j) ≢ none)
          → (j : ℕ) → j < suc k
          → handler event (calls + j) ≢ none
      before f zero lt q = let z : calls ≡ calls + 0 = omega arith in cc (ap (handler event) z)
      before f (suc j) lt q = f j (omega arith) (ap (handler event) (omega arith) ∙ q)

  AllFail-suc :
      (calls n : ℕ) (e : Str)
      → handler event calls ≡ some e
      → AllFail (suc calls) n
      → AllFail calls (suc n)
  AllFail-suc calls n e p f zero lt q =
      let z : calls ≡ calls + 0 = omega arith in cc (ap (handler event) z)
  AllFail-suc calls n e p f (suc j) lt q = f j (omega arith) (ap (handler event) (omega arith) ∙ q)

  retry-success :
      (n calls : ℕ) (last : Failure)
      → handler event calls ≡ none
      → retry handler event (suc n) calls last ≡ (none, suc calls)
  unfolding retry
  retry-success n calls last p = rw (p, retry) refl

  retry-failure :
      (n calls : ℕ) (last : Failure) (e : Str)
      → handler event calls ≡ some e
      → retry handler event (suc n) calls last
        ≡ retry handler event n (suc calls) (handler_failed e)
  unfolding retry
  retry-failure n calls last e p = rw (p, retry) refl

  retry-zero : (calls : ℕ) (last : Failure) → retry handler event 0 calls last ≡ (some last, calls)
  unfolding retry
  retry-zero calls last = refl

  -- Either some call is the first to succeed, and the loop stops right after it; or all the calls
  -- fail, all of them are made, and the loop reports an error.
  pub retry_cases :
      (n calls : ℕ) (last : Failure)
      → ((k : ℕ) × FirstSuccess calls n k
          × (retry handler event n calls last ≡ (none, calls + k + 1)))
        ⊎ (AllFail calls n
            × ((e : Failure) × (retry handler event n calls last ≡ (some e, calls + n))))
  retry_cases zero calls last = inr (
    (λ j lt. elim lt [ ]),
    (last, retry-zero calls last ∙ ap (λ (m : ℕ). (some last, m)) (omega arith)),
  )
  retry_cases (suc n) calls last = elim (Option-cases (handler event calls)) [
    | inl p ↦ inl (
      0,
      record {
        within = omega arith;
        succeeds = ap (handler event) (omega arith) ∙ p;
        earlier_fail = λ j lt. elim lt [ ];
      },
      retry-success n calls last p ∙ ap (λ (m : ℕ). (none, m)) (omega arith),
    )
    | inr (e, p) ↦ elim (retry_cases n (suc calls) (handler_failed e)) [
      | inl (k, h, q) ↦ inl (
        suc k,
        FirstSuccess-suc calls n k e p h,
        retry-failure n calls last e p ∙ q ∙ ap (λ (m : ℕ). (none, m)) (omega arith),
      )
      | inr (f, (e', q)) ↦ inr (
        AllFail-suc calls n e p f,
        (e', retry-failure n calls last e p ∙ q ∙ ap (λ (m : ℕ). (some e', m)) (omega arith)),
      )
    ]
  ]
