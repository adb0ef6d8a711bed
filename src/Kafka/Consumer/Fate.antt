-- ===== src/Kafka/Consumer/Fate.antt =====
-- What becomes of a message: what is dead-lettered, and what the health counters say.
use mathlib.Core.List.{append-nil}
use platform_kit.Common.{
  ℕ, Dict, ◌+◌, Option, none, some, List, [], ◌∷◌, ◌++◌, ◌≡◌, refl, sym, ap, ◌∙◌, arith, Str,
  if-both, lookup, lookup-insert_self, ℤ, if◌then◌else◌,
}
use platform_kit.Kafka.Consumer.{
  ConsumerConfig, Failure, Fetched, FailedMessage, TopicHealth, or_fresh, State, commit,
  record_success, record_failure, send_to_dead_letter,
}

abbrev pub ok_of : Option TopicHealth → ℕ
ok_of none = 0
ok_of (some h) = h.messages_ok

abbrev pub failed_of : Option TopicHealth → ℕ
failed_of none = 0
failed_of (some h) = h.messages_failed

module _ (c : ConsumerConfig) (topic : Str) where
  -- How the dead letters and the two counters of the topic have moved from what they were in s.
  pub record Moves (old : List FailedMessage) (health : Dict TopicHealth) (s' : State)
      (dead : List FailedMessage) (ok failed : ℕ) : Type 0 where
    pub letters : s'.dead ≡ (if c.dead_letter then old ++ dead else old)
    pub ok_count : ok_of (lookup topic s'.health) ≡ ok_of (lookup topic health) + ok
    pub failed_count : failed_of (lookup topic s'.health) ≡ failed_of (lookup topic health) + failed

  -- CommitMessages changes neither.
  pub commit-Moves :
      {old : List FailedMessage} {health : Dict TopicHealth} {s' : State}
      {dead : List FailedMessage} {ok failed : ℕ} (m : Fetched)
      → Moves old health s' dead ok failed
      → Moves old health (commit m s') dead ok failed
  commit-Moves m h = record {
    letters = h.letters;
    ok_count = h.ok_count;
    failed_count = h.failed_count;
  }

  abbrev pub letter : Fetched → Str → ℤ → Failure → FailedMessage
  letter m event_type retries e = record {
    original = m;
    event_type = event_type;
    retry_count = retries;
    last_error = e;
  }

  ok_of-or_fresh : (o : Option TopicHealth) → (or_fresh topic c.group_id o).messages_ok ≡ ok_of o
  ok_of-or_fresh none = refl
  ok_of-or_fresh (some h) = refl

  failed_of-or_fresh :
      (o : Option TopicHealth) → (or_fresh topic c.group_id o).messages_failed ≡ failed_of o
  failed_of-or_fresh none = refl
  failed_of-or_fresh (some h) = refl

  pub same_letters : (l : List FailedMessage) → l ≡ (if c.dead_letter then l ++ [] else l)
  same_letters l =
      if-both (λ x. l ≡ x) c.dead_letter (l ++ []) l (λ _. sym (append-nil l)) (λ _. refl)

  pub success-Moves :
      (t : Str) (offset now : ℕ) (s : State)
      → Moves s.dead s.health (record_success c topic t offset now s) [] 1 0
  unfolding record_success
  success-Moves t offset now s = record {
    letters = same_letters s.dead;
    ok_count =
        rw (lookup-insert_self topic)
          (ap (λ (n : ℕ). n + 1) (ok_of-or_fresh (lookup topic s.health)));
    failed_count =
        rw (lookup-insert_self topic) (failed_of-or_fresh (lookup topic s.health) ∙ omega arith);
  }

  pub dead-health :
      (m : Fetched) (t : Str) (n : ℤ) (e : Failure) (s : State)
      → (send_to_dead_letter c topic m t n e s).health ≡ s.health
  unfolding send_to_dead_letter
  dead-health m t n e s = ground arith

  dead-letters :
      (m : Fetched) (t : Str) (n : ℤ) (e : Failure) (s : State)
      → (send_to_dead_letter c topic m t n e s).dead
        ≡ (if c.dead_letter then s.dead ++ letter m t n e ∷ [] else s.dead)
  unfolding send_to_dead_letter
  dead-letters m t n e s = ground arith

  pub letter-Moves :
      (m : Fetched) (t : Str) (n : ℤ) (e : Failure) (s : State)
      → Moves s.dead s.health (send_to_dead_letter c topic m t n e s) (letter m t n e ∷ []) 0 0
  letter-Moves m t n e s = record {
    letters = dead-letters m t n e s;
    ok_count = ap (λ h. ok_of (lookup topic h)) (dead-health m t n e s) ∙ omega arith;
    failed_count = ap (λ h. failed_of (lookup topic h)) (dead-health m t n e s) ∙ omega arith;
  }

  pub failure-Moves :
      (m : Fetched) (t : Str) (n : ℤ) (e : Failure) (now : ℕ) (s : State)
      → Moves s.dead s.health
          (record_failure c topic t m.offset now (send_to_dead_letter c topic m t n e s))
          (letter m t n e ∷ [])
          0
          1
  unfolding record_failure
  failure-Moves m t n e now s =
      let s' = send_to_dead_letter c topic m t n e s in
      record {
        letters = dead-letters m t n e s;
        ok_count =
            rw (lookup-insert_self topic)
              (ok_of-or_fresh (lookup topic s'.health) ∙ (letter-Moves m t n e s).ok_count);
        failed_count = rw (lookup-insert_self topic) (
            ap (λ (k : ℕ). k + 1)
              (failed_of-or_fresh (lookup topic s'.health)
                ∙ ap (λ h. failed_of (lookup topic h)) (dead-health m t n e s)));
      }
