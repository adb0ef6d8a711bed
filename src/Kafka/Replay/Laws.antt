-- ===== src/Kafka/Replay/Laws.antt =====
-- What a replay run accounts for.
use platform_kit.Common.{
  ℕ, ◌+◌, Bool, true, ◌&&◌, Option, none, some, List, [], ◌∷◌, ◌++◌, ◌≡◌, refl, arith, length,
  length-append, All, Str, is_empty, if-both, any, any-In, In, In-any, str_eq, str_eq_iff, subst,
  ◌↔◌, ◌⊎◌, inl, inr, ◌||◌,
}
use platform_kit.Kafka.Envelope.{CloudEvent, Codec}
use platform_kit.Kafka.Replay.{
  ReplayConfig, ReplayStats, Read, Round, done, message, cancelled, broken, Seek, Ending,
  end_reached, handler_failed, Run, run_of, wanted, past_end, replay_loop, replay, after_handler,
  dispatch, start, count, brokers_required, topic_required, handler_required, seek_failed,
  context_done, stopped, read_failed, running, seek_of, no_stats,
}

-- One message more is read than delivered or skipped when it ended the run.
abbrev pub undecided : Ending → ℕ
undecided end_reached = 1
undecided (handler_failed offset e) = 1
undecided brokers_required = 0
undecided topic_required = 0
undecided handler_required = 0
undecided (seek_failed s) = 0
undecided context_done = 0
undecided stopped = 0
undecided (read_failed e) = 0
undecided running = 0

abbrev pub failed_calls : Ending → ℕ
failed_calls end_reached = 0
failed_calls (handler_failed offset e) = 1
failed_calls brokers_required = 0
failed_calls topic_required = 0
failed_calls handler_required = 0
failed_calls (seek_failed s) = 0
failed_calls context_done = 0
failed_calls stopped = 0
failed_calls (read_failed e) = 0
failed_calls running = 0

module _ (codec : Codec) (equal_fold : Str → Str → Bool) (c : ReplayConfig) where
  -- The filters: the type is one of those listed, if any are, and the resource id of the event's data is
  -- the configured one, if there is one, by strings.EqualFold.
  pub record Wanted (e : CloudEvent) : Type 0 where
    pub type_listed : (c.event_types ≡ []) ⊎ In e.type c.event_types
    pub of_resource :
        (c.resource_id ≡ [])
        ⊎ (equal_fold (codec.unmarshal_data e.payload).0.resource_id c.resource_id ≡ true)

  type_filter :
      (t : Str) (ts : List Str)
      → (is_empty ts || any (λ u. str_eq u t) ts ≡ true) ↔ ((ts ≡ []) ⊎ In t ts)
  type_filter t [] = (λ h. inl refl, λ h. refl)
  type_filter t (u ∷ us) = (
    λ h.
        let (v, m, e) = any-In (λ x. str_eq x t) (u ∷ us) h in
        inr (subst (λ x. In x (u ∷ us)) ((str_eq_iff v t).0 e) m),
    λ h. elim h [
      | inl e ↦ cc
      | inr m ↦ In-any (λ x. str_eq x t) (u ∷ us) t m ((str_eq_iff t t).1 refl)
    ],
  )

  resource_filter : (r : Str) (b : Bool) → (is_empty r || b ≡ true) ↔ ((r ≡ []) ⊎ (b ≡ true))
  resource_filter [] b = (λ h. inl refl, λ h. refl)
  resource_filter (x ∷ r) b = (λ h. inr h, λ h. elim h [ inl e ↦ cc | inr i ↦ i ])

  -- Replay skips no event but by its filters.
  pub wanted_iff : (e : CloudEvent) → (wanted codec equal_fold c e ≡ true) ↔ Wanted e
  unfolding wanted
  wanted_iff e =
      let (types_to, types_from) = type_filter e.type c.event_types in
      let (resource_to, resource_from) = resource_filter c.resource_id _ in
      (
        λ h. record {
          type_listed = types_to (ground arith);
          of_resource = resource_to (ground arith);
        },
        λ w. rw (types_from w.type_listed, resource_from w.of_resource) refl,
      )

  pub record Accounted (r : Run) : Type 0 where
    pub read_sum : r.stats.read ≡ r.stats.delivered + r.stats.skipped + undecided r.ending
    pub handler_calls : length r.handled ≡ r.stats.delivered + failed_calls r.ending
    pub only_wanted : All Wanted r.handled

  -- The statistics balance between two rounds.
  record Balanced (s : ReplayStats) (handled : List CloudEvent) : Type 0 where
    pub read_sum : s.read ≡ s.delivered + s.skipped
    pub handler_calls : length handled ≡ s.delivered
    pub only_wanted : All Wanted handled

  All-snoc :
      (xs : List CloudEvent) (e : CloudEvent) → All Wanted xs → Wanted e → All Wanted (xs ++ e ∷ [])
  All-snoc [] e h w = (w, tt)
  All-snoc (x ∷ xs) e (h, hs) w = (h, All-snoc xs e hs w)

  module _ (handler : CloudEvent → Option Str) where
    after_handler-Accounted :
        (m : Read) (s : ReplayStats) (handled : List CloudEvent) (event : CloudEvent)
        (o : Option Str) (continue : ReplayStats → List CloudEvent → Run)
        → Balanced s handled
        → Wanted event
        → ((t : ReplayStats) (h : List CloudEvent) → Balanced t h → Accounted (continue t h))
        → Accounted (
            after_handler codec equal_fold c handler m
              (count m s)
              (handled ++ event ∷ [])
              o
              continue)
    after_handler-Accounted m s handled event none continue b w k = k _ _ (record {
      read_sum = omega (arith, b.read_sum);
      handler_calls = omega (arith, b.handler_calls, length-append handled (event ∷ []));
      only_wanted = All-snoc handled event b.only_wanted w;
    })
    after_handler-Accounted m s handled event (some e) continue b w k = record {
      read_sum = omega (arith, b.read_sum);
      handler_calls = omega (arith, b.handler_calls, length-append handled (event ∷ []));
      only_wanted = All-snoc handled event b.only_wanted w;
    }

    dispatch-Accounted :
        (m : Read) (s : ReplayStats) (handled : List CloudEvent)
        (continue : ReplayStats → List CloudEvent → Run)
        → Balanced s handled
        → ((t : ReplayStats) (h : List CloudEvent) → Balanced t h → Accounted (continue t h))
        → Accounted (dispatch codec equal_fold c handler m (count m s) handled continue)
    dispatch-Accounted m s handled continue b k =
        let (event, ok) = codec.unmarshal_event m.value in
        if-both Accounted (ok && wanted codec equal_fold c event) _ _
          (λ t.
            after_handler-Accounted m s handled event (handler event) continue b
              ((wanted_iff event).0 (ground arith)) k)
          (λ f. k _ _ (record {
            read_sum = omega (arith, b.read_sum);
            handler_calls = b.handler_calls;
            only_wanted = b.only_wanted;
          }))

    between :
        (s : ReplayStats) (handled : List CloudEvent) (e : Ending)
        → Balanced s handled
        → undecided e ≡ 0
        → failed_calls e ≡ 0
        → Accounted (run_of s handled e)
    between s handled e b u f = record {
      read_sum = omega (arith, b.read_sum, u);
      handler_calls = omega (arith, b.handler_calls, f);
      only_wanted = b.only_wanted;
    }

    replay_loop-Accounted :
        (rs : List Round) (s : ReplayStats) (handled : List CloudEvent)
        → Balanced s handled
        → Accounted (replay_loop codec equal_fold c handler rs s handled)
    unfolding replay_loop
    replay_loop-Accounted [] s handled b = between s handled running b refl refl
    replay_loop-Accounted (done ∷ rs) s handled b = between s handled context_done b refl refl
    replay_loop-Accounted (cancelled ∷ rs) s handled b = between s handled stopped b refl refl
    replay_loop-Accounted (broken e ∷ rs) s handled b =
        between s handled (read_failed e) b refl refl
    replay_loop-Accounted (message m ∷ rs) s handled b =
        if-both Accounted (past_end c m) _ _
          (λ t. record {
            read_sum = omega (arith, b.read_sum);
            handler_calls = omega (arith, b.handler_calls);
            only_wanted = b.only_wanted;
          })
          (λ f. dispatch-Accounted m s handled _ b (λ u h b'. replay_loop-Accounted rs u h b'))

  nothing_read :
      (e : Ending) → undecided e ≡ 0 → failed_calls e ≡ 0 → Accounted (run_of no_stats [] e)
  nothing_read e u f = record {
    read_sum = omega (arith, u);
    handler_calls = omega (arith, f);
    only_wanted = tt;
  }

  start-Accounted :
      (seek : Seek → Bool) (rounds : List Round) (h : Option (CloudEvent → Option Str))
      → Accounted (start codec equal_fold c seek rounds h)
  start-Accounted seek rounds none = nothing_read handler_required refl refl
  start-Accounted seek rounds (some handler) =
      if-both Accounted (seek (seek_of c)) _ _
        (λ t.
          replay_loop-Accounted handler rounds no_stats []
            (record { read_sum = refl; handler_calls = refl; only_wanted = tt }))
        (λ f. nothing_read (seek_failed (seek_of c)) refl refl)

  -- However the reads turn out, every message that Replay read was delivered or skipped, but for one
  -- that reached the end bound or failed in the handler; the handler is called once for each
  -- delivered message and once more if it failed, and only for events that pass both filters: the type is
  -- listed, or no types are, and the resource id equals the configured one but for the case of letters
  -- (strings.EqualFold, a parameter), or none is configured.
  pub replay-Accounted :
      (seek : Seek → Bool) (rounds : List Round) → Accounted (replay codec equal_fold c seek rounds)
  unfolding replay
  replay-Accounted seek rounds =
      if-both Accounted (is_empty c.brokers) _ _ (λ t. nothing_read brokers_required refl refl)
        (λ f.
          if-both Accounted (is_empty c.topic) _ _ (λ t. nothing_read topic_required refl refl)
            (λ g. start-Accounted seek rounds c.handler))
