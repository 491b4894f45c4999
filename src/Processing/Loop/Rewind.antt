-- ===== src/Processing/Loop/Rewind.antt =====
-- process_events_until with handlers that ask for a rewind, as those of the channels and of most
-- nodes do.
use event_sequence_transform.Prelude.{
  ℕ, zero, suc, ◌+◌, ◌<◌, ◌≡◌, Bool, true, false, Option, some, [], ◌∷◌, ◌&&◌, refl, sym, ap, ◌∙◌,
  arith, length, ◌⊎◌, inl, inr, Bool-cases, Option-cases,
}
use event_sequence_transform.Prelude.Int.{ℤ, ltb_ℤ}
use event_sequence_transform.Time.{AbsoluteTime}
use event_sequence_transform.Time.Order.{later}
use event_sequence_transform.Event.{EventNode, Position}
use event_sequence_transform.Event.Store.{Events}
use event_sequence_transform.Processing.Loop.{
  int32_min, priority_of, Pass, noted, run_pass, run_passes, first_pass, process_events_until,
}
use event_sequence_transform.Processing.Loop.Priorities.{
  HasPriority, count_below, count_below-le_length, count_below_decreases,
}
use event_sequence_transform.Processing.Loop.Steps.{processed, run_passes-low, run_passes-next}

abbrev pub IsIn : EventNode → Events → Type 0
IsIn e [] = ⊥
IsIn e (f ∷ es) = (f ≡ e) ⊎ IsIn e es

module _ {ℓ} {W : Type ℓ} (events : W → Events) (ready : W → Position → Bool)
    (handle : Position → ℕ → W → Bool × W) (max_time : AbsoluteTime) where
  -- A pass, or all of them, without a call.
  record Quiet (pass : ℤ) (es : Events) (st : Pass W) (r : Option (Pass W)) : Type ℓ where
    next : ℤ
    future : Bool
    result : r ≡ some (record st { next_priority = next; has_future_events = future })
    origin : (next ≡ st.next_priority) ⊎ ((ltb_ℤ next pass ≡ true) × HasPriority next es)

  -- One call, of an event that is in the list, at a position that is ready, and not too late.
  record OneCall (es : Events) (w : W) (r : Option (Pass W)) : Type ℓ where
    event : EventNode
    place : Position
    future : Bool
    is_in : IsIn event es
    at_place : event.position ≡ some place
    is_ready : ready w place ≡ true
    is_due : later event.event_data.time max_time ≡ false
    result :
        r
        ≡ some (record {
          next_priority = int32_min;
          stable = false;
          has_future_events = future;
          world = (handle place event.id w).1;
        })

  Outcome : ℤ → Events → Pass W → Option (Pass W) → Type ℓ
  Outcome pass es st r = Quiet pass es st r ⊎ OneCall es st.world r

  -- An event that the pass goes by.
  go_by :
      (pass : ℤ) (e : EventNode) (es : Events) (st : Pass W) (next : ℤ) (r : Option (Pass W))
      → (next ≡ st.next_priority) ⊎ ((ltb_ℤ next pass ≡ true) × (priority_of e ≡ next))
      → Outcome pass es (record st { next_priority = next }) r
      → Outcome pass (e ∷ es) st r
  unfolding Outcome
  go_by pass e es st next r from (inr c) = inr (record {
    event = c.event;
    place = c.place;
    future = c.future;
    is_in = inr c.is_in;
    at_place = c.at_place;
    is_ready = c.is_ready;
    is_due = c.is_due;
    result = c.result;
  })
  go_by pass e es st next r from (inl q) = inl (record {
    next = q.next;
    future = q.future;
    result = q.result;
    origin = elim q.origin [
      | inl kept ↦ elim from [
        | inl same ↦ inl (kept ∙ same)
        | inr (below, here) ↦ inr (rw kept below, inl (here ∙ sym kept))
      ]
      | inr (below, k) ↦ inr (below, inr k)
    ];
  })

  noted_origin :
      (pass : ℤ) (e : EventNode) (next : ℤ)
      → (noted events ready handle max_time pass e next ≡ next)
        ⊎ ((ltb_ℤ (noted events ready handle max_time pass e next) pass ≡ true)
            × (priority_of e ≡ noted events ready handle max_time pass e next))
  noted_origin pass e next =
      elim (Bool-cases (ltb_ℤ (priority_of e) pass && ltb_ℤ next (priority_of e))) [
        | inl taken ↦ inr (rw taken (ground arith), rw taken refl)
        | inr left ↦ inl (rw left refl)
      ]

  -- A call that `process_events_until` may make in a state.
  pub record Call (w : W) : Type ℓ where
    pub event : EventNode
    pub place : Position
    pub is_in : IsIn event (events w)
    pub at_place : event.position ≡ some place
    pub is_ready : ready w place ≡ true
    pub is_due : later event.event_data.time max_time ≡ false

  module _ (rewinds : (p : Position) (i : ℕ) (w : W) → (handle p i w).0 ≡ true) where
    run_pass-Outcome :
        (fuel : ℕ) (pass : ℤ) (es : Events) (st : Pass W)
        → length es < fuel
        → Outcome pass es st (run_pass events ready handle max_time fuel pass es st)
    unfolding Outcome run_pass
    run_pass-Outcome zero pass es st enough = absurd (omega arith)
    run_pass-Outcome (suc fuel) pass [] st enough = inl (record {
      next = st.next_priority;
      future = st.has_future_events;
      result = refl;
      origin = inl refl;
    })
    run_pass-Outcome (suc fuel) pass (e ∷ es) st enough =
        let step =
          λ (next : ℤ)
              (from : (next ≡ st.next_priority)
                ⊎ ((ltb_ℤ next pass ≡ true) × (priority_of e ≡ next))).
            go_by pass e es st next _ from
              (run_pass-Outcome fuel pass es (record st { next_priority = next }) (omega arith)) in
        let go = run_pass events ready handle max_time in
        let next = noted events ready handle max_time pass e st.next_priority in
        let passed_by : Type ℓ =
          go (suc fuel) pass (e ∷ es) st ≡ go fuel pass es (record st { next_priority = next }) in
        let from = noted_origin pass e st.next_priority in
        elim (Bool-cases (ltb_ℤ pass (priority_of e))) [
          | inl above ↦ rw (above, run_pass) (step st.next_priority (inl refl))
          | inr level ↦ elim (Option-cases e.position) [
            | inl nowhere ↦
                let eq : passed_by = rw (level, nowhere, run_pass) refl in rw eq (step next from)
            | inr (place, at_place) ↦ elim (Bool-cases (ready st.world place)) [
              | inr waits ↦
                  let eq : passed_by = rw (level, at_place, waits, run_pass) refl in
                  rw eq (step next from)
              | inl is_ready ↦ elim (Bool-cases (later e.event_data.time max_time)) [
                | inl late ↦ inl (record {
                  next = next;
                  future = true;
                  result = rw (level, at_place, is_ready, late, run_pass) refl;
                  origin = elim from [
                    | inl same ↦ inl same
                    | inr (below, here) ↦ inr (below, inl here)
                  ];
                })
                | inr is_due ↦ inr (record {
                  event = e;
                  place = place;
                  future = st.has_future_events;
                  is_in = inl refl;
                  at_place = at_place;
                  is_ready = is_ready;
                  is_due = is_due;
                  result =
                      rw (level, at_place, is_ready, is_due, rewinds place e.id st.world, run_pass)
                        refl;
                })
              ]
            ]
          ]
        ]

    -- All passes without a call.
    record Silent (st : Pass W) (r : Option (Pass W)) : Type ℓ where
      next : ℤ
      future : Bool
      result : r ≡ some (record st { next_priority = next; has_future_events = future })

    -- The same call, seen from a state before the passes that did nothing.
    earlier :
        (es : Events) (w : W) (r r' : Option (Pass W)) → r ≡ r' → OneCall es w r' → OneCall es w r
    earlier es w r r' eq c = record {
      event = c.event;
      place = c.place;
      future = c.future;
      is_in = c.is_in;
      at_place = c.at_place;
      is_ready = c.is_ready;
      is_due = c.is_due;
      result = eq ∙ c.result;
    }

    run_passes-Outcome :
        (rounds fuel : ℕ) (st : Pass W)
        → length (events st.world) < rounds
        → count_below st.next_priority (events st.world) + 1 < fuel
        → Silent st (run_passes events ready handle max_time rounds fuel st)
          ⊎ OneCall
              (events st.world)
              st.world
              (run_passes events ready handle max_time rounds fuel st)
    unfolding Outcome
    run_passes-Outcome rounds zero st long enough = absurd (omega arith)
    run_passes-Outcome rounds (suc fuel) st long enough =
        let es = events st.world in
        elim (Bool-cases (ltb_ℤ int32_min st.next_priority)) [
          | inr low ↦ inl (record {
            next = st.next_priority;
            future = st.has_future_events;
            result =
                run_passes-low events ready handle max_time rounds (suc fuel) st low (omega arith);
          })
          | inl high ↦
              elim (run_pass-Outcome rounds st.next_priority es
                (record st { next_priority = int32_min }) long) [
                  | inr c ↦ inr (record {
                    event = c.event;
                    place = c.place;
                    future = c.future;
                    is_in = c.is_in;
                    at_place = c.at_place;
                    is_ready = c.is_ready;
                    is_due = c.is_due;
                    result =
                        run_passes-next events ready handle max_time rounds fuel st _ high c.result
                        ∙ run_passes-low events ready handle max_time rounds fuel _ refl
                            (omega arith);
                  })
                  | inl q ↦
                      let st' : Pass W = record st {
                        next_priority = q.next;
                        has_future_events = q.future;
                      } in
                      let eq =
                        run_passes-next events ready handle max_time rounds fuel st st' high
                          q.result in
                      elim q.origin [
                        | inl lowest ↦
                            let low : ltb_ℤ int32_min q.next ≡ false =
                              ap (λ p. ltb_ℤ int32_min p) lowest in
                            inl (record {
                              next = q.next;
                              future = q.future;
                              result =
                                  eq
                                  ∙ run_passes-low events ready handle max_time rounds fuel st' low
                                      (omega arith);
                            })
                        | inr (below, there) ↦
                            let fewer =
                              count_below_decreases st.next_priority q.next es below there in
                            elim (run_passes-Outcome rounds fuel st' long (omega arith)) [
                              | inl silent ↦ inl (record {
                                next = silent.next;
                                future = silent.future;
                                result = eq ∙ silent.result;
                              })
                              | inr c ↦ inr (earlier es st.world _ _ eq c)
                            ]
                      ]
                ]
        ]

    -- Where every handler asks for a rewind, `process_events_until` on fuel of two more than there
    -- are events gives a result. Either nothing was called and the state is the one it began with, or
    -- one handler was called, for an event of the list that is not later than `max_time`, at a position
    -- that is ready, and the state is what that handler left. The answer says which.
    pub process_events_until_lem :
        (fuel : ℕ) (w : W)
        → length (events w) + 1 < fuel
        → ((future : Bool) × (process_events_until events ready handle max_time fuel w
              ≡ some (processed events ready handle max_time false future w)))
          ⊎ ((c : Call w) × (future : Bool) × (process_events_until events ready handle max_time
                  fuel w
                ≡ some (
                    processed events ready handle max_time true future
                      (handle c.place c.event.id w).1)))
    unfolding process_events_until
    process_events_until_lem fuel w enough =
        let st = first_pass events ready handle max_time w in
        let few = count_below-le_length st.next_priority (events w) in
        elim (run_passes-Outcome fuel fuel st (omega arith) (omega arith)) [
          | inl silent ↦ inl (silent.future, rw silent.result refl)
          | inr c ↦ inr (
            record {
              event = c.event;
              place = c.place;
              is_in = c.is_in;
              at_place = c.at_place;
              is_ready = c.is_ready;
              is_due = c.is_due;
            },
            c.future,
            rw c.result refl,
          )
        ]
