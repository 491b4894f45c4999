-- ===== src/Predicate/Aggregate.antt =====
-- What conjunction and disjunction mean.
use event_sequence_transform.Prelude.{
  ◌≡◌, Bool, true, false, not, ◌&&◌, ◌||◌, some, List, [], ◌∷◌, map, arith, refl, if◌then◌else◌,
}
use event_sequence_transform.Predicate.{
  EventPredicateResult, evpredres_rejected, evpredres_accepted, EventPredicateHandle,
  apply_aggregate,
}

abbrev pub accepts : EventPredicateResult → Bool
accepts evpredres_accepted = true
accepts _ = false

abbrev pub rejects : EventPredicateResult → Bool
rejects evpredres_rejected = true
rejects _ = false

-- Some argument accepts; no argument rejects.
abbrev pub any_accepts : List EventPredicateResult → Bool
any_accepts [] = false
any_accepts (r ∷ rs) = accepts r || any_accepts rs

abbrev pub none_rejects : List EventPredicateResult → Bool
none_rejects [] = true
none_rejects (r ∷ rs) = not (rejects r) && none_rejects rs

module _ (child : EventPredicateHandle → EventPredicateResult) where
  aggregate_step :
      (disjunction : Bool) (r : EventPredicateResult) (h : EventPredicateHandle)
      (hs : List EventPredicateHandle)
      → child h ≡ r
      → apply_aggregate (λ k. some (child k)) disjunction hs
        ≡ some (if disjunction then any_accepts (map child hs) else none_rejects (map child hs))
      → apply_aggregate (λ k. some (child k)) disjunction (h ∷ hs)
        ≡ some (
            if disjunction
            then accepts r || any_accepts (map child hs)
            else not (rejects r) && none_rejects (map child hs))
  unfolding apply_aggregate
  aggregate_step disjunction r h hs e ih = ground arith

  -- Where all arguments give a result, the loop with its early stop has for a disjunction whether an
  -- argument accepts, for a conjunction whether no argument rejects.
  pub apply_aggregate_lem :
      (disjunction : Bool) (hs : List EventPredicateHandle)
      → apply_aggregate (λ k. some (child k)) disjunction hs
        ≡ some (if disjunction then any_accepts (map child hs) else none_rejects (map child hs))
  unfolding apply_aggregate
  apply_aggregate_lem true [] = refl
  apply_aggregate_lem false [] = refl
  apply_aggregate_lem true (h ∷ hs) =
      aggregate_step true (child h) h hs refl (apply_aggregate_lem true hs)
  apply_aggregate_lem false (h ∷ hs) =
      aggregate_step false (child h) h hs refl (apply_aggregate_lem false hs)
