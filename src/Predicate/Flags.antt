-- ===== src/Predicate/Flags.antt =====
-- The two flags of a predicate, as `event_predicate_set_enabled` and `_set_inverted` change them.
use event_sequence_transform.Prelude.{
  ℕ, zero, suc, ◌≡◌, Bool, false, none, some, [], ◌∷◌, arith, refl, get_elem?, set, if◌then◌else◌,
  ◌==◌, Option-cases, inl, inr, Bool-cases, ==_iff, ap, sym, ◌∙◌,
}
use event_sequence_transform.Prelude.Int.{pos, negsuc}
use event_sequence_transform.Predicate.{
  EventPredicate, EventPredicateHandle, Predicates, event_predicate_get_ptr, update_at,
  event_predicate_set_enabled, event_predicate_set_inverted,
}
use mathlib.Core.Option

abbrev pub same_handle : EventPredicateHandle → EventPredicateHandle → Bool
same_handle (pos h) (pos k) = h == k
same_handle _ _ = false

get_elem?-set-map :
    (ps : Predicates) (h k : ℕ) (f : EventPredicate → EventPredicate) (p : EventPredicate)
    → get_elem? ps h ≡ some p
    → get_elem? (set ps h (f p)) k
      ≡ (if h == k then Option.map f (get_elem? ps k) else get_elem? ps k)
get_elem?-set-map [] h k f p e = absurd (ground arith)
get_elem?-set-map (q ∷ ps) zero zero f p e =
    let same : q ≡ p = cc in ap (λ x. some (f x)) (sym same)
get_elem?-set-map (q ∷ ps) zero (suc k) f p e = ground arith
get_elem?-set-map (q ∷ ps) (suc h) zero f p e = ground arith
get_elem?-set-map (q ∷ ps) (suc h) (suc k) f p e = ground (arith, get_elem?-set-map ps h k f p e)

-- An update is seen under its handle, and under no other.
pub get_ptr-update_at :
    (ps : Predicates) (h k : EventPredicateHandle) (f : EventPredicate → EventPredicate)
    → event_predicate_get_ptr (update_at ps h f) k ≡ (
        if same_handle h k
        then Option.map f (event_predicate_get_ptr ps k)
        else event_predicate_get_ptr ps k)
unfolding event_predicate_get_ptr update_at
get_ptr-update_at ps (negsuc h) k f = refl
get_ptr-update_at ps (pos h) (negsuc k) f = refl
get_ptr-update_at ps (pos h) (pos k) f = elim (Option-cases (get_elem? ps h)) [
  | inl e ↦ elim (Bool-cases (h == k)) [
    | inr other ↦ rw (e, update_at, other) refl
    | inl here ↦
        let absent : get_elem? ps k ≡ none = ap (get_elem? ps) (sym ((==_iff h k).0 here)) ∙ e in
        rw (e, update_at, here, absent) refl
  ]
  | inr (p, e) ↦ rw (e, update_at) (get_elem?-set-map ps h k f p e)
]

-- `event_predicate_set_enabled` writes the flag of its predicate, and `event_predicate_set_inverted`
-- the other flag; no other predicate and no other field changes.
pub set_flags_lem :
    (ps : Predicates) (h k : EventPredicateHandle) (b : Bool)
    → (event_predicate_get_ptr (event_predicate_set_enabled ps h b) k ≡ (
        if same_handle h k
        then Option.map {A = EventPredicate}
            (λ p. record p { enabled = b })
            (event_predicate_get_ptr ps k)
        else event_predicate_get_ptr ps k))
      × (event_predicate_get_ptr (event_predicate_set_inverted ps h b) k ≡ (
          if same_handle h k
          then Option.map {A = EventPredicate}
              (λ p. record p { inverted = b })
              (event_predicate_get_ptr ps k)
          else event_predicate_get_ptr ps k))
unfolding event_predicate_set_enabled event_predicate_set_inverted
set_flags_lem ps h k b = (get_ptr-update_at ps h k _, get_ptr-update_at ps h k _)
