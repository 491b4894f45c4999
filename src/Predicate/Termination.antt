-- ===== src/Predicate/Termination.antt =====
-- Evaluation on a registry in which the arguments of an aggregate are older than itself.
use mathlib.Core.Path.{subst}
use native.Mathlib.Nat.{add-zero, zero-add}
use native.Mathlib.Numerals.{add-one}
use event_sequence_transform.Prelude.{
  ℕ, zero, suc, ◌+◌, ◌≤◌, ◌<◌, ◌≡◌, Bool, true, false, not, Option, none, some, List, [], ◌∷◌,
  arith, refl, Bool-cases, Option-cases, inl, inr, length, get_elem?, dec_lt, ap, ◌∙◌,
  get_elem?-eq-none, if◌then◌else◌,
}
use event_sequence_transform.Prelude.Int.{pos, negsuc}
use event_sequence_transform.Event.{EventNode}
use event_sequence_transform.Predicate.{
  EventPredicateType, EventPredicateResult, evpredres_disabled, evpredres_rejected,
  evpredres_accepted, evpred_invalid, evpred_accept, evpred_conjunction, evpred_disjunction,
  evpred_modifier, EventPredicateHandle, EventPredicate, Predicates, apply_aggregate, apply_handles,
  apply_type, event_predicate_apply, result_of,
}

-- The handle names no predicate from number `n` on.
abbrev pub HandleBelow : ℕ → EventPredicateHandle → Type 0
HandleBelow n (pos h) = h < n
HandleBelow n (negsuc h) = Unit

abbrev pub AllBelow : ℕ → List EventPredicateHandle → Type 0
AllBelow n [] = Unit
AllBelow n (h ∷ hs) = HandleBelow n h × AllBelow n hs

abbrev pub ArgsBelow : ℕ → Option (List EventPredicateHandle) → Type 0
ArgsBelow n none = Unit
ArgsBelow n (some hs) = AllBelow n hs

-- Every predicate of the list, numbered from `n`, has only older arguments.
abbrev pub IsAcyclic : ℕ → Predicates → Type 0
IsAcyclic n [] = Unit
IsAcyclic n (p ∷ ps) = ArgsBelow n p.handles × IsAcyclic (n + 1) ps

IsAcyclic-get :
    (ps : Predicates) (n i : ℕ) {p : EventPredicate}
    → IsAcyclic n ps
    → get_elem? ps i ≡ some p
    → ArgsBelow (n + i) p.handles
IsAcyclic-get [] n i a e = absurd (ground arith)
IsAcyclic-get (q ∷ ps) n zero {p} a e =
    let same : q ≡ p = cc in subst (λ x. ArgsBelow (n + 0) x.handles) same (rw add-zero a.0)
IsAcyclic-get (q ∷ ps) n (suc i) {p} a e =
    subst (λ k. ArgsBelow k p.handles) (omega arith) (IsAcyclic-get ps (n + 1) i a.1 e)

abbrev Gives : Option EventPredicateResult → Type 0
Gives o = (r : EventPredicateResult) × (o ≡ some r)

-- `accepted` after one argument, if the rest of the loop gives `b`.
after_child : Bool → Bool → EventPredicateResult → Bool
after_child disjunction b evpredres_disabled = b
after_child disjunction b evpredres_accepted = if disjunction then true else b
after_child disjunction b evpredres_rejected = if disjunction then b else false

module _ (child : EventPredicateHandle → Option EventPredicateResult) (n : ℕ)
    (older : (h : EventPredicateHandle) → HandleBelow n h → Gives (child h)) where
  aggregate_step :
      (disjunction b : Bool) (h : EventPredicateHandle) (hs : List EventPredicateHandle)
      (r : EventPredicateResult)
      → child h ≡ some r
      → apply_aggregate child disjunction hs ≡ some b
      → apply_aggregate child disjunction (h ∷ hs) ≡ some (after_child disjunction b r)
  unfolding apply_aggregate after_child
  aggregate_step disjunction b h hs r e rest = ground arith

  aggregate_gives :
      (disjunction : Bool) (hs : List EventPredicateHandle)
      → AllBelow n hs
      → (b : Bool) × (apply_aggregate child disjunction hs ≡ some b)
  unfolding apply_aggregate
  aggregate_gives disjunction [] a = (not disjunction, refl)
  aggregate_gives disjunction (h ∷ hs) a =
      let (b, rest) = aggregate_gives disjunction hs a.1 in
      let (r, e) = older h a.0 in
      (after_child disjunction b r, aggregate_step disjunction b h hs r e rest)

  handles_give :
      (disjunction : Bool) (p : EventPredicate)
      → ArgsBelow n p.handles
      → Gives (apply_handles child disjunction p)
  unfolding apply_handles
  handles_give disjunction p a = elim (Option-cases p.handles) [
    | inl e ↦ (evpredres_disabled, rw e)
    | inr (hs, e) ↦
        let (b, run) = aggregate_gives disjunction hs (rw e at a) in
        (result_of p.inverted b, rw (e, apply_handles, run))
  ]

  type-Gives :
      (type : EventPredicateType) (p : EventPredicate) (ev : Option EventNode)
      → ArgsBelow n p.handles
      → Gives (apply_type child type p ev)
  unfolding apply_type
  type-Gives evpred_invalid p ev a = (_, refl)
  type-Gives evpred_accept p ev a = (_, refl)
  type-Gives evpred_conjunction p ev a = handles_give false p a
  type-Gives evpred_disjunction p ev a = handles_give true p a
  type-Gives evpred_modifier p ev a = (_, refl)
  type-Gives _ p ev a = (_, refl)

module _ (ps : Predicates) (ev : Option EventNode) (acyclic : IsAcyclic 0 ps) where
  HandleBelow-mono :
      (n m : ℕ) (h : EventPredicateHandle) → n ≤ m → HandleBelow n h → HandleBelow m h
  HandleBelow-mono n m (pos h) le b = omega arith
  HandleBelow-mono n m (negsuc h) le b = tt

  apply_enabled :
      (fuel n : ℕ) (p : EventPredicate)
      → get_elem? ps n ≡ some p
      → p.enabled ≡ true
      → event_predicate_apply (suc fuel) ps (pos n) ev
        ≡ apply_type (λ k. event_predicate_apply fuel ps k ev) p.type p ev
  unfolding event_predicate_apply
  apply_enabled fuel n p e on =
      rw (e, event_predicate_apply)
        (ap
          (λ b.
            if not b
            then some evpredres_disabled
            else apply_type (λ k. event_predicate_apply fuel ps k ev) p.type p ev)
          on)

  apply_off :
      (fuel n : ℕ) (p : EventPredicate)
      → get_elem? ps n ≡ some p
      → p.enabled ≡ false
      → event_predicate_apply (suc fuel) ps (pos n) ev ≡ some evpredres_disabled
  unfolding event_predicate_apply
  apply_off fuel n p e off =
      rw (e, event_predicate_apply)
        (ap
          (λ b.
            if not b
            then some evpredres_disabled
            else apply_type (λ k. event_predicate_apply fuel ps k ev) p.type p ev)
          off)

  -- A stack one deeper than the number of the predicate is enough.
  apply-Gives :
      (fuel : ℕ) (h : EventPredicateHandle)
      → HandleBelow fuel h
      → Gives (event_predicate_apply (suc fuel) ps h ev)
  unfolding event_predicate_apply
  apply-Gives fuel (negsuc h) b = (evpredres_disabled, refl)
  apply-Gives zero (pos h) b = absurd (omega arith)
  apply-Gives (suc fuel) (pos h) b = elim (Option-cases (get_elem? ps h)) [
    | inl e ↦ (evpredres_disabled, rw (e, event_predicate_apply))
    | inr (p, e) ↦
        let older = λ (k : EventPredicateHandle) (below : HandleBelow h k).
          apply-Gives fuel k (HandleBelow-mono h fuel k (omega arith) below) in
        let args : ArgsBelow h p.handles =
          subst (λ k. ArgsBelow k p.handles) (zero-add h) (IsAcyclic-get ps 0 h acyclic e) in
        elim (Bool-cases p.enabled) [
          | inr off ↦ (evpredres_disabled, apply_off (suc fuel) h p e off)
          | inl on ↦
              let (r, run) =
                type-Gives (λ k. event_predicate_apply (suc fuel) ps k ev) h older p.type p ev
                  args in
              (r, apply_enabled (suc fuel) h p e on ∙ run)
        ]
  ]

  unregistered :
      (n : ℕ)
      → get_elem? ps n ≡ none
      → Gives (event_predicate_apply (suc (length ps)) ps (pos n) ev)
  unfolding event_predicate_apply
  unregistered n e = (evpredres_disabled, rw (e, event_predicate_apply))

  -- On an acyclic registry every handle has a result, with a stack one deeper than the registry is
  -- long.
  pub event_predicate_apply_total :
      (h : EventPredicateHandle)
      → (r : EventPredicateResult) × (event_predicate_apply (length ps + 1) ps h ev ≡ some r)
  event_predicate_apply_total (negsuc n) = rw add-one (apply-Gives (length ps) (negsuc n) tt)
  event_predicate_apply_total (pos n) = elim (dec_lt n (length ps)) [
    | yes p ↦ rw add-one (apply-Gives (length ps) (pos n) p)
    | no p ↦ rw add-one (unregistered n (get_elem?-eq-none ps n (omega arith)))
  ]
