-- ===== src/Routing/Modify.antt =====
-- The handler of nodes/modify_predicate.c on an acyclic registry.
use event_sequence_transform.Prelude.{
  ◌+◌, ◌≡◌, Bool, true, false, some, refl, ◌∙◌, length, not, if◌then◌else◌,
}
use event_sequence_transform.Event.{EventNode}
use event_sequence_transform.Predicate.{
  Predicates, EventPredicateHandle, event_predicate_get, event_predicate_get_ptr,
  event_predicate_set_enabled, event_predicate_set_inverted,
}
use event_sequence_transform.Predicate.Termination.{IsAcyclic, event_predicate_apply_total}
use event_sequence_transform.Predicate.Flags.{same_handle, set_flags_lem}
use event_sequence_transform.Routing.{
  ModifyPredicateGraphNode, accepts_if, is_accepted, write_flags, modified,
}

module _ (h k : EventPredicateHandle) (other : same_handle h k ≡ false) where
  enabled_elsewhere :
      (go b : Bool) (ps : Predicates)
      → event_predicate_get_ptr (if go then event_predicate_set_enabled ps h b else ps) k
        ≡ event_predicate_get_ptr ps k
  enabled_elsewhere false b ps = refl
  enabled_elsewhere true b ps = rw other at (set_flags_lem ps h k b).0

  inverted_elsewhere :
      (go b : Bool) (ps : Predicates)
      → event_predicate_get_ptr (if go then event_predicate_set_inverted ps h b else ps) k
        ≡ event_predicate_get_ptr ps k
  inverted_elsewhere false b ps = refl
  inverted_elsewhere true b ps = rw other at (set_flags_lem ps h k b).1

  write_flags-elsewhere :
      (e d i u : Bool) (ps : Predicates)
      → event_predicate_get_ptr (write_flags h e d i u ps) k ≡ event_predicate_get_ptr ps k
  unfolding write_flags
  write_flags-elsewhere e d i u ps =
      inverted_elsewhere u false _
      ∙ inverted_elsewhere i true _
      ∙ enabled_elsewhere d false _
      ∙ enabled_elsewhere e true ps

accepts_if-total :
    (asked : Bool) (ps : Predicates) (h : EventPredicateHandle) (ev : EventNode)
    → IsAcyclic 0 ps
    → (b : Bool) × (accepts_if asked (length ps + 1) ps h ev ≡ some b)
unfolding accepts_if
accepts_if-total false ps h ev acyclic = (false, refl)
accepts_if-total true ps h ev acyclic =
    let (r, run) = event_predicate_apply_total ps (some ev) acyclic h in
    (is_accepted r, rw (run, accepts_if) refl)

-- On an acyclic registry, with a stack one deeper than the registry is long, a modify_predicate node
-- comes to a new registry, in which a handle other than its target's finds what it found before.
pub modified_lem :
    (node : ModifyPredicateGraphNode) (ev : EventNode) (ps : Predicates) (k : EventPredicateHandle)
    → IsAcyclic 0 ps
    → same_handle node.target k ≡ false
    → (ps' : Predicates) × (modified (length ps + 1) node ev ps ≡ some ps')
      × (event_predicate_get_ptr ps' k ≡ event_predicate_get_ptr ps k)
unfolding modified
modified_lem node ev ps k acyclic other =
    let state = event_predicate_get ps node.target in
    let (d, run_d) = accepts_if-total state.enabled ps node.disable_on ev acyclic in
    let (e, run_e) = accepts_if-total (not state.enabled) ps node.enable_on ev acyclic in
    let (u, run_u) = accepts_if-total state.inverted ps node.uninvert_on ev acyclic in
    let (i, run_i) = accepts_if-total (not state.inverted) ps node.invert_on ev acyclic in
    (
      write_flags node.target e d i u ps,
      rw (run_d, run_e, run_u, run_i, modified) refl,
      write_flags-elsewhere node.target k other e d i u ps,
    )
