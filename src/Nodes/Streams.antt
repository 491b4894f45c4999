-- ===== src/Nodes/Streams.antt =====
-- What the nodes that keep a number do to the payloads of a sequence of events.
use event_sequence_transform.Prelude.{
  ℕ, suc, ◌+◌, ◌*◌, ◌/◌, ◌%◌, ◌<◌, zero, true-false, ◌≡◌, true, List, [], ◌∷◌, refl, sym, ap, ap₂,
  ◌∙◌, arith,
}
use event_sequence_transform.Prelude.Int.{
  ℤ, pos, negsuc, pos_part, neg_part, sub_ℕ, ◌+ℤ◌, ◌-ℤ◌, ◌*ℤ◌, int_laws, +ℤ_assoc,
}
use event_sequence_transform.Time.{div_trunc}
use event_sequence_transform.Time.Sums.{one_sign, sum_laws}
use native.Mathlib.Nat.{mod-lt, div-add-mod', zero-mul}
use mathlib.Core.Path.{subst}
use event_sequence_transform.Event.{EventData}
use event_sequence_transform.Nodes.{
  DifferentiateGraphNode, IntegrateGraphNode, ScaleGraphNode, differentiate_data, integrate_data,
  scale_data, is_nonzero, div_c,
}

-- The events one after the other: what is sent on, and the node in the end.
abbrev pub run {ℓ} :
    {N : Type ℓ} → (N → EventData → N × EventData) → N → List EventData → List EventData × N
run step node [] = ([], node)
run step node (ev ∷ evs) =
    let now = step node ev in let rest = run step now.0 evs in (now.1 ∷ rest.0, rest.1)

add_back : (a b : ℤ) → a +ℤ (b -ℤ a) ≡ b
add_back a b = omega int_laws

take_back : (a b : ℤ) → a +ℤ b -ℤ a ≡ b
take_back a b = omega int_laws

undo_differentiate :
    (d : DifferentiateGraphNode) (n : IntegrateGraphNode) (evs : List EventData)
    → n.total ≡ d.previous
    → (run integrate_data n (run differentiate_data d evs).0).0 ≡ evs
unfolding differentiate_data integrate_data
undo_differentiate d n [] same = refl
undo_differentiate d n (ev ∷ evs) same =
    let back : n.total +ℤ (ev.payload -ℤ d.previous) ≡ ev.payload =
      ap (λ t. t +ℤ (ev.payload -ℤ d.previous)) same ∙ add_back d.previous ev.payload in
    ap₂ ◌∷◌ (ap (λ p. record ev { payload = p }) back) (
      undo_differentiate (record { previous = ev.payload })
        (record { total = n.total +ℤ (ev.payload -ℤ d.previous) }) evs back)

undo_integrate :
    (d : DifferentiateGraphNode) (n : IntegrateGraphNode) (evs : List EventData)
    → n.total ≡ d.previous
    → (run differentiate_data d (run integrate_data n evs).0).0 ≡ evs
unfolding differentiate_data integrate_data
undo_integrate d n [] same = refl
undo_integrate d n (ev ∷ evs) same =
    let back : n.total +ℤ ev.payload -ℤ d.previous ≡ ev.payload =
      ap (λ t. n.total +ℤ ev.payload -ℤ t) (sym same) ∙ take_back n.total ev.payload in
    ap₂ ◌∷◌ (ap (λ p. record ev { payload = p }) back) (
      undo_integrate (record { previous = n.total +ℤ ev.payload })
        (record { total = n.total +ℤ ev.payload }) evs refl)

-- A node `integrate` behind a node `differentiate` that begin with one number give the payloads that
-- came in, and so do the nodes in the other order.
pub differentiate-integrate :
    (initial : ℤ) (evs : List EventData)
    → ((run integrate_data
          (record { total = initial })
          (run differentiate_data (record { previous = initial }) evs).0).0
        ≡ evs)
      × ((run differentiate_data
            (record { previous = initial })
            (run integrate_data (record { total = initial }) evs).0).0
          ≡ evs)
differentiate-integrate initial evs = (
  undo_differentiate (record { previous = initial }) (record { total = initial }) evs refl,
  undo_integrate (record { previous = initial }) (record { total = initial }) evs refl,
)

-- Without its sign.
abbrev pub size : ℤ → ℕ
size (pos n) = n
size (negsuc n) = suc n

size_parts : (z : ℤ) → size z ≡ pos_part z + neg_part z
size_parts (pos n) = omega arith
size_parts (negsuc n) = omega arith

-- What a quotient and its rest are made of, for a number and its negative.
rest_of_pos : (n q d r : ℕ) → q * d + r ≡ n → size (pos n -ℤ pos q *ℤ pos d) ≡ r
rest_of_pos n q d r h =
    let z = pos n -ℤ pos q *ℤ pos d in omega (sum_laws, one_sign z, size_parts z)

negative_parts : (q : ℕ) → (pos_part (sub_ℕ 0 q) ≡ 0) × (neg_part (sub_ℕ 0 q) ≡ q)
negative_parts q = ground arith

rest_of_neg : (n q d r : ℕ) → q * d + r ≡ suc n → size (negsuc n -ℤ sub_ℕ 0 q *ℤ pos d) ≡ r
rest_of_neg n q d r h =
    let w = sub_ℕ 0 q in
    let z = negsuc n -ℤ w *ℤ pos d in
    let no_pos = ap (λ x. x * d) (negative_parts q).0 ∙ zero-mul d in
    let all_neg = ap (λ x. x * d) (negative_parts q).1 in omega (sum_laws, one_sign z, size_parts z)

negated : (w : ℤ) (d : ℕ) → (pos 0 -ℤ w) *ℤ negsuc d ≡ w *ℤ pos (suc d)
unfolding ◌-ℤ◌ ◌*ℤ◌
negated (pos zero) d = ground arith
negated (pos (suc n)) d = ground arith
negated (negsuc n) d = ground arith

rest_trunc : (v : ℤ) (d : ℕ) → 0 < d → size (v -ℤ div_trunc v d *ℤ pos d) < d
unfolding div_trunc
rest_trunc (pos n) d h =
    let same = rest_of_pos n (n / d) d (n % d) (div-add-mod' n d) in
    let low = mod-lt n h in omega arith
rest_trunc (negsuc n) d h =
    let same = rest_of_neg n (suc n / d) d (suc n % d) (div-add-mod' (suc n) d) in
    let low = mod-lt (suc n) h in omega arith

-- What the division of C leaves is smaller than the divisor.
rest_div_c : (v d : ℤ) → is_nonzero d ≡ true → size (v -ℤ div_c v d *ℤ d) < size d
unfolding div_c is_nonzero
rest_div_c v (pos zero) h = absurd (true-false (sym h))
rest_div_c v (pos (suc d)) h = rest_trunc v (suc d) (omega arith)
rest_div_c v (negsuc d) h =
    subst (λ (p : ℤ). size (v -ℤ p) < suc d) (sym (negated (div_trunc v (suc d)) d))
      (rest_trunc v (suc d) (omega arith))

-- The sum of the payloads, measured from a centre, times a factor.
abbrev pub weight : ℤ → ℤ → List EventData → ℤ
weight center factor [] = pos 0
weight center factor (ev ∷ evs) = (ev.payload -ℤ center) *ℤ factor +ℤ weight center factor evs

split : (p w d q : ℤ) → p +ℤ w +ℤ d ≡ q +ℤ (w +ℤ (p +ℤ d -ℤ q))
split p w d q = omega int_laws

balance : (p w d q w' d' : ℤ) → w +ℤ (p +ℤ d -ℤ q) ≡ w' +ℤ d' → p +ℤ w +ℤ d ≡ q +ℤ w' +ℤ d'
balance p w d q w' d' h = split p w d q ∙ ap (λ t. q +ℤ t) h ∙ sym (+ℤ_assoc q w' d')

uncenter : (q c : ℤ) → q +ℤ c -ℤ c ≡ q
uncenter q c = omega int_laws

-- A node that spreads the rounding error, with the defect it has.
abbrev pub amortizing : ℤ → ℤ → ℤ → ℤ → ScaleGraphNode
amortizing numerator denominator center defect = record {
  numerator = numerator;
  denominator = denominator;
  center = center;
  defect = defect;
  amortize_rounding_error = true;
}

module _ (numerator denominator center : ℤ) (nonzero : is_nonzero denominator ≡ true) where
  abbrev node_with : ℤ → ScaleGraphNode
  node_with = amortizing numerator denominator center

  abbrev dividend : ℤ → ℤ → ℤ
  dividend d x = (x -ℤ center) *ℤ numerator +ℤ d

  abbrev quotient : ℤ → ℤ → ℤ
  quotient d x = div_c (dividend d x) denominator

  abbrev rest_of : ℤ → ℤ → ℤ
  rest_of d x = dividend d x -ℤ quotient d x *ℤ denominator

  scale_step :
      (d : ℤ) (ev : EventData)
      → scale_data (node_with d) ev ≡ (
        node_with (rest_of d ev.payload),
        record ev { payload = quotient d ev.payload +ℤ center },
      )
  unfolding scale_data
  scale_step d ev = rw nonzero refl

  scale_balance :
      (d : ℤ) (evs : List EventData)
      → weight center numerator evs +ℤ d
        ≡ weight center denominator (run scale_data (node_with d) evs).0
          +ℤ (run scale_data (node_with d) evs).1.defect
  scale_balance d [] = refl
  scale_balance d (ev ∷ evs) =
      let rest = rest_of d ev.payload in
      let q = quotient d ev.payload in
      let later = run scale_data (node_with rest) evs in
      let total =
        balance ((ev.payload -ℤ center) *ℤ numerator) (weight center numerator evs) d
          (q *ℤ denominator) (weight center denominator later.0) later.1.defect
          (scale_balance rest evs) in
      rw (scale_step d ev, uncenter q center) total

  scale_defect :
      (d : ℤ) (evs : List EventData)
      → size d < size denominator
      → size (run scale_data (node_with d) evs).1.defect < size denominator
  scale_defect d [] small = small
  scale_defect d (ev ∷ evs) small = rw (scale_step d ev) (
      scale_defect (rest_of d ev.payload) evs
        (rest_div_c (dividend d ev.payload) denominator nonzero))

  -- A `scale` node with `amortize_rounding_error`, a denominator that is not 0 and a defect smaller than
  -- it loses less than one unit to all its divisions: over a sequence of events, what came in, times
  -- the numerator, and the first defect are what went out, times the denominator, and the last
  -- defect, and the last defect is again smaller than the denominator, both without their signs.
  pub scale_run_lem :
      (d : ℤ) (evs : List EventData)
      → size d < size denominator
      → (weight center numerator evs +ℤ d
          ≡ weight center denominator (run scale_data (node_with d) evs).0
            +ℤ (run scale_data (node_with d) evs).1.defect)
        × (size (run scale_data (node_with d) evs).1.defect < size denominator)
  scale_run_lem d evs small = (scale_balance d evs, scale_defect d evs small)
