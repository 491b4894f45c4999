-- ===== src/Queue/Refine.antt =====
-- The list of the values that a valid queue holds, oldest first.
use event_sequence_transform.Prelude.{
  ℕ, suc, ◌+◌, ◌-◌, ◌%◌, ◌<◌, ◌≡◌, inl, inr, Bool, true, false, none, some, List, [], ◌∷◌, ◌++◌,
  arith, length, get_or, leb, ltb, ◌==◌, if◌then◌else◌, length-set, Bool-cases, refl, ap₂, ◌∙◌, set,
  get_or-set, tabulate, tabulate_congr, tabulate-snoc, ltb→lt,
}
use native.Mathlib.Nat.{mod-eq_of_lt, mod_self}
use event_sequence_transform.Queue.{
  Queue, Put, stored, no_memory, queue_length, queue_is_full, grown_capacity, put_value, add_size,
}
use event_sequence_transform.Queue.Inv.{IsValid, max_cells}

-- The array index of the value that is `i` places behind the head.
abbrev pub slot {ℓ} : {A : Type ℓ} → Queue A → ℕ → ℕ
slot q i = if ltb (q.head_idx + i) q.capacity then q.head_idx + i else q.head_idx + i - q.capacity

abbrev pub count {ℓ} : {A : Type ℓ} → Queue A → ℕ
count q =
    if leb q.head_idx q.after_tail_idx
    then q.after_tail_idx - q.head_idx
    else q.after_tail_idx + q.capacity - q.head_idx

abbrev pub stored_values {ℓ} : {A : Type ℓ} → A → Queue A → List A → List A
stored_values z q vs = tabulate (λ i. get_or vs (slot q i) z) (count q)

abbrev pub contents {ℓ} : {A : Type ℓ} → A → Queue A → List A
contents z q = elim q.values [ none ↦ [] | some vs ↦ stored_values z q vs ]

-- What `queue_put` promises of its result, for a queue `q` and a value `v`. No constructor is for
-- `aborted`.
pub data PutResult {ℓ} {A : Type ℓ} (z : A) (alloc : ℕ → Bool) (q : Queue A) (v : A)
    : Put A → Type ℓ where
  appended :
      (i : ℕ) (r : Queue A)
      → IsValid r
      → contents z r ≡ contents z q ++ (v ∷ [])
      → i ≡ slot r (count q)
      → PutResult z alloc q v (stored i r)
  refused : alloc (grown_capacity q.capacity) ≡ false → PutResult z alloc q v (no_memory q)

-- The next index, without the remainder.
pub add_one_mod :
    (a c : ℕ) → a < c → c < max_cells → add_size a 1 % c ≡ (if ltb (a + 1) c then a + 1 else 0)
add_one_mod a c h k =
    let e₁ : add_size a 1 ≡ a + 1 = omega arith in
    elim (Bool-cases (ltb (a + 1) c)) [
      | inl e ↦ rw (e, e₁) (mod-eq_of_lt (ltb→lt (a + 1) c e))
      | inr e ↦ let e₂ : a + 1 ≡ c = ground arith in rw (e, e₁, e₂) (mod_self c)
    ]

module _ {ℓ} {A : Type ℓ} (z : A) where
  module _ (q : Queue A) (valid : IsValid q) where
    -- `queue_length` of a valid queue is the number of its values.
    pub queue_length_lem : queue_length q ≡ count q
    unfolding queue_length
    queue_length_lem = ground arith

    module _ (vs : List A) (e : q.values ≡ some vs) where
      pub backed_some : (length vs ≡ q.capacity) × (0 < q.capacity)
      backed_some = rw e at valid.backed

      -- A write to the free slot appends.
      put_value_contents :
          (v : A) (r : Queue A)
          → count q + 1 < q.capacity
          → r.capacity ≡ q.capacity
          → r.head_idx ≡ q.head_idx
          → r.after_tail_idx ≡ add_size q.after_tail_idx 1 % q.capacity
          → r.values ≡ some (set vs q.after_tail_idx v)
          → (contents z r ≡ contents z q ++ (v ∷ []))
            × IsValid r
            × (q.after_tail_idx ≡ slot r (count q))
      put_value_contents v r room c h t w =
          let bk = backed_some in
          let inside : q.after_tail_idx < length vs = omega arith in
          let next = add_one_mod q.after_tail_idx q.capacity (omega arith) valid.small in
          let one_more : count r ≡ suc (count q) = ground arith in
          let tail : slot r (count q) ≡ q.after_tail_idx = ground arith in
          let same = λ (i : ℕ) (p : i < count q).
            let e₁ : slot r i ≡ slot q i = ground arith in
            let e₂ : (q.after_tail_idx == slot q i) ≡ false = ground arith in
            let hit = get_or-set vs q.after_tail_idx (slot q i) v z inside in
            let fit : get_or (set vs q.after_tail_idx v) (slot r i) z ≡ get_or vs (slot q i) z =
              rw (e₁, hit, e₂) refl in
            fit in
          let unchanged =
            tabulate_congr (λ i. get_or (set vs q.after_tail_idx v) (slot r i) z)
              (λ i. get_or vs (slot q i) z) (count q) same in
          let self : (q.after_tail_idx == q.after_tail_idx) ≡ true = ground arith in
          let last : get_or (set vs q.after_tail_idx v) (slot r (count q)) z ≡ v =
            rw (tail, get_or-set vs q.after_tail_idx q.after_tail_idx v z inside, self) refl in
          (
            rw (e, w, one_more)
                (tabulate-snoc (λ i. get_or (set vs q.after_tail_idx v) (slot r i) z) (count q)
                  ∙ ap₂ (λ xs x. xs ++ (x ∷ [])) unchanged last),
            record {
              small = rw c valid.small;
              head_in = rw (c, h) valid.head_in;
              tail_in = ground arith;
              backed = rw (w, length-set, c) backed_some;
            },
            ground arith,
          )

      pub put_value_lem :
          (junk : ℕ → A) (alloc : ℕ → Bool) (v : A)
          → queue_is_full q ≡ false
          → (r : Queue A) × (put_value z junk alloc q v ≡ stored q.after_tail_idx r)
            × IsValid r
            × (contents z r ≡ contents z q ++ (v ∷ []))
            × (q.after_tail_idx ≡ slot r (count q))
      unfolding put_value queue_is_full
      put_value_lem junk alloc v room =
          let bk = backed_some in
          let some_room : (q.capacity == 0) ≡ false = ground arith in
          let next = add_one_mod q.after_tail_idx q.capacity (omega arith) valid.small in
          let (c, ok, place) =
            put_value_contents v
              (record q {
                values = some (set vs q.after_tail_idx v);
                after_tail_idx = add_size q.after_tail_idx 1 % q.capacity;
              })
              (ground arith) refl refl refl refl in
          (_, simp (some_room, e), ok, c, place)
