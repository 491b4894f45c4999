-- ===== src/Queue/Inv.antt =====
-- The representation invariant of `Queue`: indices in range, no wrap-around of `size_t`.
use event_sequence_transform.Prelude.{
  ℕ, zero, suc, ◌+◌, ◌-◌, ◌/◌, ◌^◌, ◌≤◌, ◌<◌, ◌≡◌, inl, inr, Bool, true, Option, none, some, List,
  [], ◌∷◌, arith, length, get_or, leb, if◌then◌else◌, length-append, length-take, length-set,
  Bool-cases, refl, take, set, get_or-set, leb→le, ltb,
}
use event_sequence_transform.Queue.{
  Queue, add_size, sub_size, cells, realloc_cells, write_block, move_cells, grown_capacity,
  queue_grow, empty_queue,
}

-- A cell takes 8 bytes, so an array of 2 ^ 61 cells fills the address space.
abbrev pub max_cells : ℕ
max_cells = 2 ^ 61

-- What `values` points to has `capacity` cells; NULL goes with capacity 0.
abbrev pub Backed {ℓ} : {A : Type ℓ} → Option (List A) → ℕ → Type 0
Backed none c = c ≡ 0
Backed (some vs) c = (length vs ≡ c) × (0 < c)

pub record IsValid {ℓ} {A : Type ℓ} (q : Queue A) : Type 0 where
  pub small : q.capacity < max_cells
  pub head_in : q.head_idx ≤ q.capacity - 1
  pub tail_in : q.after_tail_idx ≤ q.capacity - 1
  pub backed : Backed q.values q.capacity

pub grown_capacity_lem : (n : ℕ) → n < max_cells → grown_capacity n ≡ n + n / 2 + 2
unfolding grown_capacity
grown_capacity_lem n h = omega arith

module _ {ℓ} {A : Type ℓ} where
  pub empty_queue-IsValid : IsValid (empty_queue {A = A})
  unfolding empty_queue
  empty_queue-IsValid = omega arith

  pub length-cells : (f : ℕ → A) (i n : ℕ) → length (cells f i n) ≡ n
  length-cells f i zero = refl
  length-cells f i (suc n) = omega (arith, length-cells f (i + 1) n)

  pub length-write_block :
      (vs : List A) (i : ℕ) (bs : List A) → length (write_block vs i bs) ≡ length vs
  unfolding write_block
  length-write_block vs i [] = refl
  length-write_block vs i (b ∷ bs) =
      omega (arith, length-write_block (set vs i b) (i + 1) bs, length-set vs i b)

  pub length-realloc_cells :
      (junk : ℕ → A) (vs : List A) (n : ℕ) → length vs ≤ n → length (realloc_cells junk vs n) ≡ n
  unfolding realloc_cells
  length-realloc_cells junk vs n h = omega (
    arith,
    length-append (take n vs) (cells junk (length vs) (n - length vs)),
    length-take n vs,
    length-cells junk (length vs) (n - length vs),
  )

  -- What a block write leaves at each position.
  pub get_or-write_block :
      (vs : List A) (i : ℕ) (bs : List A) (j : ℕ) (d : A)
      → i + length bs ≤ length vs
      → get_or (write_block vs i bs) j d ≡ (
          if leb i j
          then (if ltb j (i + length bs) then get_or bs (j - i) d else get_or vs j d)
          else get_or vs j d)
  unfolding write_block
  get_or-write_block vs i [] j d h = ground arith
  get_or-write_block vs i (b ∷ bs) j d h =
      let rec = get_or-write_block (set vs i b) (i + 1) bs j d (rw length-set (omega arith)) in
      let here = get_or-set vs i j b d (omega arith) in
      elim (Bool-cases (leb (i + 1) j)) [
        | inl after ↦
            let e : j - i ≡ suc (j - (i + 1)) = omega (arith, leb→le (i + 1) j after) in
            rw e (ground (arith, rec, here))
        | inr before ↦ ground (arith, rec, here)
      ]

  -- The array that `queue_grow` installs, and its indices, with no wrap-around left.
  abbrev pub grow_values : (ℕ → A) → Queue A → List A → List A
  grow_values junk q vs =
      let n = q.capacity + q.capacity / 2 + 2 in
      let ws = realloc_cells junk vs n in
      if ltb q.after_tail_idx q.head_idx
      then move_cells ws (q.head_idx + (q.capacity / 2 + 2)) q.head_idx (q.capacity - q.head_idx)
      else ws

  abbrev pub grow_head : Queue A → ℕ
  grow_head q =
      if ltb q.after_tail_idx q.head_idx then q.head_idx + (q.capacity / 2 + 2) else q.head_idx

  -- A grown queue is valid if the allocator refuses what exceeds the address space.
  module _ (zero_value : A) (junk : ℕ → A) (alloc : ℕ → Bool)
      (bounded : (n : ℕ) → alloc n ≡ true → n < max_cells) where
    pub queue_grow-some :
        (q : Queue A) (vs : List A)
        → IsValid q
        → q.values ≡ some vs
        → alloc (grown_capacity q.capacity) ≡ true
        → queue_grow zero_value junk alloc q
          ≡ some (record q {
            capacity = q.capacity + q.capacity / 2 + 2;
            head_idx = grow_head q;
            values = some (grow_values junk q vs);
          })
    unfolding queue_grow
    queue_grow-some q vs v e a =
        let n = grown_capacity_lem q.capacity v.small in
        let wide = bounded (grown_capacity q.capacity) a in
        let shift : sub_size (grown_capacity q.capacity) q.capacity ≡ q.capacity / 2 + 2 =
          omega arith in
        let count : sub_size q.capacity q.head_idx ≡ q.capacity - q.head_idx = omega arith in
        let target : add_size q.head_idx (q.capacity / 2 + 2) ≡ q.head_idx + (q.capacity / 2 + 2) =
          omega arith in
        elim (Bool-cases (ltb q.after_tail_idx q.head_idx)) [
          | inl wrapped ↦ rw (a, e, queue_grow, shift, count, n, target, wrapped)
          | inr plain ↦ rw (a, e, queue_grow, n, plain)
        ]
