-- ===== src/Queue/Grow.antt =====
-- `queue_grow` and `queue_put` on the sequence of values.
use native.Mathlib.Nat.{mod-eq_of_lt}
use mathlib.Core.Path.{subst}
use event_sequence_transform.Prelude.{
  ℕ, ◌+◌, ◌-◌, ◌/◌, ◌%◌, ◌≤◌, ◌<◌, ◌≡◌, inl, inr, Bool, true, false, none, some, List, [], ◌∷◌,
  ◌++◌, arith, length, get_or, leb, ltb, ◌==◌, if◌then◌else◌, Bool-cases, Option-cases, refl, sym,
  ap, ap₂, ◌∙◌, tabulate_congr, take, drop, get_or-take, get_or-drop, get_or-append, length-take,
  length-drop,
}
use event_sequence_transform.Queue.{
  Queue, queue_is_full, cells, realloc_cells, write_block, move_cells, grown_capacity, queue_grow,
  queue_put, add_size, empty_queue,
}
use event_sequence_transform.Queue.Inv.{
  IsValid, max_cells, grow_values, grow_head, queue_grow-some, length-write_block,
  length-realloc_cells, get_or-write_block, grown_capacity_lem,
}
use event_sequence_transform.Queue.Refine.{
  slot, count, contents, PutResult, appended, refused, put_value_lem, backed_some,
}

module _ {ℓ} {A : Type ℓ} (z : A) (junk : ℕ → A) (alloc : ℕ → Bool)
    (bounded : (n : ℕ) → alloc n ≡ true → n < max_cells) where
  get_or-realloc_cells :
      (vs : List A) (n i : ℕ)
      → length vs ≤ n
      → i < length vs
      → get_or (realloc_cells junk vs n) i z ≡ get_or vs i z
  unfolding realloc_cells
  get_or-realloc_cells vs n i h p =
      get_or-append (take n vs) (cells junk (length vs) (n - length vs)) i z
        (omega (arith, length-take n vs))
      ∙ get_or-take n i vs z (omega arith)

  module _ (q : Queue A) (vs : List A) (valid : IsValid q) (e : q.values ≡ some vs) where
    abbrev grown_size : ℕ
    grown_size = q.capacity + q.capacity / 2 + 2

    abbrev grown : Queue A
    grown = record q {
      capacity = grown_size;
      head_idx = grow_head q;
      values = some (grow_values junk q vs);
    }

    length-grow_values : length (grow_values junk q vs) ≡ grown_size
    unfolding move_cells
    length-grow_values =
        let ws = realloc_cells junk vs grown_size in
        let wide =
          length-realloc_cells junk vs grown_size (omega (arith, (backed_some z q valid vs e).0)) in
        elim (Bool-cases (ltb q.after_tail_idx q.head_idx)) [
          | inl wrapped ↦ rw (wrapped, length-write_block) wide
          | inr plain ↦ rw plain wide
        ]

    grow_cell :
        (i : ℕ)
        → i < count q
        → get_or (grow_values junk q vs) (slot grown i) z ≡ get_or vs (slot q i) z
    unfolding move_cells
    grow_cell i p =
        let bk = backed_some z q valid vs e in
        let old : slot q i < length vs = ground arith in
        let same = get_or-realloc_cells vs grown_size (slot q i) (omega arith) old in
        let ws = realloc_cells junk vs grown_size in
        let wide : length ws ≡ grown_size = length-realloc_cells junk vs grown_size (omega arith) in
        elim (Bool-cases (ltb q.after_tail_idx q.head_idx)) [
          | inr plain ↦
              let values : grow_values junk q vs ≡ ws = rw plain in
              let place : slot grown i ≡ slot q i = ground arith in
              ap₂ (λ us k. get_or us k z) values place ∙ same
          | inl wrapped ↦
              let moved = q.capacity - q.head_idx in
              let target = q.head_idx + (q.capacity / 2 + 2) in
              let block = take moved (drop q.head_idx ws) in
              let size : length block ≡ moved =
                omega (arith, length-take moved (drop q.head_idx ws), length-drop q.head_idx ws) in
              let values : grow_values junk q vs ≡ write_block ws target block = rw wrapped in
              let cell = λ (k : ℕ). get_or-write_block ws target block k z (omega arith) in
              elim (Bool-cases (ltb (q.head_idx + i) q.capacity)) [
                | inl front ↦
                    let place : slot grown i ≡ target + i = ground arith in
                    let back_to : q.head_idx + (target + i - target) ≡ slot q i = ground arith in
                    let from : leb target (target + i) ≡ true = ground arith in
                    let upto : ltb (target + i) (target + length block) ≡ true = ground arith in
                    let near : target + i - target < moved = ground arith in
                    ap₂ (λ us k. get_or us k z) values place
                    ∙ cell (target + i)
                    ∙ rw (from, upto)
                        (get_or-take moved (target + i - target) (drop q.head_idx ws) z near
                          ∙ get_or-drop q.head_idx (target + i - target) ws z
                          ∙ ap (λ k. get_or ws k z) back_to
                          ∙ same)
                | inr back ↦
                    let place : slot grown i ≡ slot q i = ground arith in
                    let before : leb target (slot q i) ≡ false = ground arith in
                    ap₂ (λ us k. get_or us k z) values place
                    ∙ cell (slot q i)
                    ∙ subst
                        (λ b.
                          (if b
                            then (if ltb (slot q i) (target + length block)
                                then get_or block (slot q i - target) z
                                else get_or ws (slot q i) z)
                            else get_or ws (slot q i) z)
                          ≡ get_or vs (slot q i) z)
                        (sym before) same
              ]
        ]

    grown-IsValid : alloc (grown_capacity q.capacity) ≡ true → IsValid grown
    grown-IsValid a =
        let n = grown_capacity_lem q.capacity valid.small in
        let wide = bounded (grown_capacity q.capacity) a in
        record {
          small = omega arith;
          head_in = ground arith;
          tail_in = omega arith;
          backed = (length-grow_values, omega arith);
        }

    contents-grown : contents z grown ≡ contents z q
    contents-grown =
        let bk = backed_some z q valid vs e in
        let same : count grown ≡ count q = ground arith in
        let all =
          tabulate_congr (λ i. get_or (grow_values junk q vs) (slot grown i) z)
            (λ i. get_or vs (slot q i) z) (count q) grow_cell in
        rw (e, same) all

    -- A full queue grows to one that is not full.
    grown-room : queue_is_full grown ≡ false
    unfolding queue_is_full
    grown-room =
        let bk = backed_some z q valid vs e in
        let e₁ : add_size q.after_tail_idx 1 ≡ q.after_tail_idx + 1 = omega arith in
        let e₂ : (q.after_tail_idx + 1) % grown_size ≡ q.after_tail_idx + 1 =
          mod-eq_of_lt (omega arith) in
        let e₃ : (grown_size == 0) ≡ false = ground arith in
        let e₄ : (q.after_tail_idx + 1 == grow_head q) ≡ false = ground arith in rw (e₃, e₁, e₂) e₄

    count-grown : count grown ≡ count q
    count-grown = let bk = backed_some z q valid vs e in ground arith

  queue_grow-none :
      (q : Queue A) → alloc (grown_capacity q.capacity) ≡ false → queue_grow z junk alloc q ≡ none
  unfolding queue_grow
  queue_grow-none q failed = rw failed

  -- The first growth, of a queue with no array.
  put_of_empty : (v : A) → PutResult z alloc empty_queue v (queue_put z junk alloc empty_queue v)
  unfolding queue_put queue_grow grown_capacity empty_queue
  put_of_empty v = elim (Bool-cases (alloc 2)) [
    | inl a ↦ rw a (
        appended 0 _
          (record {
            small = omega arith;
            head_in = omega arith;
            tail_in = omega arith;
            backed = omega arith;
          })
          refl refl)
    | inr failed ↦ rw failed (refused failed)
  ]

  empty_of_null : (q : Queue A) → IsValid q → q.values ≡ none → q ≡ empty_queue
  unfolding empty_queue
  empty_of_null q valid e = let bk : q.capacity ≡ 0 = rw e at valid.backed in ground arith

  put_of_null :
      (q : Queue A) (v : A)
      → IsValid q
      → q.values ≡ none
      → PutResult z alloc q v (queue_put z junk alloc q v)
  put_of_null q v valid e = rw (empty_of_null q valid e) (put_of_empty v)

  -- On a valid queue, with an allocator that gives no block of 2 ^ 61 cells or more, `queue_put` never
  -- aborts. It appends the value, at the index that it returns, and leaves a valid queue; or it fails,
  -- the allocator having refused, and leaves the queue alone.
  pub queue_put_lem :
      (q : Queue A) (v : A) → IsValid q → PutResult z alloc q v (queue_put z junk alloc q v)
  unfolding queue_put
  queue_put_lem q v valid = elim (Option-cases q.values) [
    | inl e ↦ put_of_null q v valid e
    | inr (vs, e) ↦ elim (Bool-cases (queue_is_full q)) [
      | inr room ↦
          let (r, run, ok, c, place) = put_value_lem z q valid vs e junk alloc v room in
          rw (room, run) (appended q.after_tail_idx r ok c place)
      | inl full ↦ elim (Bool-cases (alloc (grown_capacity q.capacity))) [
        | inr failed ↦ rw (full, queue_grow-none q failed) (refused failed)
        | inl a ↦
            let ok = grown-IsValid q vs valid e a in
            let grow = queue_grow-some z junk alloc bounded q vs valid e a in
            let (r, run, ok', c, place) =
              put_value_lem z (grown q vs valid e) ok (grow_values junk q vs) refl junk alloc v
                (grown-room q vs valid e) in
            rw (full, grow, grown-room q vs valid e, run)
              (appended q.after_tail_idx r ok'
                (c ∙ ap (λ us. us ++ (v ∷ [])) (contents-grown q vs valid e))
                (place ∙ ap (slot r) (count-grown q vs valid e)))
      ]
    ]
  ]
