-- ===== src/Processing/Subscriptions.antt =====
-- The subscriptions as a sequence of pairs, and `io_subscription_list_add` of processing.c.
use event_sequence_transform.Prelude.{
  ℕ, suc, ◌+◌, ◌-◌, ◌/◌, ◌^◌, ◌≤◌, ◌<◌, ◌≡◌, Bool, true, Option, none, some, List, [], ◌∷◌, ◌++◌,
  refl, ap, ap₂, ◌∙◌, arith, length, Bool-cases, inl, inr, ltb, leb, get_or, set, take, replicate,
  tabulate, tabulate-snoc, tabulate_congr, get_or-set, get_or-take, get_or-append, length-set,
  length-take, length-replicate, length-append,
}
use native.Mathlib.Nat.{mod-eq_of_lt}
use event_sequence_transform.Processing.{
  IoSubscriptionList, resized, written, extended_capacity, io_subscription_list_extend,
  io_subscription_list_add,
}

abbrev pub entry : List ℕ → List (Option ℕ) → ℕ → ℕ × Option ℕ
entry fds subscribers i = (get_or fds i 0, get_or subscribers i none)

-- What is subscribed, in order: the descriptor and the subscriber.
abbrev pub entries : IoSubscriptionList → List (ℕ × Option ℕ)
entries lst = tabulate (entry lst.fds lst.subscribers) lst.length

-- Both blocks have the cells that `capacity` says.
pub record IsValid (lst : IoSubscriptionList) : Type 0 where
  pub bounded : lst.length ≤ lst.capacity
  pub has_fds : lst.capacity ≤ length lst.fds
  pub has_subscribers : lst.capacity ≤ length lst.subscribers

pub record HasRoom (lst : IoSubscriptionList) : Type 0 where
  valid : IsValid lst
  room : lst.length < lst.capacity

get_or-resized {ℓ} :
    {A : Type ℓ} (junk d : A) (n i : ℕ) (xs : List A)
    → i < n
    → i < length xs
    → get_or (resized junk n xs) i d ≡ get_or xs i d
get_or-resized junk d n i xs in_new in_old =
    let kept : i < length (take n xs) = omega (arith, length-take n xs) in
    get_or-append (take n xs) (replicate (n - length xs) junk) i d kept
    ∙ get_or-take n i xs d in_new

length-resized {ℓ} : {A : Type ℓ} (junk : A) (n : ℕ) (xs : List A) → length (resized junk n xs) ≡ n
length-resized junk n xs = omega (
  arith,
  length-append (take n xs) (replicate (n - length xs) junk),
  length-take n xs,
  length-replicate (n - length xs) junk,
)

pub written-entries :
    (alloc_fds alloc_subscribers : ℕ → Bool) (fd : ℕ) (subscriber : Option ℕ)
    (lst : IoSubscriptionList)
    → HasRoom lst
    → IsValid (written alloc_fds alloc_subscribers fd subscriber lst)
      × (entries (written alloc_fds alloc_subscribers fd subscriber lst)
          ≡ entries lst ++ ((fd, subscriber) ∷ []))
written-entries alloc_fds alloc_subscribers fd subscriber lst h =
    let n = lst.length in
    let in_fds : n < length lst.fds = omega (arith, h.room, h.valid.has_fds) in
    let in_subscribers : n < length lst.subscribers =
      omega (arith, h.room, h.valid.has_subscribers) in
    let next : n + 1 ≡ suc n = omega arith in
    let new_fds = set lst.fds n fd in
    let new_subscribers = set lst.subscribers n subscriber in
    let last_fd : get_or new_fds n 0 ≡ fd = ground (arith, get_or-set lst.fds n n fd 0 in_fds) in
    let last_subscriber : get_or new_subscribers n none ≡ subscriber =
      ground (arith, get_or-set lst.subscribers n n subscriber none in_subscribers) in
    (
      record {
        bounded = omega (arith, h.room);
        has_fds = omega (arith, h.valid.has_fds, length-set lst.fds n fd);
        has_subscribers =
            omega (arith, h.valid.has_subscribers, length-set lst.subscribers n subscriber);
      },
      ap (tabulate (entry new_fds new_subscribers)) next
          ∙ tabulate-snoc (entry new_fds new_subscribers) n
          ∙ ap₂ ◌++◌
              (tabulate_congr (entry new_fds new_subscribers) (entry lst.fds lst.subscribers) n
                (λ i p.
                  ap₂ (λ a b. (a, b)) (ground (arith, get_or-set lst.fds n i fd 0 in_fds))
                    (ground
                      (arith, get_or-set lst.subscribers n i subscriber none in_subscribers))))
              (ap (λ e. e ∷ []) (ap₂ (λ a b. (a, b)) last_fd last_subscriber)),
    )

module _ (alloc_fds alloc_subscribers : ℕ → Bool) (lst : IoSubscriptionList) (valid : IsValid lst)
    (small : lst.capacity + lst.capacity / 2 + 1 < 2 ^ 64) where
  abbrev extended : IoSubscriptionList
  extended = record {
    length = lst.length;
    capacity = extended_capacity lst.capacity;
    fds = resized 0 (extended_capacity lst.capacity) lst.fds;
    subscribers = resized none (extended_capacity lst.capacity) lst.subscribers;
  }

  extended_capacity_lem : extended_capacity lst.capacity ≡ lst.capacity + lst.capacity / 2 + 1
  extended_capacity_lem = mod-eq_of_lt small

  extended-HasRoom : HasRoom extended
  extended-HasRoom =
      let more = extended_capacity_lem in
      record {
        valid = record {
          bounded = omega (arith, valid.bounded);
          has_fds = omega (arith, length-resized 0 (extended_capacity lst.capacity) lst.fds);
          has_subscribers = omega (
            arith,
            length-resized {A = Option ℕ} none (extended_capacity lst.capacity) lst.subscribers,
          );
        };
        room = omega (arith, valid.bounded);
      }

  entries-extended : entries extended ≡ entries lst
  entries-extended =
      let more = extended_capacity_lem in
      tabulate_congr (entry extended.fds extended.subscribers) (entry lst.fds lst.subscribers)
        lst.length
        (λ i p.
          let fits : i < extended_capacity lst.capacity = omega (arith, valid.bounded) in
          ap₂ (λ a b. (a, b))
            (get_or-resized 0 0 (extended_capacity lst.capacity) i lst.fds fits
              (omega (arith, valid.bounded, valid.has_fds)))
            (get_or-resized none none (extended_capacity lst.capacity) i lst.subscribers fits
              (omega (arith, valid.bounded, valid.has_subscribers))))

  extended_lem :
      alloc_fds (extended_capacity lst.capacity) ≡ true
      → alloc_subscribers (extended_capacity lst.capacity) ≡ true
      → io_subscription_list_extend alloc_fds alloc_subscribers lst ≡ (true, extended)
  unfolding io_subscription_list_extend
  extended_lem got got' = rw (got, got') refl

  -- `io_subscription_list_add` with memory, on a valid list whose next capacity is below 2^64,
  -- appends one entry and keeps the list valid.
  pub io_subscription_list_add_lem :
      (fd : ℕ) (subscriber : Option ℕ)
      → alloc_fds (extended_capacity lst.capacity) ≡ true
      → alloc_subscribers (extended_capacity lst.capacity) ≡ true
      → (lst' : IoSubscriptionList) × (io_subscription_list_add alloc_fds alloc_subscribers fd
            subscriber lst
          ≡ some lst')
        × IsValid lst'
        × (entries lst' ≡ entries lst ++ ((fd, subscriber) ∷ []))
  unfolding io_subscription_list_add
  io_subscription_list_add_lem fd subscriber got got' =
      elim (Bool-cases (leb lst.capacity lst.length)) [
        | inl full ↦
            let extends = extended_lem got got' in
            let more = extended_capacity_lem in
            let fits : ltb lst.length (extended_capacity lst.capacity) ≡ true =
              ground (arith, valid.bounded) in
            let (keeps, adds) =
              written-entries alloc_fds alloc_subscribers fd subscriber extended extended-HasRoom in
            (
              written alloc_fds alloc_subscribers fd subscriber extended,
              rw (full, extends, fits) refl,
              keeps,
              adds ∙ ap (λ es. es ++ ((fd, subscriber) ∷ [])) entries-extended,
            )
        | inr space ↦
            let fits : ltb lst.length lst.capacity ≡ true = ground arith in
            let (keeps, adds) =
              written-entries alloc_fds alloc_subscribers fd subscriber lst
                (record { valid = valid; room = ground arith }) in
            (
              written alloc_fds alloc_subscribers fd subscriber lst,
              rw (space, fits) refl,
              keeps,
              adds,
            )
      ]
