-- ===== src/Processing.antt =====
-- processing.h and processing.c: subscriptions to file descriptors, delayed calls and the passes
-- over the list of events.
pub mod Subscriptions
pub mod Delays
pub mod Loop
pub mod Iteration
use event_sequence_transform.Prelude.{
  ℕ, zero, suc, ◌+◌, ◌-◌, ◌/◌, ◌%◌, ◌^◌, Bool, true, false, Option, none, some, List, [], ◌∷◌, ◌++◌,
  ◌==◌, ltb, leb, if◌then◌else◌, length, get_or, set, take, replicate, ◌&&◌, ◌||◌, not,
}
use event_sequence_transform.Prelude.Int.{ℤ, pos, negsuc, ltb_ℤ}
use event_sequence_transform.Time.{
  AbsoluteTime, RelativeTime, absolute_time_cmp, absolute_time_sub_absolute, relative_time_cmp,
}
use event_sequence_transform.Time.Order.{later}
use event_sequence_transform.Event.{EventNode, Position}
use event_sequence_transform.Event.Store.{Store, Events}

-- `self` is the node to call; a callback that is NULL is `none`.
pub record IoHandling : Type 0 where
  pub self : ℕ
  pub handle_io : Option ℕ
  pub enabled : Bool

-- The blocks `fds` and `subscribers` as long as they are allocated. A subscriber is its number.
pub record IoSubscriptionList : Type 0 where
  pub length : ℕ
  pub capacity : ℕ
  pub fds : List ℕ
  pub subscribers : List (Option ℕ)

-- What `realloc` gives: the cells that fit, the new ones with any content.
abbrev pub resized {ℓ} : {A : Type ℓ} → A → ℕ → List A → List A
resized junk n xs = take n xs ++ replicate (n - length xs) junk

abbrev pub extended_capacity : ℕ → ℕ
extended_capacity capacity = (capacity + capacity / 2 + 1) % 2 ^ 64

-- `alloc_fds` and `alloc_subscribers` say whether a block of so many cells is given.
module _ (alloc_fds alloc_subscribers : ℕ → Bool) where
  pub io_subscription_list_extend : IoSubscriptionList → Bool × IoSubscriptionList
  io_subscription_list_extend lst =
      let capacity = extended_capacity lst.capacity in
      if not (alloc_fds capacity)
      then (false, lst)
      else let lst' = record lst { fds = resized 0 capacity lst.fds } in
        if not (alloc_subscribers capacity) then (false, lst') else (
          true,
          record lst' { subscribers = resized none capacity lst.subscribers; capacity = capacity },
        )

  pub io_subscription_list_init : ℕ → IoSubscriptionList
  io_subscription_list_init capacity = record {
    length = 0;
    capacity = if alloc_fds capacity && alloc_subscribers capacity then capacity else 0;
    fds = if alloc_fds capacity then replicate capacity 0 else [];
    subscribers = if alloc_subscribers capacity then replicate capacity none else [];
  }

  abbrev pub written : ℕ → Option ℕ → IoSubscriptionList → IoSubscriptionList
  written fd subscriber lst = record lst {
    length = lst.length + 1;
    fds = set lst.fds lst.length fd;
    subscribers = set lst.subscribers lst.length subscriber;
  }

  -- `none` is the exit of the program, or the failed assertion.
  pub io_subscription_list_add : ℕ → Option ℕ → IoSubscriptionList → Option IoSubscriptionList
  unfolding io_subscription_list_extend
  io_subscription_list_add fd subscriber lst =
      let extended =
        if leb lst.capacity lst.length then io_subscription_list_extend lst else (true, lst) in
      if not extended.0
      then none
      else if not (ltb extended.1.length extended.1.capacity)
      then none
      else some (written fd subscriber extended.1)

pub io_subscription_list_deinit : IoSubscriptionList → IoSubscriptionList
io_subscription_list_deinit lst = record { length = 0; capacity = 0; fds = []; subscribers = [] }

abbrev pub FdSet : Type 0
FdSet = ℕ → Bool

-- `handling` gives the struct that a subscriber points to.
module _ (handling : ℕ → IoHandling) where
  abbrev pub is_enabled : Option ℕ → Bool
  is_enabled none = false
  is_enabled (some s) = (handling s).enabled

  -- The loops over `i`, with `left` rounds to go.
  pub populate_from : IoSubscriptionList → ℕ → ℕ → FdSet → ℕ → FdSet × ℕ
  populate_from src zero i fds max_fd = (fds, max_fd)
  populate_from src (suc left) i fds max_fd =
      let fd = get_or src.fds i 0 in
      if is_enabled (get_or src.subscribers i none)
      then populate_from src left (i + 1) (λ n. (n == fd) || fds n)
          (if ltb max_fd fd then fd else max_fd)
      else populate_from src left (i + 1) fds max_fd

  pub populate_fd_set : IoSubscriptionList → ℕ → FdSet × ℕ
  unfolding populate_from
  populate_fd_set src old_max_fd = populate_from src src.length 0 (λ _. false) old_max_fd

  -- The calls in order: the callback, its node, the descriptor.
  pub handlers_from : FdSet → IoSubscriptionList → ℕ → ℕ → List (ℕ × ℕ × ℕ)
  handlers_from fds subs zero i = []
  handlers_from fds subs (suc left) i =
      let rest = handlers_from fds subs left (i + 1) in
      let fd = get_or subs.fds i 0 in
      if fds fd
      then (elim (get_or subs.subscribers i none) [
        | none ↦ rest
        | some s ↦ if not ((handling s).enabled) then rest else (elim ((handling s).handle_io) [
          | none ↦ rest
          | some callback ↦ (callback, (handling s).self, fd) ∷ rest
        ])
      ])
      else rest

  pub run_io_handlers : FdSet → IoSubscriptionList → List (ℕ × ℕ × ℕ)
  unfolding handlers_from
  run_io_handlers fds subs = handlers_from fds subs subs.length 0

-- A DelayList is the list of its entries. `callback` and `target` are numbers.
pub record Delay : Type 0 where
  pub callback : Option ℕ
  pub target : ℕ
  pub time : AbsoluteTime

pub insert_delay : Delay → List Delay → List Delay
unfolding later
insert_delay d [] = d ∷ []
insert_delay d (next ∷ ds) =
    if later next.time d.time then d ∷ next ∷ ds else next ∷ insert_delay d ds

-- `got` says whether `malloc` succeeds.
pub schedule_delay : Bool → Delay → List Delay → Bool × List Delay
unfolding insert_delay
schedule_delay got d wait_delay =
    if got then (true, insert_delay d wait_delay) else (false, wait_delay)

-- The entry to call, if one is taken off the list.
pub process_single_scheduled : AbsoluteTime → List Delay → Option Delay × List Delay
process_single_scheduled extern_time [] = (none, [])
process_single_scheduled extern_time (d ∷ ds) =
    if later d.time extern_time then (none, d ∷ ds) else (some d, ds)
