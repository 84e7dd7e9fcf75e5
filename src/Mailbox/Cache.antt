-- ===== src/Mailbox/Cache.antt =====
-- libboost_actor_core/boost/actor/detail/intrusive_partitioned_list.hpp: the owner's cache, a
-- doubly linked list cut in two by a separator. A partition is the list between two of the
-- sentinels `head_`, `separator_` and `tail_`.
pub mod Invoke
use boost_actor.Common.{
  ℕ, zero, suc, ◌≡◌, arith, ◌+◌, ◌-◌, Bool, true, false, ◌&&◌, List, [], ◌∷◌, ◌++◌, Option, none,
  some, null, length, min,
}

pub record IntrusivePartitionedList : Type 0 where
  pub first : List ℕ
  pub second : List ℕ

unfoldable pub init : IntrusivePartitionedList
init = record { first = []; second = [] }

pub push_first_back : IntrusivePartitionedList → ℕ → IntrusivePartitionedList
push_first_back c val = record c { first = c.first ++ val ∷ [] }

pub push_second_back : IntrusivePartitionedList → ℕ → IntrusivePartitionedList
push_second_back c val = record c { second = c.second ++ val ∷ [] }

unfoldable pub empty : IntrusivePartitionedList → Bool
empty c = null c.first && null c.second

-- `count(first, last, max_count)`
count_range : List ℕ → ℕ → ℕ
count_range [] max_count = 0
count_range (x ∷ xs) zero = 0
count_range (x ∷ xs) (suc max_count) = suc (count_range xs max_count)

unfoldable pub count : IntrusivePartitionedList → ℕ → ℕ
unfolding count_range
count c max_count =
    let r1 = count_range c.first max_count in r1 + count_range c.second (max_count - r1)

count_range-min : (xs : List ℕ) (m : ℕ) → count_range xs m ≡ min (length xs) m
unfolding count_range
count_range-min [] m = omega arith
count_range-min (x ∷ xs) zero = omega arith
count_range-min (x ∷ xs) (suc m) = omega (arith, count_range-min xs m)

-- The count of both partitions, cut off at the limit.
pub count-min :
    (c : IntrusivePartitionedList) (m : ℕ) → count c m ≡ min (length c.first + length c.second) m
unfolding count
count-min c m =
    omega (arith, count_range-min c.first m, count_range-min c.second (m - count_range c.first m))

-- `clear(f)`: the elements that `f` is called with, in that order, and the list left behind.
unfoldable pub clear : IntrusivePartitionedList → List ℕ × IntrusivePartitionedList
unfolding init
clear c = (c.first ++ c.second, init)

-- invoke_message_result.hpp. `skipped false` is a skipped message whose pointer was moved out.
pub data InvokeMessageResult : Type 0 where
  im_success im_dropped : InvokeMessageResult
  im_skipped : Bool → InvokeMessageResult

-- `invoke` over one partition: what `invoke_message` says of each element is given by `self`,
-- whose state is passed on. The result, the elements left in the partition, and the state.
unfoldable pub invoke {ℓ} :
    {S : Type ℓ} → (S → ℕ → InvokeMessageResult × S) → S → List ℕ → Bool × List ℕ × S
invoke self s [] = (false, [], s)
invoke self s (x ∷ xs) =
    let (r, s') = self s x in
    let rest = invoke self s' xs in
    elim r [
      | im_success ↦ (true, xs, s')
      | im_dropped ↦ rest
      | im_skipped kept ↦ elim kept [ true ↦ (rest.0, x ∷ rest.1, rest.2) | false ↦ rest ]
    ]
