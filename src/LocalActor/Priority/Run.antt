-- ===== src/LocalActor/Priority/Run.antt =====
-- A priority aware actor (local_actor.cpp) and its senders, over any sequence of their steps.
use boost_actor.Common.{
  ℕ, ◌≡◌, refl, ap, subst, sym, ◌∙◌, Bool, true, List, [], ◌∷◌, Option, none, some, append_assoc,
}
use boost_actor.Mailbox.{SingleReaderQueue, enqueue}
use boost_actor.Mailbox.Fifo.{contents, IsOpen}
use boost_actor.Mailbox.Popping.{ready-IsOpen, enqueue_snoc}
use boost_actor.LocalActor.Priority.{next_message}
use boost_actor.LocalActor.Priority.Queue.{
  PriorityQueue, pop, push, sorted-snoc, sorted, IsPartitioned,
}
use boost_actor.LocalActor.Priority.Order.{pending, next_message-pop}

pub data Op : Type 0 where
  arrives : ℕ → Op
  takes : Op

-- A reply: the element taken; `fault` is a mailbox used against its preconditions.
pub data Reply : Type 0 where
  done fault : Reply
  took : Option ℕ → Reply

module _ (is_high_priority : ℕ → Bool) where
  unfoldable pub promised_run : PriorityQueue → List Op → List Reply
  promised_run q [] = []
  promised_run q (arrives a ∷ ops) = done ∷ promised_run (push is_high_priority q a) ops
  promised_run q (takes ∷ ops) = let (o, q') = pop q in took o ∷ promised_run q' ops

  pub run : SingleReaderQueue → List Op → List Reply
  run q [] = []
  run q (arrives a ∷ ops) = let (r, q') = enqueue q a in done ∷ run q' ops
  run q (takes ∷ ops) = elim (next_message is_high_priority true q) [
    | none ↦ fault ∷ []
    | some (o, q') ↦ took o ∷ run q' ops
  ]

  run_takes :
      (q q' : SingleReaderQueue) (o : Option ℕ) (ops : List Op)
      → next_message is_high_priority true q ≡ some (o, q')
      → run q (takes ∷ ops) ≡ took o ∷ run q' ops
  unfolding run
  run_takes q q' o ops e = rw (run, e) refl

  run_nil : (q : SingleReaderQueue) → run q [] ≡ []
  unfolding run
  run_nil q = refl

  run_arrives :
      (q : SingleReaderQueue) (a : ℕ) (ops : List Op)
      → run q (arrives a ∷ ops) ≡ done ∷ run (enqueue q a).1 ops
  unfolding run
  run_arrives q a ops = refl

  run_from :
      (ops : List Op) (q : SingleReaderQueue) (w : PriorityQueue)
      → IsOpen q
      → IsPartitioned is_high_priority q.cache.first
      → sorted is_high_priority (pending q) ≡ w
      → run q ops ≡ promised_run w ops
  unfolding promised_run
  run_from [] q w o part e = run_nil q
  run_from (arrives a ∷ ops) q w o part e =
      let (o', c, f) = enqueue_snoc q a o in
      run_arrives q a ops
      ∙ ap (◌∷◌ done) (
          run_from ops (enqueue q a).1 (push is_high_priority w a) (ready-IsOpen (enqueue q a).1 o')
            (subst (IsPartitioned is_high_priority) (sym (ap (λ c. c.first) f)) part)
            (ap (sorted is_high_priority) (
                rw (ap (λ c. c.first) f, c)
                  (sym (append_assoc q.cache.first (contents q) (a ∷ []))))
              ∙ sorted-snoc is_high_priority (pending q) a
              ∙ ap (λ v. push is_high_priority v a) e))
  run_from (takes ∷ ops) q w o part e =
      let (q', got, o', part', s, keep) = next_message-pop is_high_priority q o part in
      rw (run_takes q q' (pop (sorted is_high_priority (pending q))).0 ops got, ← e)
        (ap (λ r. took (pop (sorted is_high_priority (pending q))).0 ∷ r)
          (run_from ops q' _ o' part' s))

-- From an open mailbox whose cache keeps high priority in front, any sequence of senders that
-- enqueue and of the priority aware actor taking its next message gives the actor what a queue per
-- priority gives, high priority before low: none is lost or doubled, none overtakes another of its
-- priority, and the mailbox never faults.
pub run_by_priority :
    (is_high_priority : ℕ → Bool) (ops : List Op) (q : SingleReaderQueue)
    → IsOpen q
    → IsPartitioned is_high_priority q.cache.first
    → run is_high_priority q ops
      ≡ promised_run is_high_priority (sorted is_high_priority (pending q)) ops
run_by_priority p ops q o part = run_from p ops q (sorted p (pending q)) o part refl
