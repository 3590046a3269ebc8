-- ===== src/Sidecar/Session/Queue/Runs.antt =====
-- What a client of the scheduler sees of a sequence of calls.
use your_connector.Common.{ℕ, ◌≡◌, refl, ◌∙◌, Option, List, [], ◌∷◌, arith}
use your_connector.Common.HashMap
use your_connector.Common.HashMap.{HashMap}
use your_connector.Sidecar.Session.Queue.{
  QueueKey, queue_key_eq, QueuePolicy, QueueSemantics, latest_wins, serialized, fifo,
  QueueScheduler, new, or_policy, policy_for, enqueue_latest, enqueue_fifo, enqueue, pop_latest,
  pop_queue, pop_next,
}
use your_connector.Sidecar.Session.Queue.Spec.{Pending, offer, take, Refines}
use your_connector.Sidecar.Session.Queue.Enqueue.{enqueue-Refines}
use your_connector.Sidecar.Session.Queue.Pop.{pop_next-Refines}

pub data Call (T : Type 0) : Type 0 where
  enqueues : QueueKey → T → Call T
  pops : Call T

pub data Reply (T : Type 0) : Type 0 where
  dropped : ℕ → Reply T
  popped : Option (QueueKey × T) → Reply T

module _ {T : Type 0} where
  unfoldable pub replies : QueueScheduler T → List (Call T) → List (Reply T)
  replies q [] = []
  replies q (enqueues key item ∷ calls) =
      let (q', n) = enqueue q key item in dropped n ∷ replies q' calls
  replies q (pops ∷ calls) = let (served, q') = pop_next q in popped served ∷ replies q' calls

  -- the same on the specification, under fixed policies
  unfoldable pub spec_replies :
      (QueueKey → QueuePolicy) → Pending T → List (Call T) → List (Reply T)
  spec_replies policies a [] = []
  spec_replies policies a (enqueues key item ∷ calls) =
      let (a', n) = offer (policies key) a key item in dropped n ∷ spec_replies policies a' calls
  spec_replies policies a (pops ∷ calls) =
      let (served, a') = take a in popped served ∷ spec_replies policies a' calls

  -- `q` has the policies of `p`
  abbrev SamePolicies : QueueScheduler T → QueueScheduler T → Type 0
  SamePolicies p q = (q.default_policy ≡ p.default_policy) × (q.policies ≡ p.policies)

  enqueue_latest-SamePolicies :
      (q : QueueScheduler T) (key : QueueKey) (item : T)
      → SamePolicies q (enqueue_latest q key item).0
  unfolding enqueue_latest
  enqueue_latest-SamePolicies q key item = ground arith

  enqueue_fifo-SamePolicies :
      (q : QueueScheduler T) (limit : ℕ) (key : QueueKey) (item : T)
      → SamePolicies q (enqueue_fifo q limit key item).0
  unfolding enqueue_fifo
  enqueue_fifo-SamePolicies q limit key item = ground arith

  abbrev SameAfter : QueueScheduler T → QueueScheduler T × ℕ → Type 0
  SameAfter q r = SamePolicies q r.0

  by_semantics :
      (q : QueueScheduler T) (key : QueueKey) (item : T) (limit : ℕ) (s : QueueSemantics)
      → SameAfter q (elim s [
        | latest_wins ↦ enqueue_latest q key item
        | serialized ↦ enqueue_fifo q limit key item
        | fifo ↦ enqueue_fifo q limit key item
      ])
  by_semantics q key item limit latest_wins = enqueue_latest-SamePolicies q key item
  by_semantics q key item limit serialized = enqueue_fifo-SamePolicies q limit key item
  by_semantics q key item limit fifo = enqueue_fifo-SamePolicies q limit key item

  enqueue-SamePolicies :
      (q : QueueScheduler T) (key : QueueKey) (item : T) → SamePolicies q (enqueue q key item).0
  unfolding enqueue
  enqueue-SamePolicies q key item =
      by_semantics q key item (policy_for q key).max_pending (policy_for q key).semantics

  pop_latest-SamePolicies :
      (q : QueueScheduler T) (order : List QueueKey) → SamePolicies q (pop_latest q order).1
  unfolding pop_latest
  pop_latest-SamePolicies q [] = (refl, refl)
  pop_latest-SamePolicies q (key ∷ order) = ground (arith, pop_latest-SamePolicies q order)

  pop_queue-SamePolicies :
      (q : QueueScheduler T) (queue : List (QueueKey × T)) → SamePolicies q (pop_queue q queue).1
  unfolding pop_queue
  pop_queue-SamePolicies q [] = pop_latest-SamePolicies q q.latest_order
  pop_queue-SamePolicies q ((key, item) ∷ rest) = (refl, refl)

  pop_next-SamePolicies : (q : QueueScheduler T) → SamePolicies q (pop_next q).1
  unfolding pop_next
  pop_next-SamePolicies q = pop_queue-SamePolicies q q.queue

  policy_for_same :
      (p q : QueueScheduler T) (key : QueueKey)
      → SamePolicies p q
      → policy_for q key ≡ policy_for p key
  unfolding policy_for
  policy_for_same p q key (d, m) = rw (d, m)

  replies_from :
      (p q : QueueScheduler T) (a : Pending T) (calls : List (Call T))
      → SamePolicies p q
      → Refines q a
      → replies q calls ≡ spec_replies (policy_for p) a calls
  unfolding replies spec_replies
  replies_from p q a [] same h = refl
  replies_from p q a (enqueues key item ∷ calls) (d, m) h =
      let (after, count) = enqueue-Refines q a key item h in
      let (d', m') = enqueue-SamePolicies q key item in
      rw (
        count,
        replies_from p (enqueue q key item).0 _ calls (d' ∙ d, m' ∙ m) after,
        policy_for_same p q key (d, m),
      )
  replies_from p q a (pops ∷ calls) (d, m) h =
      let (served, after) = pop_next-Refines q a h in
      let (d', m') = pop_next-SamePolicies q in
      rw (served, replies_from p (pop_next q).1 _ calls (d' ∙ d, m' ∙ m) after)

  -- A new scheduler answers every sequence of calls as the specification with its policies does.
  pub replies-new :
      (default_policy : QueuePolicy) (policies : HashMap QueueKey QueuePolicy)
      (calls : List (Call T))
      → replies (new default_policy policies) calls
        ≡ spec_replies
            (λ key. or_policy default_policy (HashMap.get key policies))
            (record { queue = []; slots = HashMap.empty })
            calls
  unfolding policy_for HashMap.get
  replies-new default_policy policies calls =
      replies_from (new default_policy policies) (new default_policy policies) _ calls (refl, refl)
        (record {
          queue = refl;
          order = refl;
          slots = λ k. refl;
          distinct = tt;
          depths = λ k. refl;
        })
