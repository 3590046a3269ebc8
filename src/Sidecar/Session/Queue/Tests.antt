-- ===== src/Sidecar/Session/Queue/Tests.antt =====
-- The theorems at a concrete queue.
use your_connector.Common.{ℕ, ◌≡◌, refl, List, [], ◌∷◌, arith}
use your_connector.Common.HashMap
use your_connector.Common.HashMap.{HashMap}
use your_connector.Sidecar.Session.Queue.{
  chat, metrics, queue_key_eq, QueueScheduler, new, latest_wins_policy, fifo_policy, enqueue,
  pop_next, policy_for, or_policy,
}
use your_connector.Sidecar.Session.Queue.Spec.{Pending, offer, take, Refines}
use your_connector.Sidecar.Session.Queue.Enqueue.{enqueue-Refines}
use your_connector.Sidecar.Session.Queue.Pop.{pop_next-Refines}
use your_connector.Sidecar.Session.Queue.Runs.{
  Call, enqueues, pops, replies, spec_replies, replies-new,
}

-- one chat item in the queue, and one of metrics in its slot
abbrev scheduler : QueueScheduler ℕ
scheduler = record {
  default_policy = latest_wins_policy;
  policies = (chat, fifo_policy 2) ∷ [];
  latest = (metrics, 7) ∷ [];
  latest_order = metrics ∷ [];
  queue = (chat, 5) ∷ [];
  fifo_depth_by_key = (chat, 1) ∷ [];
}

abbrev pending : Pending ℕ
pending = record { queue = (chat, 5) ∷ []; slots = (metrics, 7) ∷ [] }

scheduler-Refines : Refines scheduler pending
unfolding HashMap.get
scheduler-Refines = record {
  queue = refl;
  order = refl;
  slots = λ k. refl;
  distinct = (refl, tt);
  depths = λ k. ground arith;
}

enqueue-Refines_example :
    Refines (enqueue scheduler chat 6).0 (offer (policy_for scheduler chat) pending chat 6).0
    × ((enqueue scheduler chat 6).1 ≡ (offer (policy_for scheduler chat) pending chat 6).1)
enqueue-Refines_example = enqueue-Refines scheduler pending chat 6 scheduler-Refines

pop_next-Refines_example :
    ((pop_next scheduler).0 ≡ (take pending).0) × Refines (pop_next scheduler).1 (take pending).1
pop_next-Refines_example = pop_next-Refines scheduler pending scheduler-Refines

abbrev calls : List (Call ℕ)
calls = enqueues chat 1 ∷ enqueues metrics 2 ∷ enqueues metrics 3 ∷ pops ∷ pops ∷ pops ∷ []

replies-new_example :
    replies (new latest_wins_policy ((chat, fifo_policy 2) ∷ [])) calls
    ≡ spec_replies
        (λ key. or_policy latest_wins_policy (HashMap.get key ((chat, fifo_policy 2) ∷ [])))
        (record { queue = []; slots = HashMap.empty })
        calls
replies-new_example = replies-new latest_wins_policy ((chat, fifo_policy 2) ∷ []) calls
