-- ===== src/Sidecar/Session/Details/Pending.antt =====
-- What is pending in the scheduler of details, and how the calls on it change that.
use your_connector.Common.{
  ◌≡◌, refl, false, Option, none, some, List, [], ◌∷◌, ◌++◌, ◌∙◌, ==_refl, ◌==◌, Option-cases, inl,
  inr,
}
use your_connector.Common.HashMap
use your_connector.Common.HashMap.{HashMap, get-insert, get-remove}
use your_connector.Sidecar.Session.Details.{DetailsRefreshIntent, add_dropped, enqueue_counted}
use your_connector.Sidecar.Session.Queue.{
  QueueKey, tool_details, tools_refresh, metrics, pairing_banner, control, chat, report,
  queue_key_eq, latest_wins_policy, QueueScheduler, policy_for, enqueue, enqueue_latest, pop_latest,
  pop_queue, pop_next, update_latest,
}

abbrev pub Scheduler : Type 0
Scheduler = QueueScheduler DetailsRefreshIntent

abbrev pub pending : Scheduler → Option DetailsRefreshIntent
pending q = HashMap.get tool_details q.latest

-- The details are queued by the latest intent, and nothing waits in the other queue.
pub record IsReady (q : Scheduler) : Type 0 where
  pub policy : policy_for q tool_details ≡ latest_wins_policy
  pub queue : q.queue ≡ []

-- what is pending after `enqueue_counted`
abbrev pub counted : Option DetailsRefreshIntent → DetailsRefreshIntent → DetailsRefreshIntent
counted none i = i
counted (some old) i = add_dropped 1 i

enqueue_ready :
    (q : Scheduler) (i : DetailsRefreshIntent)
    → IsReady q
    → enqueue q tool_details i ≡ enqueue_latest q tool_details i
unfolding enqueue
enqueue_ready q i ready = rw (enqueue, ready.policy) refl

enqueue_free :
    (q : Scheduler) (i : DetailsRefreshIntent)
    → IsReady q
    → pending q ≡ none
    → enqueue_counted q i ≡ record q {
      latest_order = q.latest_order ++ tool_details ∷ [];
      latest = HashMap.insert tool_details i q.latest;
    }
unfolding enqueue_counted enqueue_latest
enqueue_free q i ready free = rw (enqueue_ready q i ready, free) refl

update_present :
    (q : Scheduler) (f : DetailsRefreshIntent → DetailsRefreshIntent) (i : DetailsRefreshIntent)
    → pending q ≡ some i
    → update_latest q tool_details f
      ≡ record q { latest = HashMap.insert tool_details (f i) q.latest }
unfolding update_latest
update_present q f i waiting = rw (update_latest, waiting) refl

enqueue_over :
    (q : Scheduler) (i old : DetailsRefreshIntent)
    → IsReady q
    → pending q ≡ some old
    → enqueue_counted q i ≡ record q {
      latest =
          HashMap.insert tool_details (add_dropped 1 i) (HashMap.insert tool_details i q.latest);
    }
unfolding enqueue_counted enqueue_latest update_latest
enqueue_over q i old ready waiting =
    rw (enqueue_ready q i ready, waiting)
      (update_present (record q { latest = HashMap.insert tool_details i q.latest }) (add_dropped 1)
        i (get-insert tool_details tool_details i q.latest ∙ rw (==_refl tool_details) refl))

pub enqueue_counted-pending :
    (q : Scheduler) (i : DetailsRefreshIntent)
    → IsReady q
    → (pending (enqueue_counted q i) ≡ some (counted (pending q) i)) × IsReady (enqueue_counted q i)
unfolding policy_for queue_key_eq
enqueue_counted-pending q i ready = elim (Option-cases (pending q)) [
  | inl free ↦
      rw (enqueue_free q i ready free, get-insert tool_details tool_details i q.latest, free)
        (refl, record { policy = ready.policy; queue = ready.queue })
  | inr (old, waiting) ↦
      rw
        (
          enqueue_over q i old ready waiting,
          get-insert tool_details tool_details (add_dropped 1 i)
              (HashMap.insert tool_details i q.latest),
          waiting,
        )
        (refl, record { policy = ready.policy; queue = ready.queue })
]

-- what `pop_latest` does to the intent that is pending
pub data IsPopped (q : Scheduler)
    : Option (QueueKey × DetailsRefreshIntent) × Scheduler → Type 0 where
  nothing :
      (after : Scheduler) → pending after ≡ pending q → IsReady after → IsPopped q (none, after)
  details :
      (intent : DetailsRefreshIntent) (after : Scheduler)
      → pending q ≡ some intent
      → pending after ≡ none
      → IsReady after
      → IsPopped q (some (tool_details, intent), after)
  another :
      (key : QueueKey) (intent : DetailsRefreshIntent) (after : Scheduler)
      → key == tool_details ≡ false
      → pending after ≡ pending q
      → IsReady after
      → IsPopped q (some (key, intent), after)

popped :
    (q : Scheduler) (key : QueueKey) (order : List QueueKey) (item : DetailsRefreshIntent)
    → IsReady q
    → HashMap.get key q.latest ≡ some item
    → IsPopped q
        (some (key, item), record q { latest_order = order; latest = HashMap.remove key q.latest })
unfolding policy_for queue_key_eq
popped q tool_details order item ready waiting =
    details item _ waiting (get-remove tool_details tool_details q.latest)
      (record { policy = ready.policy; queue = ready.queue })
popped q tools_refresh order item ready waiting =
    another tools_refresh item _ refl (get-remove tool_details tools_refresh q.latest)
      (record { policy = ready.policy; queue = ready.queue })
popped q metrics order item ready waiting =
    another metrics item _ refl (get-remove tool_details metrics q.latest)
      (record { policy = ready.policy; queue = ready.queue })
popped q pairing_banner order item ready waiting =
    another pairing_banner item _ refl (get-remove tool_details pairing_banner q.latest)
      (record { policy = ready.policy; queue = ready.queue })
popped q control order item ready waiting =
    another control item _ refl (get-remove tool_details control q.latest)
      (record { policy = ready.policy; queue = ready.queue })
popped q chat order item ready waiting =
    another chat item _ refl (get-remove tool_details chat q.latest)
      (record { policy = ready.policy; queue = ready.queue })
popped q report order item ready waiting =
    another report item _ refl (get-remove tool_details report q.latest)
      (record { policy = ready.policy; queue = ready.queue })

pop_latest-IsPopped :
    (q : Scheduler) (order : List QueueKey) → IsReady q → IsPopped q (pop_latest q order)
unfolding pop_latest policy_for
pop_latest-IsPopped q [] ready =
    nothing _ refl (record { policy = ready.policy; queue = ready.queue })
pop_latest-IsPopped q (key ∷ order) ready = elim (Option-cases (HashMap.get key q.latest)) [
  | inl gone ↦ rw (pop_latest, gone) (pop_latest-IsPopped q order ready)
  | inr (item, waiting) ↦ rw (pop_latest, waiting) (popped q key order item ready waiting)
]

pub pop_next-IsPopped : (q : Scheduler) → IsReady q → IsPopped q (pop_next q)
unfolding pop_next pop_queue
pop_next-IsPopped q ready = from_queue q.queue ready.queue
  where
    from_queue :
        (queue : List (QueueKey × DetailsRefreshIntent))
        → queue ≡ []
        → IsPopped q (pop_queue q queue)
    from_queue [] empty = pop_latest-IsPopped q q.latest_order ready
    from_queue (entry ∷ queue) empty = cc
