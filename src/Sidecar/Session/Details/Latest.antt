-- ===== src/Sidecar/Session/Details/Latest.antt =====
-- Which refresh of the details is waiting.
use your_connector.Common.{
  ◌≤◌, ◌≡◌, refl, sym, ap, Bool, Option, none, some, List, [], ◌∷◌, String, ◌∙◌, ==_refl, arith,
}
use your_connector.Common.HashMap
use your_connector.Common.HashMap.{HashMap, get-insert, get-remove}
use your_connector.Sidecar.Control.{ToolDetailsRefreshPriority}
use your_connector.Sidecar.Session.Command.Context.{ToolDetailsSnapshotTrigger}
use your_connector.Sidecar.Session.Details.{
  DetailsRefreshIntent, add_u64, Details, enqueue_counted, enqueue_details_refresh, TrySend, sent,
  full, closed, dispatch_popped, dispatch_details_refresh, default_queue_policies,
}
use your_connector.Sidecar.Session.Queue.{
  QueueKey, tool_details, queue_key_eq, QueuePolicy, new, policy_for, pop_next,
}
use your_connector.Sidecar.Session.Details.Pending.{
  Scheduler, pending, IsReady, counted, enqueue_counted-pending, IsPopped, nothing, details,
  another, pop_next-IsPopped,
}

-- The pending intent is the one made last, and it has replaced one at most by its own count.
record IsLatest (d : Details) : Type 0 where
  ready : IsReady d.scheduler
  waits :
      (i : DetailsRefreshIntent)
      → pending d.scheduler ≡ some i
      → (i.generation ≡ d.latest_generation) × (i.dropped_refreshes ≤ 1)

-- what a session does with the details
pub data DetailsStep : Type 0 where
  enqueues :
      Option String
      → Bool
      → Option String
      → ToolDetailsRefreshPriority
      → ToolDetailsSnapshotTrigger
      → DetailsStep
  dispatches : TrySend → DetailsStep

unfoldable pub details_step : DetailsStep → Details → Details
details_step (enqueues tool_id force refresh_id priority trigger) d =
    enqueue_details_refresh tool_id force refresh_id priority trigger d
details_step (dispatches try_send) d = record d {
  scheduler = (dispatch_details_refresh try_send d.scheduler).1;
}

counted_intent :
    (old : Option DetailsRefreshIntent) (i j : DetailsRefreshIntent)
    → i.dropped_refreshes ≡ 0
    → some (counted old i) ≡ some j
    → (j.generation ≡ i.generation) × (j.dropped_refreshes ≤ 1)
counted_intent none i j fresh same = ground (arith, fresh, same)
counted_intent (some old) i j fresh same = ground (arith, fresh, same)

enqueues-IsLatest :
    (tool_id : Option String) (force : Bool) (refresh_id : Option String)
    (priority : ToolDetailsRefreshPriority) (trigger : ToolDetailsSnapshotTrigger) (d : Details)
    → IsLatest d
    → IsLatest (enqueue_details_refresh tool_id force refresh_id priority trigger d)
unfolding enqueue_details_refresh
enqueues-IsLatest tool_id force refresh_id priority trigger d latest =
    let i : DetailsRefreshIntent = record {
      generation = add_u64 d.latest_generation 1;
      target_tool_id = tool_id;
      force = force;
      refresh_id = refresh_id;
      priority = priority;
      trigger = trigger;
      dropped_refreshes = 0;
    } in
    let (now, ready) = enqueue_counted-pending d.scheduler i latest.ready in
    record {
      ready = ready;
      waits = λ j waiting. counted_intent (pending d.scheduler) i j refl (sym now ∙ waiting);
    }

-- an intent that comes back, since the worker is busy, is the one that was pending
back-IsLatest :
    (d : Details) (intent : DetailsRefreshIntent) (after : Scheduler)
    → IsLatest d
    → pending d.scheduler ≡ some intent
    → pending after ≡ none
    → IsReady after
    → IsLatest (record d { scheduler = enqueue_counted after intent })
back-IsLatest d intent after latest waited gone ready =
    let (now, still) = enqueue_counted-pending after intent ready in
    record {
      ready = still;
      waits = λ j waiting.
          latest.waits j (waited ∙ sym (now ∙ ap (λ o. some (counted o intent)) gone) ∙ waiting);
    }

gone-IsLatest :
    (d : Details) (after : Scheduler)
    → pending after ≡ none
    → IsReady after
    → IsLatest (record d { scheduler = after })
gone-IsLatest d after gone ready = record { ready = ready; waits = λ j waiting. absurd cc }

dispatches-IsLatest :
    (try_send : TrySend) (d : Details)
    → IsLatest d
    → IsLatest (record d { scheduler = (dispatch_details_refresh try_send d.scheduler).1 })
unfolding dispatch_details_refresh
dispatches-IsLatest try_send d latest =
    by_outcome try_send (pop_next d.scheduler) (pop_next-IsPopped d.scheduler latest.ready)
  where
    by_outcome :
        (t : TrySend) (p : Option (QueueKey × DetailsRefreshIntent) × Scheduler)
        → IsPopped d.scheduler p
        → IsLatest (record d { scheduler = (dispatch_popped t p).1 })
    by_outcome t p (nothing after same ready) = record {
      ready = ready;
      waits = λ i waiting. latest.waits i (sym same ∙ waiting);
    }
    by_outcome t p (another key intent after other same ready) =
        rw other
          (record { ready = ready; waits = λ i waiting. latest.waits i (sym same ∙ waiting) })
    by_outcome sent p (details intent after waited gone ready) =
        rw (==_refl tool_details) (gone-IsLatest d after gone ready)
    by_outcome full p (details intent after waited gone ready) =
        rw (==_refl tool_details) (back-IsLatest d intent after latest waited gone ready)
    by_outcome closed p (details intent after waited gone ready) =
        rw (==_refl tool_details) (gone-IsLatest d after gone ready)

unfoldable pub details_steps : List DetailsStep → Details → Details
unfolding details_step
details_steps [] d = d
details_steps (c ∷ more) d = details_steps more (details_step c d)

details_steps-IsLatest :
    (list : List DetailsStep) (d : Details) → IsLatest d → IsLatest (details_steps list d)
unfolding details_steps
details_steps-IsLatest [] d latest = latest
details_steps-IsLatest (enqueues tool_id force refresh_id priority trigger ∷ more) d latest =
    details_steps-IsLatest more _
      (enqueues-IsLatest tool_id force refresh_id priority trigger d latest)
details_steps-IsLatest (dispatches try_send ∷ more) d latest =
    details_steps-IsLatest more _ (dispatches-IsLatest try_send d latest)

-- the state in which a session starts
abbrev pub start_details : QueuePolicy → Details
start_details default_policy = record {
  scheduler = new default_policy default_queue_policies;
  latest_generation = 0;
}

start_details-IsLatest : (default_policy : QueuePolicy) → IsLatest (start_details default_policy)
unfolding policy_for queue_key_eq HashMap.get
start_details-IsLatest default_policy = record {
  ready = record { policy = refl; queue = refl };
  waits = λ i waiting. absurd cc;
}

-- In a session, after any requests to collect the details and any dispatches, whatever the worker's
-- channel did: the one request that waits, if one does, is the one made last, and it counts at most
-- one request that it has replaced, however many were.
pub latest_waits :
    (default_policy : QueuePolicy) (list : List DetailsStep) (i : DetailsRefreshIntent)
    → pending (details_steps list (start_details default_policy)).scheduler ≡ some i
    → (i.generation ≡ (details_steps list (start_details default_policy)).latest_generation)
      × (i.dropped_refreshes ≤ 1)
latest_waits default_policy list i waiting =
    (details_steps-IsLatest list _ (start_details-IsLatest default_policy)).waits i waiting
