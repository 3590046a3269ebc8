-- ===== src/Sidecar/Session/Queue/Spec.antt =====
-- What the scheduler promises: a bounded queue that is served first, and behind it one slot for each
-- key whose latest item wins, in the order in which the slots were taken.
use your_connector.Common.{
  ℕ, ◌+◌, ◌≡◌, ◌&&◌, Option, none, some, is_some, List, [], ◌∷◌, ◌++◌, ltb, leb, eqb, if◌then◌else◌,
}
use your_connector.Common.HashMap
use your_connector.Common.HashMap.{HashMap}
use your_connector.Sidecar.Session.Queue.{
  QueueKey, queue_key_eq, QueuePolicy, latest_wins, serialized, fifo, QueueScheduler,
}
use your_connector.Sidecar.Session.Queue.Keys.{keys, NodupKeys, count_key}

pub record Pending (T : Type 0) : Type 0 where
  pub queue : List (QueueKey × T)
  pub slots : HashMap QueueKey T

module _ {T : Type 0} where
  -- how many items of the key wait
  unfoldable pub waiting : Pending T → QueueKey → ℕ
  waiting a key = (if is_some (HashMap.get key a.slots) then 1 else 0) + count_key key a.queue

  unfoldable pub offer_slot : Pending T → QueueKey → T → Pending T × ℕ
  offer_slot a key item = (
    record a { slots = HashMap.insert key item a.slots },
    if is_some (HashMap.get key a.slots) then 1 else 0,
  )

  -- a limit of 0 is none
  unfoldable pub offer_queue : Pending T → ℕ → QueueKey → T → Pending T × ℕ
  offer_queue a limit key item =
      if ltb 0 limit && leb limit (waiting a key)
      then (a, 1)
      else (record a { queue = a.queue ++ (key, item) ∷ [] }, 0)

  unfoldable pub offer : QueuePolicy → Pending T → QueueKey → T → Pending T × ℕ
  offer policy a key item = elim policy.semantics [
    | latest_wins ↦ offer_slot a key item
    | serialized ↦ offer_queue a policy.max_pending key item
    | fifo ↦ offer_queue a policy.max_pending key item
  ]

  abbrev take_slot : HashMap QueueKey T → Option (QueueKey × T) × Pending T
  take_slot [] = (none, record { queue = []; slots = [] })
  take_slot (e ∷ slots) = (some e, record { queue = []; slots = slots })

  abbrev take_from : List (QueueKey × T) → HashMap QueueKey T → Option (QueueKey × T) × Pending T
  take_from [] slots = take_slot slots
  take_from (e ∷ queue) slots = (some e, record { queue = queue; slots = slots })

  unfoldable pub take : Pending T → Option (QueueKey × T) × Pending T
  take a = take_from a.queue a.slots

  -- The scheduler's maps agree with the specification's lists.
  pub record Refines (q : QueueScheduler T) (a : Pending T) : Type 0 where
    pub queue : q.queue ≡ a.queue
    pub order : q.latest_order ≡ keys a.slots
    pub slots : (k : QueueKey) → HashMap.get k q.latest ≡ HashMap.get k a.slots
    pub distinct : NodupKeys a.slots
    pub depths :
        (k : QueueKey)
        → HashMap.get k q.fifo_depth_by_key
          ≡ (if eqb (count_key k a.queue) 0 then none else some (count_key k a.queue))
