-- ===== src/Sidecar/Session/Queue.antt =====
-- services/sidecar/src/session/queue/mod.rs: one scheduler for the events of a session
pub mod Spec
pub mod Keys
pub mod Enqueue
pub mod Pop
pub mod Runs
mod Tests
use your_connector.Common.{
  ℕ, zero, suc, ◌+◌, ◌-◌, ◌&&◌, Bool, true, false, Option, none, some, is_some, List, [], ◌∷◌, ◌++◌,
  Eq, ◌==◌, ltb, leb, eqb, if◌then◌else◌,
}
use your_connector.Common.HashMap
use your_connector.Common.HashMap.{HashMap}

pub data QueueKey : Type 0 where
  tool_details tools_refresh metrics pairing_banner control chat report : QueueKey

pub QueueKey-discrete : Discrete QueueKey
QueueKey-discrete = hlevel

instance unfoldable pub queue_key_eq : Eq QueueKey
unfolding QueueKey-discrete
queue_key_eq = record { dec = QueueKey-discrete }

pub data QueueSemantics : Type 0 where
  latest_wins serialized fifo : QueueSemantics

pub record QueuePolicy : Type 0 where
  pub semantics : QueueSemantics
  pub max_pending : ℕ

-- `QueuePolicy::latest_wins()`, `serialized(n)` and `fifo(n)`
abbrev pub latest_wins_policy : QueuePolicy
latest_wins_policy = record { semantics = latest_wins; max_pending = 1 }

abbrev pub serialized_policy : ℕ → QueuePolicy
serialized_policy max_pending = record { semantics = serialized; max_pending = max_pending }

abbrev pub fifo_policy : ℕ → QueuePolicy
fifo_policy max_pending = record { semantics = fifo; max_pending = max_pending }

pub record QueueScheduler (T : Type 0) : Type 0 where
  pub default_policy : QueuePolicy
  pub policies : HashMap QueueKey QueuePolicy
  pub latest : HashMap QueueKey T
  pub latest_order : List QueueKey
  pub queue : List (QueueKey × T)  -- the field `fifo`
  pub fifo_depth_by_key : HashMap QueueKey ℕ

abbrev pub or_zero : Option ℕ → ℕ
or_zero none = 0
or_zero (some n) = n

abbrev pub or_policy : QueuePolicy → Option QueuePolicy → QueuePolicy
or_policy p none = p
or_policy p (some q) = q

-- the depth of a key whose item was taken
unfoldable pub lower_depth : QueueKey → HashMap QueueKey ℕ → HashMap QueueKey ℕ
lower_depth key depths = elim (HashMap.get key depths) [
  | none ↦ depths
  | some depth ↦
      if eqb (depth - 1) 0 then HashMap.remove key depths else HashMap.insert key (depth - 1) depths
]

module _ {T : Type 0} where
  abbrev pub new : QueuePolicy → HashMap QueueKey QueuePolicy → QueueScheduler T
  new default_policy policies = record {
    default_policy = default_policy;
    policies = policies;
    latest = HashMap.empty;
    latest_order = [];
    queue = [];
    fifo_depth_by_key = HashMap.empty;
  }

  unfoldable pub depth_for_key : QueueScheduler T → QueueKey → ℕ
  depth_for_key q key =
      (if is_some (HashMap.get key q.latest) then 1 else 0)
      + or_zero (HashMap.get key q.fifo_depth_by_key)

  unfoldable pub policy_for : QueueScheduler T → QueueKey → QueuePolicy
  policy_for q key = or_policy q.default_policy (HashMap.get key q.policies)

  unfoldable pub enqueue_latest : QueueScheduler T → QueueKey → T → QueueScheduler T × ℕ
  enqueue_latest q key item =
      if is_some (HashMap.get key q.latest)
      then (record q { latest = HashMap.insert key item q.latest }, 1)
      else (
        record q {
          latest_order = q.latest_order ++ key ∷ [];
          latest = HashMap.insert key item q.latest;
        },
        0,
      )

  unfoldable pub enqueue_fifo : QueueScheduler T → ℕ → QueueKey → T → QueueScheduler T × ℕ
  enqueue_fifo q max_pending key item =
      if ltb 0 max_pending && leb max_pending (depth_for_key q key) then (q, 1) else (
        record q {
          queue = q.queue ++ (key, item) ∷ [];
          fifo_depth_by_key =
              HashMap.insert key (or_zero (HashMap.get key q.fifo_depth_by_key) + 1)
                q.fifo_depth_by_key;
        },
        0,
      )

  -- the new state, and `dropped` of the report
  unfoldable pub enqueue : QueueScheduler T → QueueKey → T → QueueScheduler T × ℕ
  enqueue q key item =
      let policy = policy_for q key in
      elim policy.semantics [
        | latest_wins ↦ enqueue_latest q key item
        | serialized ↦ enqueue_fifo q policy.max_pending key item
        | fifo ↦ enqueue_fifo q policy.max_pending key item
      ]

  -- the loop over `latest_order`
  unfoldable pub pop_latest :
      QueueScheduler T → List QueueKey → Option (QueueKey × T) × QueueScheduler T
  pop_latest q [] = (none, record q { latest_order = [] })
  pop_latest q (key ∷ order) =
      let rest = pop_latest q order in
      elim (HashMap.get key q.latest) [
        | none ↦ rest
        | some item ↦ (
          some (key, item),
          record q { latest_order = order; latest = HashMap.remove key q.latest },
        )
      ]

  unfoldable pub pop_queue :
      QueueScheduler T → List (QueueKey × T) → Option (QueueKey × T) × QueueScheduler T
  unfolding lower_depth
  pop_queue q [] = pop_latest q q.latest_order
  pop_queue q ((key, item) ∷ rest) = (
    some (key, item),
    record q { queue = rest; fifo_depth_by_key = lower_depth key q.fifo_depth_by_key },
  )

  unfoldable pub pop_next : QueueScheduler T → Option (QueueKey × T) × QueueScheduler T
  unfolding pop_queue
  pop_next q = pop_queue q q.queue

  -- a write through `latest_mut`
  unfoldable pub update_latest : QueueScheduler T → QueueKey → (T → T) → QueueScheduler T
  update_latest q key f = elim (HashMap.get key q.latest) [
    | none ↦ q
    | some item ↦ record q { latest = HashMap.insert key (f item) q.latest }
  ]
