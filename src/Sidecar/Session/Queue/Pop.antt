-- ===== src/Sidecar/Session/Queue/Pop.antt =====
-- `pop_next` implements `take`.
use your_connector.Common.{
  ℕ, suc, ◌-◌, ◌≡◌, refl, ap, none, some, List, [], ◌∷◌, ◌==◌, eqb, if◌then◌else◌, arith,
}
use your_connector.Common.HashMap
use your_connector.Common.HashMap.{HashMap, get-insert, get-remove}
use your_connector.Sidecar.Session.Queue.{
  QueueKey, queue_key_eq, QueueScheduler, lower_depth, pop_latest, pop_queue, pop_next,
}
use your_connector.Sidecar.Session.Queue.Keys.{keys, count_key}
use your_connector.Sidecar.Session.Queue.Spec.{Pending, take, Refines}

-- One item of the key is gone.
lower_depth-count :
    (key k : QueueKey) (n : ℕ) (depths : HashMap QueueKey ℕ)
    → HashMap.get key depths ≡ some (suc n)
    → HashMap.get k (lower_depth key depths)
      ≡ (if k == key then (if eqb n 0 then none else some n) else HashMap.get k depths)
unfolding lower_depth
lower_depth-count key k n depths h =
    ground (
      arith,
      get-remove k key depths,
      get-insert k key n depths,
      get-insert k key (suc n - 1) depths,
    )

module _ {T : Type 0} where
  after_queue :
      (q : QueueScheduler T) (a : Pending T) (key : QueueKey) (item : T)
      (rest : List (QueueKey × T))
      → a.queue ≡ (key, item) ∷ rest
      → Refines q a
      → Refines
          (record q { queue = rest; fifo_depth_by_key = lower_depth key q.fifo_depth_by_key })
          (record a { queue = rest })
  after_queue q a key item rest e h = record {
    queue = refl;
    order = h.order;
    slots = h.slots;
    distinct = h.distinct;
    depths = λ k.
        rw (lower_depth-count key k (count_key key rest) q.fifo_depth_by_key found)
          (ground (arith, h.depths k, ap (count_key k) e));
  }
    where
      found : HashMap.get key q.fifo_depth_by_key ≡ some (suc (count_key key rest))
      found = ground (arith, h.depths key, ap (count_key key) e)

  after_slot :
      (q : QueueScheduler T) (key : QueueKey) (item : T) (rest : HashMap QueueKey T)
      → Refines q (record { queue = []; slots = (key, item) ∷ rest })
      → Refines
          (record q { latest_order = keys rest; latest = HashMap.remove key q.latest })
          (record { queue = []; slots = rest })
  unfolding HashMap.get
  after_slot q key item rest h = record {
    queue = h.queue;
    order = refl;
    slots = λ k. ground (arith, get-remove k key q.latest, h.slots k, h.distinct.0);
    distinct = h.distinct.1;
    depths = h.depths;
  }

  pop_slot :
      (q : QueueScheduler T) (slots : HashMap QueueKey T)
      → Refines q (record { queue = []; slots = slots })
      → ((pop_latest q (keys slots)).0 ≡ (take (record { queue = []; slots = slots })).0)
        × Refines (pop_latest q (keys slots)).1 (take (record { queue = []; slots = slots })).1
  unfolding take pop_latest HashMap.get
  pop_slot q [] h = (
    refl,
    record { queue = h.queue; order = refl; slots = h.slots; distinct = tt; depths = h.depths },
  )
  pop_slot q ((key, item) ∷ rest) h = rw (pop_latest, found) (refl, after_slot q key item rest h)
    where
      found : HashMap.get key q.latest ≡ some item
      found = ground (arith, h.slots key)

  pop_pending :
      (q : QueueScheduler T) (queue : List (QueueKey × T)) (slots : HashMap QueueKey T)
      → Refines q (record { queue = queue; slots = slots })
      → ((pop_queue q queue).0 ≡ (take (record { queue = queue; slots = slots })).0)
        × Refines (pop_queue q queue).1 (take (record { queue = queue; slots = slots })).1
  unfolding take pop_queue pop_latest
  pop_pending q [] slots h = simp h.order (pop_slot q slots h)
  pop_pending q ((key, item) ∷ rest) slots h = (refl, after_queue q _ key item rest refl h)

  -- On the same queue, `pop_next` serves the item which the specification serves, none included, and
  -- leaves the same queue.
  pub pop_next-Refines :
      (q : QueueScheduler T) (a : Pending T)
      → Refines q a
      → ((pop_next q).0 ≡ (take a).0) × Refines (pop_next q).1 (take a).1
  unfolding pop_next take
  pop_next-Refines q a h = simp h.queue (pop_pending q a.queue a.slots h)
