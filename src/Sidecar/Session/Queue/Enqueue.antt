-- ===== src/Sidecar/Session/Queue/Enqueue.antt =====
-- `enqueue` implements `offer`.
use your_connector.Common.{
  ℕ, ◌+◌, ◌≡◌, refl, sym, ◌∙◌, ap, ◌&&◌, Bool, true, false, none, some, [], ◌∷◌, ◌++◌, inl, inr,
  ltb, leb, if◌then◌else◌, arith, Option-cases,
}
use your_connector.Common.HashMap
use your_connector.Common.HashMap.{HashMap, get-insert}
use your_connector.Sidecar.Session.Queue.{
  QueueKey, queue_key_eq, QueueSemantics, latest_wins, serialized, fifo, QueueScheduler, or_zero,
  depth_for_key, policy_for, enqueue_latest, enqueue_fifo, enqueue,
}
use your_connector.Sidecar.Session.Queue.Keys.{
  count_key, keys-insert_present, keys-insert_absent, insert-NodupKeys, count_key-append,
}
use your_connector.Sidecar.Session.Queue.Spec.{
  Pending, waiting, offer_slot, offer_queue, offer, Refines,
}

module _ {T : Type 0} (q : QueueScheduler T) (a : Pending T) (key : QueueKey) (item : T)
    (h : Refines q a) where
  or_zero_depth : or_zero (HashMap.get key q.fifo_depth_by_key) ≡ count_key key a.queue
  or_zero_depth = ground (arith, h.depths key)

  depth-waiting : depth_for_key q key ≡ waiting a key
  unfolding depth_for_key waiting
  depth-waiting = rw (h.slots key, or_zero_depth)

  abbrev Implements : QueueScheduler T × ℕ → Pending T × ℕ → Type 0
  Implements p r = Refines p.0 r.0 × (p.1 ≡ r.1)

  slot_taken :
      (old : T)
      → HashMap.get key a.slots ≡ some old
      → Refines
          (record q { latest = HashMap.insert key item q.latest })
          (record a { slots = HashMap.insert key item a.slots })
  slot_taken old e = record {
    queue = h.queue;
    order = h.order ∙ sym (keys-insert_present key item old a.slots e);
    slots = λ k. simp (get-insert, h.slots k);
    distinct = insert-NodupKeys key item a.slots h.distinct;
    depths = h.depths;
  }

  slot_free :
      HashMap.get key a.slots ≡ none
      → Refines
          (record q {
            latest_order = q.latest_order ++ key ∷ [];
            latest = HashMap.insert key item q.latest;
          })
          (record a { slots = HashMap.insert key item a.slots })
  slot_free e = record {
    queue = h.queue;
    order = ap (λ ks. ks ++ key ∷ []) h.order ∙ sym (keys-insert_absent key item a.slots e);
    slots = λ k. simp (get-insert, h.slots k);
    distinct = insert-NodupKeys key item a.slots h.distinct;
    depths = h.depths;
  }

  enqueue_latest-Implements : Implements (enqueue_latest q key item) (offer_slot a key item)
  unfolding enqueue_latest offer_slot
  enqueue_latest-Implements = elim (Option-cases (HashMap.get key a.slots)) [
    | inl e ↦ rw (h.slots key, e) (slot_free e, refl)
    | inr (old, e) ↦ rw (h.slots key, e) (slot_taken old e, refl)
  ]

  queued :
      Refines
        (record q {
          queue = q.queue ++ (key, item) ∷ [];
          fifo_depth_by_key =
              HashMap.insert key
                (or_zero (HashMap.get key q.fifo_depth_by_key) + 1)
                q.fifo_depth_by_key;
        })
        (record a { queue = a.queue ++ (key, item) ∷ [] })
  queued = record {
    queue = ap (λ xs. xs ++ (key, item) ∷ []) h.queue;
    order = h.order;
    slots = h.slots;
    distinct = h.distinct;
    depths = λ k.
        rw (get-insert, count_key-append k key item a.queue, or_zero_depth)
          (ground (arith, h.depths k));
  }

  enqueue_fifo-Implements :
      (limit : ℕ) → Implements (enqueue_fifo q limit key item) (offer_queue a limit key item)
  unfolding enqueue_fifo offer_queue
  enqueue_fifo-Implements limit =
      rw depth-waiting (choose (ltb 0 limit && leb limit (waiting a key)))
    where
      choose :
          (b : Bool)
          → Implements
              (if b then (q, 1) else (
                record q {
                  queue = q.queue ++ (key, item) ∷ [];
                  fifo_depth_by_key =
                      HashMap.insert key
                        (or_zero (HashMap.get key q.fifo_depth_by_key) + 1)
                        q.fifo_depth_by_key;
                },
                0,
              ))
              (if b then (a, 1) else (record a { queue = a.queue ++ (key, item) ∷ [] }, 0))
      choose true = (h, refl)
      choose false = (queued, refl)

  by_semantics :
      (limit : ℕ) (s : QueueSemantics)
      → Implements
          (elim s [
            | latest_wins ↦ enqueue_latest q key item
            | serialized ↦ enqueue_fifo q limit key item
            | fifo ↦ enqueue_fifo q limit key item
          ])
          (elim s [
            | latest_wins ↦ offer_slot a key item
            | serialized ↦ offer_queue a limit key item
            | fifo ↦ offer_queue a limit key item
          ])
  by_semantics limit latest_wins = enqueue_latest-Implements
  by_semantics limit serialized = enqueue_fifo-Implements limit
  by_semantics limit fifo = enqueue_fifo-Implements limit

  -- On the same queue, `enqueue` does what its key's policy says, and reports the same number of
  -- dropped items.
  pub enqueue-Refines : Implements (enqueue q key item) (offer (policy_for q key) a key item)
  unfolding enqueue offer
  enqueue-Refines = by_semantics (policy_for q key).max_pending (policy_for q key).semantics
