-- ===== src/Queue/Order.antt =====
-- src/post-settlement.ts: which events are taken and which are delivered, in what order.
use pi_speculative_action.Prelude.{
  subst, ◌≤◌, Bool, true, false, List, [], ◌∷◌, ◌++◌, length, length-append, if◌then◌else◌, leb,
  ◌||◌, ◌≡◌, refl, sym, ◌∙◌, ap, arith, append_assoc, append-nil, Bool-cases, inl, inr,
}
use pi_speculative_action.Queue.{
  after_delivery, Queue, enqueue, flush, close, delivered, QueueCall, enqueues, flushes, delivers,
  closes, perform, run, is_empty,
}

module _ {ℓ} {E : Type ℓ} where
  unfoldable pub first_of : List E → List E
  first_of [] = []
  first_of (e ∷ rest) = e ∷ []

  -- The events that a run takes, and those whose delivery ends in it.
  unfoldable pub taken : List (QueueCall E) → Queue E → List E
  unfolding perform
  taken [] q = []
  taken (enqueues e ∷ cs) q =
      (if (enqueue e q).1 then e ∷ [] else []) ++ taken cs (perform (enqueues e) q)
  taken (c ∷ cs) q = taken cs (perform c q)

  unfoldable pub served : List (QueueCall E) → Queue E → List E
  unfolding perform first_of
  served [] q = []
  served (delivers ∷ cs) q = first_of q.pending ++ served cs (perform delivers q)
  served (c ∷ cs) q = served cs (perform c q)

  enqueue_pending :
      (e : E) (q : Queue E)
      → (enqueue e q).0.pending ≡ q.pending ++ (if (enqueue e q).1 then e ∷ [] else [])
  unfolding enqueue
  enqueue_pending e q = elim (Bool-cases (q.closed || leb q.capacity (length q.pending))) [
    | inl h ↦ rw (enqueue, h) (sym (append-nil q.pending))
    | inr h ↦ rw (enqueue, h) refl
  ]

  flush_pending : (q : Queue E) → (flush q).0.pending ≡ q.pending
  unfolding flush
  flush_pending q = ground arith

  close_pending : (drain : Bool) (q : Queue E) → (close drain q).0.pending ≡ q.pending
  unfolding close
  close_pending true q = flush_pending (record q { closed = true })
  close_pending false q = refl

  after_delivery_pending :
      (ps : List E) (q : Queue E)
      → q.pending ≡ ps
      → ps ≡ first_of ps ++ (after_delivery ps q).pending
  unfolding after_delivery first_of
  after_delivery_pending [] q e = sym e
  after_delivery_pending (x ∷ []) q e = refl
  after_delivery_pending (x ∷ (y ∷ rest)) q e = refl

  delivered_pending : (q : Queue E) → q.pending ≡ first_of q.pending ++ (delivered q).pending
  unfolding delivered
  delivered_pending q = after_delivery_pending q.pending q refl

  -- The events taken are delivered in the order in which they were taken, each once: those that were
  -- pending and those taken are, in order, those delivered and those still pending.
  pub run-pending :
      (cs : List (QueueCall E)) (q : Queue E)
      → q.pending ++ taken cs q ≡ served cs q ++ (run cs q).pending
  unfolding taken served run perform
  run-pending [] q = append-nil q.pending
  run-pending (enqueues e ∷ cs) q =
      sym (append_assoc q.pending (if (enqueue e q).1 then e ∷ [] else []) _)
      ∙ ap (λ xs. xs ++ taken cs (enqueue e q).0) (sym (enqueue_pending e q))
      ∙ run-pending cs (enqueue e q).0
  run-pending (flushes ∷ cs) q =
      ap (λ xs. xs ++ taken cs (flush q).0) (sym (flush_pending q)) ∙ run-pending cs (flush q).0
  run-pending (closes drain ∷ cs) q =
      ap (λ xs. xs ++ taken cs (close drain q).0) (sym (close_pending drain q))
      ∙ run-pending cs (close drain q).0
  run-pending (delivers ∷ cs) q =
      ap (λ xs. xs ++ taken cs (delivered q)) (delivered_pending q)
      ∙ append_assoc (first_of q.pending) (delivered q).pending _
      ∙ ap (λ xs. first_of q.pending ++ xs) (run-pending cs (delivered q))
      ∙ sym (append_assoc (first_of q.pending) _ _)

  -- The queue is bounded, and someone waits only while an event is pending.
  pub record IsQueue (q : Queue E) : Type ℓ where
    pub bounded : length q.pending ≤ q.capacity
    pub waiting : q.awaited ≡ true → is_empty q.pending ≡ false

  is_empty-snoc : (xs : List E) (e : E) → is_empty (xs ++ (e ∷ [])) ≡ false
  unfolding is_empty
  is_empty-snoc [] e = refl
  is_empty-snoc (x ∷ xs) e = refl

  enqueue-IsQueue : (e : E) (q : Queue E) → IsQueue q → IsQueue (enqueue e q).0
  unfolding enqueue is_empty
  enqueue-IsQueue e q h = elim (Bool-cases (q.closed || leb q.capacity (length q.pending))) [
    | inl k ↦ rw (enqueue, k) (record { bounded = h.bounded; waiting = h.waiting })
    | inr k ↦
        rw (enqueue, k)
          (record {
            bounded = ground (arith, length-append q.pending (e ∷ []));
            waiting = λ x. is_empty-snoc q.pending e;
          })
  ]

  flush-IsQueue : (q : Queue E) → IsQueue q → IsQueue (flush q).0
  unfolding flush
  flush-IsQueue q h = elim (Bool-cases (is_empty q.pending)) [
    | inl k ↦ rw (flush, k) h
    | inr k ↦ rw (flush, k) (record { bounded = h.bounded; waiting = λ x. k })
  ]

  close-IsQueue : (drain : Bool) (q : Queue E) → IsQueue q → IsQueue (close drain q).0
  unfolding close
  close-IsQueue true q h =
      flush-IsQueue (record q { closed = true })
        (record { bounded = h.bounded; waiting = h.waiting })
  close-IsQueue false q h = record { bounded = h.bounded; waiting = h.waiting }

  after_delivery-IsQueue :
      (ps : List E) (q : Queue E) → q.pending ≡ ps → IsQueue q → IsQueue (after_delivery ps q)
  unfolding after_delivery is_empty
  after_delivery-IsQueue [] q e h = h
  after_delivery-IsQueue (x ∷ []) q e h = record { bounded = omega arith; waiting = λ y. cc }
  after_delivery-IsQueue (x ∷ (y ∷ rest)) q e h = record {
    bounded = (let k = subst (λ l. length l ≤ q.capacity) e h.bounded in omega arith);
    waiting = λ z. refl;
  }

  perform-IsQueue : (c : QueueCall E) (q : Queue E) → IsQueue q → IsQueue (perform c q)
  unfolding perform delivered
  perform-IsQueue (enqueues e) q h = enqueue-IsQueue e q h
  perform-IsQueue flushes q h = flush-IsQueue q h
  perform-IsQueue delivers q h = after_delivery-IsQueue q.pending q refl h
  perform-IsQueue (closes drain) q h = close-IsQueue drain q h

  -- No calls make the queue exceed its capacity, or leave someone waiting with no event pending.
  pub run-IsQueue : (cs : List (QueueCall E)) (q : Queue E) → IsQueue q → IsQueue (run cs q)
  unfolding run
  run-IsQueue [] q h = h
  run-IsQueue (c ∷ cs) q h = run-IsQueue cs (perform c q) (perform-IsQueue c q h)
