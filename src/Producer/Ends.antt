-- ===== src/Producer/Ends.antt =====
-- background_producer.py: how the generator ends, and that it does.
use rclone_kit.Base.{
  ℕ, ◌+◌, ◌*◌, ◌≤◌, ◌<◌, ◌≡◌, ◌⊎◌, inl, inr, refl, Bool, true, List, [], ◌∷◌, ◌++◌, map, Option,
  none, some, Error, length, length-append, arith,
}
use rclone_kit.Producer.{
  Stage, putting, sentinel_put, ended, Consumer, iterating, draining, joining, leaving, returned,
  closed, raised, State, at_point, outcome, start, Step, put, put_sentinel, end_worker, get_item,
  get_sentinel, drain_item, drain_sentinel, join, leave, Event, abandon, interrupt_drain,
  join_timeout, join_timeout_late, Run, here, step, event, max_out_queue_size,
}
use rclone_kit.Producer.Sound.{At, Past, Run-IsSound}

-- The generator is over.
abbrev pub Over : Consumer → Type 0
Over iterating = ⊥
Over draining = ⊥
Over joining = ⊥
Over leaving = ⊥
Over returned = Unit
Over closed = Unit
Over (raised e) = Unit

abbrev stage_left : Stage → ℕ
stage_left putting = 3
stage_left sentinel_put = 1
stage_left ended = 0

abbrev consumer_left : Consumer → ℕ
consumer_left iterating = 4
consumer_left draining = 3
consumer_left joining = 1
consumer_left leaving = 1
consumer_left returned = 0
consumer_left closed = 0
consumer_left (raised e) = 0

outcome_left : (f : Option Error) → consumer_left (outcome f) ≡ 0
outcome_left none = refl
outcome_left (some e) = refl

module _ {T : Type 0} where
  -- What is left to do; every step and event makes it less.
  abbrev left : State T → ℕ
  left s = 2 * length s.rest + length s.queue + stage_left s.stage + consumer_left s.consumer

  Step-left : {failure : Option Error} {s t : State T} → Step failure s t → left t < left s
  Step-left (put x xs queue c ys i o room) = omega (arith, length-append queue (some x ∷ []))
  Step-left (put_sentinel queue c ys i o room) =
      omega (arith, length-append {A = Option T} queue (none ∷ []))
  Step-left (end_worker xs queue c ys i o) = omega arith
  Step-left (get_item g xs x queue ys i o) = omega arith
  Step-left (get_sentinel g xs queue ys i o) = omega arith
  Step-left (drain_item g xs x queue ys i o) = omega arith
  Step-left (drain_sentinel g xs queue ys i o) = omega arith
  Step-left {failure} (join xs queue ys i o) = omega (arith, outcome_left failure)
  Step-left (leave g xs queue ys i o) = omega arith

  Event-left : {failure : Option Error} {s t : State T} → Event failure s t → left t < left s
  Event-left (abandon g xs queue ys i o) = omega arith
  Event-left (interrupt_drain g xs queue ys i o) = omega arith
  Event-left (join_timeout xs queue ys i o) = omega arith
  Event-left {failure} (join_timeout_late xs queue ys i o) = omega (arith, outcome_left failure)

  Run-left :
      {failure : Option Error} {s : State T} {n : ℕ} {t : State T}
      → Run failure s n t
      → n + left t ≤ left s
  Run-left here = omega arith
  Run-left (step r st) = omega (arith, Run-left r, Step-left st)
  Run-left (event r ev) = omega (arith, Run-left r, Event-left ev)

module _ {T : Type 0} (items : List T) (failure : Option Error) where
  abbrev Moves : State T → Type 0
  Moves s = (t : State T) × Step failure s t

  no_sentinel : (q : List T) → [] ≡ map some q ++ (none ∷ []) → ⊥
  no_sentinel [] e = cc
  no_sentinel (x ∷ q) e = cc

  -- A producer with room in the queue can go on, and so can a generator with something in it.
  moves :
      (g : Stage) (xs : List T) (queue : List (Option T)) (c : Consumer) (ys : List T) (i o : Bool)
      → At items failure c (at_point g xs queue c ys i o)
      → Over c ⊎ Moves (at_point g xs queue c ys i o)
  moves g xs queue returned ys i o h = inl tt
  moves g xs queue closed ys i o h = inl tt
  moves g xs queue (raised e) ys i o h = inl tt
  moves g xs queue leaving ys i o h = inr (_, leave g xs queue ys i o)
  moves putting xs queue joining ys i o h = absurd h.1
  moves sentinel_put xs queue joining ys i o h = inr (_, end_worker xs queue joining ys i o)
  moves ended xs queue joining ys i o h = inr (_, join xs queue ys i o)
  moves g xs (some x ∷ queue) iterating ys i o h = inr (_, get_item g xs x queue ys i o)
  moves g xs (none ∷ queue) iterating ys i o h = inr (_, get_sentinel g xs queue ys i o)
  moves g xs (some x ∷ queue) draining ys i o h = inr (_, drain_item g xs x queue ys i o)
  moves g xs (none ∷ queue) draining ys i o h = inr (_, drain_sentinel g xs queue ys i o)
  moves putting (x ∷ xs) [] iterating ys i o h = inr (_, put x xs [] iterating ys i o (omega arith))
  moves putting [] [] iterating ys i o h = inr (_, put_sentinel [] iterating ys i o (omega arith))
  moves putting (x ∷ xs) [] draining ys i o h = inr (_, put x xs [] draining ys i o (omega arith))
  moves putting [] [] draining ys i o h = inr (_, put_sentinel [] draining ys i o (omega arith))
  moves sentinel_put xs [] iterating ys i o h = inr (_, end_worker xs [] iterating ys i o)
  moves sentinel_put xs [] draining ys i o h = inr (_, end_worker xs [] draining ys i o)
  moves ended xs [] iterating ys i o (q, e, f) = absurd (no_sentinel q e)
  moves ended xs [] draining ys i o (q, e, f) = absurd (no_sentinel q e)

  outcomes :
      (c : Consumer) (s : State T)
      → s.consumer ≡ c
      → At items failure c s
      → Over c
      → ((s.consumer ≡ returned) × (s.yielded ≡ items) × ((failure ≡ none) ⊎ (s.timed_out ≡ true)))
        ⊎ (((e : Error) × (s.consumer ≡ raised e) × (s.yielded ≡ items) × (failure ≡ some e))
            ⊎ ((s.consumer ≡ closed)
                × ((missed : List T) × (s.yielded ++ missed ≡ items))
                × (Past s.stage ⊎ (s.interrupted ≡ true))))
  outcomes iterating s k h over = absurd over
  outcomes draining s k h over = absurd over
  outcomes joining s k h over = absurd over
  outcomes leaving s k h over = absurd over
  outcomes returned s k h over = inl (k, h.0, h.2)
  outcomes (raised e) s k h over = inr (inl (e, k, h.0, h.2))
  outcomes closed s k h over = inr (inr (k, h.0, h.1))

  -- How a generator that is over has ended, in any interleaving. If it returned, it has yielded all items of
  -- the producer in order, and the producer did not fail or was still running when the join timed out.
  -- If it raised, it has yielded all items and raises what the producer ended with. If it was given
  -- up, it has yielded items from the first one on, and the producer has put its sentinel, so that no
  -- `put` of it waits, or the drain was interrupted.
  pub Run-outcomes :
      {n : ℕ} {s : State T}
      → Run failure (start items) n s
      → Over s.consumer
      → ((s.consumer ≡ returned) × (s.yielded ≡ items) × ((failure ≡ none) ⊎ (s.timed_out ≡ true)))
        ⊎ (((e : Error) × (s.consumer ≡ raised e) × (s.yielded ≡ items) × (failure ≡ some e))
            ⊎ ((s.consumer ≡ closed)
                × ((missed : List T) × (s.yielded ++ missed ≡ items))
                × (Past s.stage ⊎ (s.interrupted ≡ true))))
  Run-outcomes {n} {s} r over = outcomes s.consumer s refl (Run-IsSound items failure r).at over

  -- No run is longer than twice the number of items and seven, the queue never has more than 50
  -- entries, and as long as the generator is not over, the producer or the generator can take a step:
  -- they never wait for each other.
  pub Run-moves :
      {n : ℕ} {s : State T}
      → Run failure (start items) n s
      → (n ≤ 2 * length items + 7)
        × (length s.queue ≤ max_out_queue_size)
        × (Over s.consumer ⊎ ((t : State T) × Step failure s t))
  Run-moves {n} {s} r =
      let sound = Run-IsSound items failure r in
      (
        omega (arith, Run-left r),
        sound.bounded,
        moves s.stage s.rest s.queue s.consumer s.yielded s.interrupted s.timed_out sound.at,
      )
