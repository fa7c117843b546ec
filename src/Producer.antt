-- ===== src/Producer.antt =====
-- background_producer.py: a producer thread and the generator that consumes its bounded queue. What
-- `produce` does is the list of what it puts before its sentinel, and the exception it ends with, if
-- any, both found while the thread runs.
pub mod Sound
pub mod Ends
use rclone_kit.Base.{
  ℕ, suc, ◌+◌, ◌*◌, ◌<◌, ◌≡◌, Bool, true, false, List, [], ◌∷◌, ◌++◌, Option, none, some, Error,
  length,
}

abbrev pub max_out_queue_size : ℕ
max_out_queue_size = 50

-- Where the thread of the producer is: before its sentinel, before its end, or at its end.
pub data Stage : Type 0 where
  putting sentinel_put ended : Stage

-- Where the generator is. It joins the thread with the sentinel seen, or leaves without.
pub data Consumer : Type 0 where
  iterating draining joining leaving returned closed : Consumer
  raised : Error → Consumer

pub record State (T : Type 0) : Type 0 where
  pub stage : Stage
  pub rest : List T
  pub queue : List (Option T)
  pub consumer : Consumer
  pub yielded : List T
  pub interrupted : Bool
  pub timed_out : Bool

-- The state with these fields
abbrev pub at_point :
    {T : Type 0} → Stage → List T → List (Option T) → Consumer → List T → Bool → Bool → State T
at_point stage rest queue consumer yielded interrupted timed_out = record {
  stage = stage;
  rest = rest;
  queue = queue;
  consumer = consumer;
  yielded = yielded;
  interrupted = interrupted;
  timed_out = timed_out;
}

-- `if errors: raise errors[0]`
abbrev pub outcome : Option Error → Consumer
outcome none = returned
outcome (some e) = raised e

abbrev pub start : {T : Type 0} → List T → State T
start items = record {
  stage = putting;
  rest = items;
  queue = [];
  consumer = iterating;
  yielded = [];
  interrupted = false;
  timed_out = false;
}

module _ {T : Type 0} (failure : Option Error) where
  -- What the two threads do. A full queue makes `put` wait, and an empty one makes `get` wait.
  pub data Step : State T → State T → Type 0 where
    put :
        (x : T) (xs : List T) (queue : List (Option T)) (c : Consumer) (ys : List T) (i o : Bool)
        → length queue < max_out_queue_size
        → Step
            (at_point putting (x ∷ xs) queue c ys i o)
            (at_point putting xs (queue ++ (some x ∷ [])) c ys i o)
    put_sentinel :
        (queue : List (Option T)) (c : Consumer) (ys : List T) (i o : Bool)
        → length queue < max_out_queue_size
        → Step
            (at_point putting [] queue c ys i o)
            (at_point sentinel_put [] (queue ++ (none ∷ [])) c ys i o)
    end_worker :
        (xs : List T) (queue : List (Option T)) (c : Consumer) (ys : List T) (i o : Bool)
        → Step (at_point sentinel_put xs queue c ys i o) (at_point ended xs queue c ys i o)
    get_item :
        (g : Stage) (xs : List T) (x : T) (queue : List (Option T)) (ys : List T) (i o : Bool)
        → Step
            (at_point g xs (some x ∷ queue) iterating ys i o)
            (at_point g xs queue iterating (ys ++ (x ∷ [])) i o)
    get_sentinel :
        (g : Stage) (xs : List T) (queue : List (Option T)) (ys : List T) (i o : Bool)
        → Step (at_point g xs (none ∷ queue) iterating ys i o) (at_point g xs queue joining ys i o)
    drain_item :
        (g : Stage) (xs : List T) (x : T) (queue : List (Option T)) (ys : List T) (i o : Bool)
        → Step
            (at_point g xs (some x ∷ queue) draining ys i o)
            (at_point g xs queue draining ys i o)
    drain_sentinel :
        (g : Stage) (xs : List T) (queue : List (Option T)) (ys : List T) (i o : Bool)
        → Step (at_point g xs (none ∷ queue) draining ys i o) (at_point g xs queue leaving ys i o)
    join :
        (xs : List T) (queue : List (Option T)) (ys : List T) (i o : Bool)
        → Step
            (at_point ended xs queue joining ys i o)
            (at_point ended xs queue (outcome failure) ys i o)
    leave :
        (g : Stage) (xs : List T) (queue : List (Option T)) (ys : List T) (i o : Bool)
        → Step (at_point g xs queue leaving ys i o) (at_point g xs queue closed ys i o)

  -- What happens to them: the consumer stops or is interrupted, a second interrupt ends the drain, and
  -- the join of a thread that is still running times out, before or after its exception is stored.
  pub data Event : State T → State T → Type 0 where
    abandon :
        (g : Stage) (xs : List T) (queue : List (Option T)) (ys : List T) (i o : Bool)
        → Event (at_point g xs queue iterating ys i o) (at_point g xs queue draining ys i o)
    interrupt_drain :
        (g : Stage) (xs : List T) (queue : List (Option T)) (ys : List T) (i o : Bool)
        → Event (at_point g xs queue draining ys i o) (at_point g xs queue leaving ys true o)
    join_timeout :
        (xs : List T) (queue : List (Option T)) (ys : List T) (i o : Bool)
        → Event
            (at_point sentinel_put xs queue joining ys i o)
            (at_point sentinel_put xs queue returned ys i true)
    join_timeout_late :
        (xs : List T) (queue : List (Option T)) (ys : List T) (i o : Bool)
        → Event
            (at_point sentinel_put xs queue joining ys i o)
            (at_point sentinel_put xs queue (outcome failure) ys i true)

  -- Runs of so many steps and events, in any interleaving.
  pub data Run (s : State T) : ℕ → State T → Type 0 where
    here : Run s 0 s
    step : {n : ℕ} {t u : State T} → Run s n t → Step t u → Run s (suc n) u
    event : {n : ℕ} {t u : State T} → Run s n t → Event t u → Run s (suc n) u
