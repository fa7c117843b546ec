-- ===== src/Examples/Producing.antt =====
-- A producer of one item, whose failure the generator raises.
use mathlib.Core.Logic.{◌⊎◌}
use rclone_kit.Base.{
  ℕ, ◌+◌, ◌*◌, ◌≤◌, ◌≡◌, true, false, List, [], ◌∷◌, ◌++◌, none, some, Error, file_not_found,
  length, arith,
}
use rclone_kit.Producer.{
  sentinel_put, ended, iterating, joining, returned, closed, raised, State, at_point, start, Step,
  put, put_sentinel, end_worker, get_item, get_sentinel, join, Run, here, step, max_out_queue_size,
}
use rclone_kit.Producer.Sound.{Past}
use rclone_kit.Producer.Ends.{Over, Run-outcomes, Run-moves}

abbrev one_item : List ℕ
one_item = 5 ∷ []

abbrev last_state : State ℕ
last_state = (at_point ended [] [] (raised file_not_found) one_item false false)

failing-Run : Run (some file_not_found) (start one_item) 6 last_state
failing-Run =
    step
      (step
        (step
          (step
            (step (step here (put 5 [] [] iterating [] false false (omega arith)))
              (put_sentinel (some 5 ∷ []) iterating [] false false (omega arith)))
            (get_item sentinel_put [] 5 (none ∷ []) [] false false))
          (get_sentinel sentinel_put [] [] one_item false false))
        (end_worker [] [] joining one_item false false))
      (join [] [] one_item false false)

Run-outcomes_example :
    ((last_state.consumer ≡ returned)
      × (last_state.yielded ≡ one_item)
      × ((some file_not_found ≡ none) ⊎ (last_state.timed_out ≡ true)))
    ⊎ (((e : Error) × (last_state.consumer ≡ raised e)
          × (last_state.yielded ≡ one_item)
          × (some file_not_found ≡ some e))
        ⊎ ((last_state.consumer ≡ closed)
            × ((missed : List ℕ) × (last_state.yielded ++ missed ≡ one_item))
            × (Past last_state.stage ⊎ (last_state.interrupted ≡ true))))
Run-outcomes_example = Run-outcomes one_item (some file_not_found) failing-Run tt

Run-moves_example :
    (6 ≤ 2 * length one_item + 7)
    × (length last_state.queue ≤ max_out_queue_size)
    × (Over last_state.consumer ⊎ ((t : State ℕ) × Step (some file_not_found) last_state t))
Run-moves_example = Run-moves one_item (some file_not_found) failing-Run
