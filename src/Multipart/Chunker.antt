-- ===== src/Multipart/Chunker.antt =====
-- s3/chunk_task.py: the producer that reads the missing chunks of the file in ascending order.
-- The reads run on other threads: `fetcher n` is the list of the part numbers whose
-- `_OnCompleteHandler.on_complete` recorded them between the request of part `n` and the next turn of
-- the loop, so that any order of completions is some `fetcher`.
pub mod Fetches
use rclone_kit.Base.{
  ℕ, zero, suc, ◌+◌, ◌-◌, ◌*◌, ◌==◌, ltb, leb, Bool, true, false, not, ◌&&◌, Option, none, some,
  List, [], ◌∷◌, ◌++◌, map, member, Error, assertion_error, value_error, diverged, Result, ok, err,
  if◌then◌else◌, ◌>>=◌,
}
use rclone_kit.Multipart.Pieces.{StreamItem, FinishedPiece, pieces_of, UploadInfo, total_chunks}

-- `_PartNumberTracker`
pub record PartNumberTracker : Type 0 where
  pub last_part_value : ℕ
  pub done_part_numbers : List ℕ
  pub curr_part_number : ℕ
  pub finished : Bool

abbrev max : ℕ → ℕ → ℕ
max a b = if leb a b then b else a

abbrev pub largest : List ℕ → ℕ
largest [] = 0
largest (n ∷ ns) = max n (largest ns)

-- `while curr in done: curr += 1`; `none` is a loop that ran out of fuel
abbrev pub skip_done : (fuel : ℕ) → List ℕ → ℕ → Option ℕ
skip_done zero done curr = none
skip_done (suc fuel) done curr =
    let rest = skip_done fuel done (curr + 1) in if member curr done then rest else some curr

abbrev hand_out : PartNumberTracker → Option ℕ → Result (Option ℕ × PartNumberTracker)
hand_out t none = err diverged
hand_out t (some curr) =
    if ltb t.last_part_value curr
    then ok (none, record t { curr_part_number = curr; finished = true })
    else ok (some curr, record t { curr_part_number = curr + 1 })

-- Past the largest number done the loop stops, so this fuel is enough.
unfoldable pub next_part_number : PartNumberTracker → Result (Option ℕ × PartNumberTracker)
next_part_number t =
    hand_out t
      (skip_done (suc (suc (largest t.done_part_numbers))) t.done_part_numbers t.curr_part_number)

-- `add_finished_part_number`, for each of the reads that completed
abbrev pub add_finished : List ℕ → PartNumberTracker → PartNumberTracker
add_finished ns t = record t { done_part_numbers = ns ++ t.done_part_numbers }

-- One call of `fetcher`: the arguments it is given.
pub record Fetch : Type 0 where
  pub part_number : ℕ
  pub offset : ℕ
  pub fetch_size : ℕ

-- How the loop ended. The source logs an exception and ends in the same way as without one.
pub data Ending : Type 0 where
  cancelled reached_max_chunks completed : Ending
  raised : Error → Ending

pub record Chunking : Type 0 where
  pub fetches : List Fetch
  pub ending : Ending

-- `should_stop`
abbrev pub should_stop : Option ℕ → ℕ → Bool
should_stop none count = false
should_stop (some max_chunks) count = leb max_chunks count

abbrev ended : Ending → Chunking
ended e = record { fetches = []; ending = e }

abbrev min : ℕ → ℕ → ℕ
min a b = if leb a b then a else b

-- The request of a part, whose offset is within the file.
abbrev pub fetch_of : UploadInfo → ℕ → Fetch
fetch_of info n =
    let offset = (n - 1) * info.chunk_size in
    record {
      part_number = n;
      offset = offset;
      fetch_size = min info.chunk_size (info.file_size - offset);
    }

module _ (info : UploadInfo) (fetcher : ℕ → List ℕ) (max_chunks : Option ℕ) where
  abbrev final_part_number : ℕ
  final_part_number = total_chunks info + 1

  -- The turn of the loop for one part number; `rest` is the remaining turns.
  abbrev pub process : ℕ → Chunking → Chunking
  process n rest =
      let fetch = fetch_of info n in
      if ltb fetch.offset info.file_size
      then if (fetch.fetch_size == 0) && not (final_part_number == n)
        then ended (raised value_error)
        else record { fetches = fetch ∷ rest.fetches; ending = rest.ending }
      else ended (raised assertion_error)

  abbrev pub after_next :
      (PartNumberTracker → Chunking) → Result (Option ℕ × PartNumberTracker) → Chunking
  after_next continue (err e) = ended (raised e)
  after_next continue (ok (none, t)) = ended completed
  after_next continue (ok (some n, t)) = process n (continue (add_finished (fetcher n) t))

  -- `while not should_stop()`
  abbrev pub chunk_loop : (fuel count : ℕ) → PartNumberTracker → Chunking
  chunk_loop zero count t = ended (raised diverged)
  chunk_loop (suc fuel) count t =
      let next = after_next (chunk_loop fuel (count + 1)) (next_part_number t) in
      if should_stop max_chunks count then ended reached_max_chunks else next

  -- `file_chunker`; each turn takes a higher part number, none above the final one.
  unfoldable pub file_chunker : List StreamItem → (cancel_signal : Bool) → Chunking
  file_chunker parts cancel_signal =
      if cancel_signal
      then ended cancelled
      else chunk_loop (suc final_part_number) 0 (record {
        last_part_value = final_part_number;
        done_part_numbers = map (λ p. p.part_number) (pieces_of parts);
        curr_part_number = 1;
        finished = false;
      })
