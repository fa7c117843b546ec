-- ===== src/Multipart/Merge/Writer.antt =====
-- s3/multipart/upload_parts_server_side_merge.py: the thread that writes the merge state. `write` is
-- `rclone.write_text` to the path of the state, on a world that it changes.
use mathlib.Core.Path.{fun_ext}
use rclone_kit.Base.{◌≡◌, refl, ap, Bool, true, false, List, [], ◌∷◌, ◌++◌, Result, ok, err}
use rclone_kit.Multipart.Pieces.{StreamItem, FinishedPiece, piece, end_of_stream}
use rclone_kit.Multipart.MergeState.{MergeState, MergeStateJson, to_json}

-- The inner loop of `_get_next`, over what the queue holds until it is empty.
abbrev pub drain : FinishedPiece → List StreamItem → StreamItem × List StreamItem
drain item [] = (piece item, [])
drain item (end_of_stream ∷ queue) = (end_of_stream, queue ++ (end_of_stream ∷ []))
drain item (piece p ∷ queue) = drain p queue

-- `_get_next`, where the queue holds one item at least: the one that `queue.get()` waits for
unfoldable pub get_next : StreamItem → List StreamItem → StreamItem × List StreamItem
get_next end_of_stream queue = (end_of_stream, queue)
get_next (piece p) queue = drain p queue

-- What the thread finds when it takes its next item, and the state at that time.
pub record Turn : Type 0 where
  pub first : StreamItem
  pub queue : List StreamItem
  pub merge_state : MergeState

module _ {W : Type 0} (write : MergeStateJson → W → Result (Unit {0}) × W) where
  -- The loop of `run`. Without the end of the stream, `_get_next` leaves the queue empty, so that
  -- the next turn has what came since.
  abbrev on_written : (next : W → W) → Result (Unit {0}) × W → W
  on_written next (err e, w) = w
  on_written next (ok _, w) = next w

  abbrev on_item : (next : W → W) → StreamItem → MergeState → W → W
  on_item next end_of_stream s w = w
  on_item next (piece p) s w = on_written next (write (to_json s) w)

  unfoldable pub run : List Turn → W → W
  run [] w = w
  run (turn ∷ turns) w = on_item (run turns) (get_next turn.first turn.queue).0 turn.merge_state w

abbrev pub ends : List StreamItem → Bool
ends [] = false
ends (end_of_stream ∷ items) = true
ends (piece p ∷ items) = ends items

drain-ends :
    (p : FinishedPiece) (queue : List StreamItem)
    → ends queue ≡ true
    → (drain p queue).0 ≡ end_of_stream
drain-ends p [] h = absurd cc
drain-ends p (end_of_stream ∷ queue) h = refl
drain-ends p (piece q ∷ queue) h = drain-ends q queue h

get_next-ends :
    (first : StreamItem) (queue : List StreamItem)
    → ends (first ∷ queue) ≡ true
    → (get_next first queue).0 ≡ end_of_stream
unfolding get_next
get_next-ends end_of_stream queue h = refl
get_next-ends (piece p) queue h = drain-ends p queue h

module _ {W : Type 0} (write : MergeStateJson → W → Result (Unit {0}) × W) where
  -- Pieces that the thread finds together with the end of the stream are not written: whatever it
  -- did before, a turn whose queue holds the end of the stream changes nothing, wherever it stands in
  -- the queue.
  pub run-unwritten :
      (turns : List Turn) (last : Turn) (w : W)
      → ends (last.first ∷ last.queue) ≡ true
      → run write (turns ++ (last ∷ [])) w ≡ run write turns w
  unfolding run
  run-unwritten [] last w h = rw (get_next-ends last.first last.queue h) refl
  run-unwritten (turn ∷ turns) last w h =
      ap (λ next. on_item write next (get_next turn.first turn.queue).0 turn.merge_state w)
        (fun_ext (λ w'. run-unwritten turns last w' h))
