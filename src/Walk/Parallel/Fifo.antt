-- ===== src/Walk/Parallel/Fifo.antt =====
-- fs/walk.py: several listings at once give what one queue gives.
use rclone_kit.Base.{
  ℕ, zero, suc, ◌≤◌, ◌<◌, ◌≡◌, refl, true, sym, ap, ◌∙◌, inl, inr, List, [], ◌∷◌, ◌++◌, some, none,
  Option, Result, ok, length, length-append, append-nil, append_assoc, ltb, Bool-cases, arith,
}
use mathlib.Core.Path.{subst}
use rclone_kit.Walk.{put}
use rclone_kit.Walk.Parallel.{
  FsListing, submit_pending, list_dir, children, round, walk_loop, fs_walk,
}
use rclone_kit.Walk.Breadth.{queue_order, queue_order-levels}
use rclone_kit.Walk.Tree.{
  Tree, Forest, node, nil, cons, ◌<>◌, size, size_tree, level_order, size-<>, Forms, FormsAll,
  FormsAll-<>,
}

-- The listings among the answers.
abbrev pub listed {ℓ} : {A : Type ℓ} → List (Option A) → List A
listed [] = []
listed (none ∷ xs) = listed xs
listed (some a ∷ xs) = a ∷ listed xs

module _ {D : Type 0} (backlog : ℕ) where
  -- The order in which the paths came is kept.
  pub submit_pending-order :
      (pending in_flight : List D)
      → (submit_pending backlog pending in_flight).1 ++ (submit_pending backlog pending in_flight).0
        ≡ in_flight ++ pending
  submit_pending-order [] in_flight = refl
  submit_pending-order (path ∷ pending) in_flight =
      elim (Bool-cases (ltb (length in_flight) backlog)) [
        | inl e ↦ rw e (
            submit_pending-order pending (in_flight ++ (path ∷ []))
            ∙ append_assoc in_flight (path ∷ []) pending)
        | inr e ↦ rw e refl
      ]

  submit_pending-keeps :
      (pending in_flight : List D)
      → length in_flight ≤ length (submit_pending backlog pending in_flight).1
  submit_pending-keeps [] in_flight = omega arith
  submit_pending-keeps (path ∷ pending) in_flight =
      elim (Bool-cases (ltb (length in_flight) backlog)) [
        | inl e ↦ rw e (
            omega (
              arith,
              length-append in_flight (path ∷ []),
              submit_pending-keeps pending (in_flight ++ (path ∷ [])),
            ))
        | inr e ↦ rw e (omega arith)
      ]

  -- If anything waits, something is in flight.
  submit_pending-busy :
      (pending in_flight : List D)
      → 0 < backlog
      → (submit_pending backlog pending in_flight).1 ≡ []
      → in_flight ++ pending ≡ []
  submit_pending-busy [] [] h e = refl
  submit_pending-busy pending (d ∷ in_flight) h e =
      absurd (omega (arith, submit_pending-keeps pending (d ∷ in_flight), ap length e))
  submit_pending-busy (path ∷ pending) [] h e =
      let room : ltb 0 backlog ≡ true = ground arith in
      let e' : (submit_pending backlog pending (path ∷ [])).1 ≡ [] = rw room at e in
      absurd (omega (arith, submit_pending-keeps pending (path ∷ []), ap length e'))

  submit_pending-idle :
      (pending in_flight : List D)
      → 0 < backlog
      → (submit_pending backlog pending in_flight).1 ≡ []
      → (submit_pending backlog pending in_flight).0 ≡ []
  submit_pending-idle pending in_flight h e =
      sym (ap (λ l. l ++ (submit_pending backlog pending in_flight).0) e)
      ∙ submit_pending-order pending in_flight
      ∙ submit_pending-busy pending in_flight h e

module _ {D N : Type 0} (ls : D → Result (List N × List N)) (join : D → N → D) where
  -- A path shows what listing it gives, and leads to its subdirectories if it can be listed.
  abbrev pub ShowsFs : D → Option (FsListing D N) → Type 0
  ShowsFs path answer = list_dir ls path ≡ answer

  abbrev pub subpaths : D → Option (FsListing D N) → List D
  subpaths path none = []
  subpaths path (some l) = children join l

  module _ (backlog : ℕ) (positive : 0 < backlog) where
    walk_loop-queue_order :
        (fuel : ℕ) (s : List D × List D) (f : Forest (Option (FsListing D N)))
        → FormsAll ShowsFs subpaths (s.1 ++ s.0) f
        → (s.1 ≡ [] → s.0 ≡ [])
        → size f ≤ fuel
        → walk_loop ls join backlog fuel s ≡ (listed (queue_order fuel f), ok tt)
    unfolding walk_loop round
    walk_loop-queue_order zero ([], []) nil h idle k = refl
    walk_loop-queue_order (suc fuel) ([], []) nil h idle k = refl
    walk_loop-queue_order fuel ([], []) (cons t f) h idle k = absurd h
    walk_loop-queue_order fuel (d ∷ pending, []) f h idle k = absurd (cc (idle refl))
    walk_loop-queue_order zero (pending, d ∷ in_flight) (cons (node a below) f) h idle k =
        absurd (omega arith)
    walk_loop-queue_order fuel (pending, d ∷ in_flight) nil h idle k = absurd h
    walk_loop-queue_order (suc fuel) (pending, d ∷ in_flight) (cons (node none below) f) h idle k =
        let s = submit_pending backlog pending in_flight in
        rw (h.0.0, walk_loop, round)
          (walk_loop-queue_order fuel s (f <> below)
            (subst (λ ds. FormsAll ShowsFs subpaths ds (f <> below))
              (append-nil (in_flight ++ pending)
                ∙ sym (submit_pending-order backlog pending in_flight))
              (FormsAll-<> ShowsFs subpaths (in_flight ++ pending) [] f below h.1 h.0.1))
            (submit_pending-idle backlog pending in_flight positive)
            (omega (arith, size-<> f below)))
    walk_loop-queue_order (suc fuel) (pending, d ∷ in_flight) (cons (node (some l) below) f) h idle
          k =
        let s = submit_pending backlog (pending ++ children join l) in_flight in
        let s' = submit_pending backlog s.0 s.1 in
        rw (h.0.0, walk_loop, round)
          (ap (put l) (
            walk_loop-queue_order fuel s' (f <> below)
              (subst (λ ds. FormsAll ShowsFs subpaths ds (f <> below))
                (append_assoc in_flight pending (children join l)
                  ∙ sym (submit_pending-order backlog (pending ++ children join l) in_flight)
                  ∙ sym (submit_pending-order backlog s.0 s.1))
                (FormsAll-<> ShowsFs subpaths (in_flight ++ pending) (children join l) f below h.1
                  h.0.1))
              (submit_pending-idle backlog s.0 s.1 positive) (omega (arith, size-<> f below))))

-- The parallel walk yields, with any backlog of at least one and fuel for each directory, the listings
-- of the directories that can be listed level by level, in the order of their names, as one queue would,
-- and raises nothing: a directory that cannot be listed is left out with what is below it.
pub fs_walk-levels :
    {D N : Type 0} (ls : D → Result (List N × List N)) (join : D → N → D) (backlog : ℕ) (fuel : ℕ)
    (self : D) (t : Tree (Option (FsListing D N)))
    → 0 < backlog
    → Forms (ShowsFs ls join) (subpaths ls join) self t
    → size_tree t ≤ fuel
    → fs_walk ls join backlog fuel self ≡ (listed (level_order t), ok tt)
unfolding fs_walk
fs_walk-levels ls join backlog fuel self t positive h k =
    walk_loop-queue_order ls join backlog positive fuel (submit_pending backlog (self ∷ []) [])
      (cons t nil)
      (subst (λ ds. FormsAll (ShowsFs ls join) (subpaths ls join) ds (cons t nil))
        (sym (submit_pending-order backlog (self ∷ []) [])) (h, tt))
      (submit_pending-idle backlog (self ∷ []) [] positive) (omega arith)
    ∙ ap (λ l. (listed l, ok tt)) (queue_order-levels fuel t k)
