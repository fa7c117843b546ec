-- ===== src/Producer/Sound.antt =====
-- background_producer.py: what holds in every interleaving of the producer and the generator.
use rclone_kit.Base.{
  ℕ, ◌≤◌, ◌≡◌, ◌⊎◌, inl, inr, refl, sym, ap, ◌∙◌, Bool, true, List, [], ◌∷◌, ◌++◌, map, Option,
  none, some, Error, length, length-append, append-nil, append_assoc, arith,
}
use rclone_kit.Producer.{
  Stage, putting, sentinel_put, ended, Consumer, iterating, draining, joining, leaving, returned,
  closed, raised, State, at_point, outcome, start, Step, put, put_sentinel, end_worker, get_item,
  get_sentinel, drain_item, drain_sentinel, join, leave, Event, abandon, interrupt_drain,
  join_timeout, join_timeout_late, Run, here, step, event, max_out_queue_size,
}

-- The sentinel has been put.
abbrev pub Past : Stage → Type 0
Past putting = ⊥
Past sentinel_put = Unit
Past ended = Unit

module _ {T : Type 0} (items : List T) (failure : Option Error) where
  -- The queue holds `q`, with the sentinel last once it is put.
  abbrev pub Holds : Stage → List (Option T) → List T → Type 0
  Holds putting queue q = queue ≡ map some q
  Holds sentinel_put queue q = queue ≡ map some q ++ (none ∷ [])
  Holds ended queue q = queue ≡ map some q ++ (none ∷ [])

  -- What holds where the generator is: while it iterates nothing is lost, and once it has joined, it
  -- has yielded everything.
  abbrev pub At : Consumer → State T → Type 0
  At iterating s = (q : List T) × Holds s.stage s.queue q × (s.yielded ++ (q ++ s.rest) ≡ items)
  At draining s =
      (q : List T) × Holds s.stage s.queue q × ((missed : List T) × (s.yielded ++ missed ≡ items))
  At joining s = (s.yielded ≡ items) × Past s.stage
  At returned s = (s.yielded ≡ items) × Past s.stage × ((failure ≡ none) ⊎ (s.timed_out ≡ true))
  At (raised e) s = (s.yielded ≡ items) × Past s.stage × (failure ≡ some e)
  At leaving s =
      ((missed : List T) × (s.yielded ++ missed ≡ items)) × (Past s.stage ⊎ (s.interrupted ≡ true))
  At closed s =
      ((missed : List T) × (s.yielded ++ missed ≡ items)) × (Past s.stage ⊎ (s.interrupted ≡ true))

  abbrev Rests : Stage → List T → Type 0
  Rests putting xs = Unit
  Rests sentinel_put xs = xs ≡ []
  Rests ended xs = xs ≡ []

  pub record IsSound (s : State T) : Type 0 where
    pub at : At s.consumer s
    pub nothing_left : Rests s.stage s.rest
    pub bounded : length s.queue ≤ max_out_queue_size

  map-snoc : (q : List T) (x : T) → map some q ++ (some x ∷ []) ≡ map some (q ++ (x ∷ []))
  map-snoc [] x = refl
  map-snoc (y ∷ q) x = ap (λ l. some y ∷ l) (map-snoc q x)

  At-put :
      (x : T) (xs : List T) (queue : List (Option T)) (c : Consumer) (ys : List T) (i o : Bool)
      → At c (at_point putting (x ∷ xs) queue c ys i o)
      → At c (at_point putting xs (queue ++ (some x ∷ [])) c ys i o)
  At-put x xs queue iterating ys i o (q, e, f) = (
    q ++ (x ∷ []),
    ap (λ l. l ++ (some x ∷ [])) e ∙ map-snoc q x,
    ap (λ l. ys ++ l) (append_assoc q (x ∷ []) xs) ∙ f,
  )
  At-put x xs queue draining ys i o (q, e, f) =
      (q ++ (x ∷ []), ap (λ l. l ++ (some x ∷ [])) e ∙ map-snoc q x, f)
  At-put x xs queue joining ys i o h = absurd h.1
  At-put x xs queue returned ys i o h = absurd h.1
  At-put x xs queue (raised e) ys i o h = absurd h.1
  At-put x xs queue leaving ys i o h = h
  At-put x xs queue closed ys i o h = h

  At-put_sentinel :
      (queue : List (Option T)) (c : Consumer) (ys : List T) (i o : Bool)
      → At c (at_point putting [] queue c ys i o)
      → At c (at_point sentinel_put [] (queue ++ (none ∷ [])) c ys i o)
  At-put_sentinel queue iterating ys i o (q, e, f) = (q, ap (λ l. l ++ (none ∷ [])) e, f)
  At-put_sentinel queue draining ys i o (q, e, f) = (q, ap (λ l. l ++ (none ∷ [])) e, f)
  At-put_sentinel queue joining ys i o h = absurd h.1
  At-put_sentinel queue returned ys i o h = absurd h.1
  At-put_sentinel queue (raised e) ys i o h = absurd h.1
  At-put_sentinel queue leaving ys i o h = (h.0, inl tt)
  At-put_sentinel queue closed ys i o h = (h.0, inl tt)

  At-end_worker :
      (xs : List T) (queue : List (Option T)) (c : Consumer) (ys : List T) (i o : Bool)
      → At c (at_point sentinel_put xs queue c ys i o)
      → At c (at_point ended xs queue c ys i o)
  At-end_worker xs queue iterating ys i o h = h
  At-end_worker xs queue draining ys i o h = h
  At-end_worker xs queue joining ys i o h = h
  At-end_worker xs queue returned ys i o h = h
  At-end_worker xs queue (raised e) ys i o h = h
  At-end_worker xs queue leaving ys i o h = h
  At-end_worker xs queue closed ys i o h = h

  -- What taking an item off the queue leaves.
  Holds-item :
      (g : Stage) (x : T) (queue : List (Option T)) (q : List T)
      → Holds g (some x ∷ queue) q
      → (q' : List T) × (q ≡ x ∷ q') × Holds g queue q'
  Holds-item putting x queue [] e = absurd (cc)
  Holds-item sentinel_put x queue [] e = absurd (cc)
  Holds-item ended x queue [] e = absurd (cc)
  Holds-item putting x queue (y ∷ q) e = (q, cc, cc)
  Holds-item sentinel_put x queue (y ∷ q) e = (q, cc, cc)
  Holds-item ended x queue (y ∷ q) e = (q, cc, cc)

  -- The sentinel is behind everything else.
  Holds-sentinel :
      (g : Stage) (queue : List (Option T)) (q : List T)
      → Holds g (none ∷ queue) q
      → (q ≡ []) × Past g
  Holds-sentinel putting queue [] e = absurd (cc)
  Holds-sentinel putting queue (y ∷ q) e = absurd (cc)
  Holds-sentinel sentinel_put queue [] e = (refl, tt)
  Holds-sentinel sentinel_put queue (y ∷ q) e = absurd (cc)
  Holds-sentinel ended queue [] e = (refl, tt)
  Holds-sentinel ended queue (y ∷ q) e = absurd (cc)

  no_rest : (g : Stage) (xs : List T) → Past g → Rests g xs → xs ≡ []
  no_rest putting xs p h = absurd p
  no_rest sentinel_put xs p h = h
  no_rest ended xs p h = h

  At-join :
      (f : Option Error) (g : Stage) (xs : List T) (queue : List (Option T)) (ys : List T)
      (i o : Bool)
      → failure ≡ f
      → ys ≡ items
      → Past g
      → At (outcome f) (at_point g xs queue (outcome f) ys i o)
  At-join none g xs queue ys i o e h past = (h, past, inl e)
  At-join (some err) g xs queue ys i o e h past = (h, past, e)

  pub Step-IsSound : {s t : State T} → Step failure s t → IsSound s → IsSound t
  Step-IsSound (put x xs queue c ys i o room) h = record {
    at = At-put x xs queue c ys i o h.at;
    nothing_left = tt;
    bounded = omega (arith, length-append queue (some x ∷ []));
  }
  Step-IsSound (put_sentinel queue c ys i o room) h = record {
    at = At-put_sentinel queue c ys i o h.at;
    nothing_left = refl;
    bounded = omega (arith, length-append {A = Option T} queue (none ∷ []));
  }
  Step-IsSound (end_worker xs queue c ys i o) h = record {
    at = At-end_worker xs queue c ys i o h.at;
    nothing_left = h.nothing_left;
    bounded = h.bounded;
  }
  Step-IsSound (get_item g xs x queue ys i o) h =
      let (q, e, f) = h.at in
      let (q', e', held) = Holds-item g x queue q e in
      record {
        at = (
          q',
          held,
          append_assoc ys (x ∷ []) (q' ++ xs) ∙ ap (λ l. ys ++ (l ++ xs)) (sym e') ∙ f,
        );
        nothing_left = h.nothing_left;
        bounded = omega (arith, h.bounded);
      }
  Step-IsSound (get_sentinel g xs queue ys i o) h =
      let (q, e, f) = h.at in
      let (empty, past) = Holds-sentinel g queue q e in
      let left = no_rest g xs past h.nothing_left in
      record {
        at = (
          sym (append-nil ys) ∙ ap (λ l. ys ++ l) (sym left ∙ ap (λ l. l ++ xs) (sym empty)) ∙ f,
          past,
        );
        nothing_left = h.nothing_left;
        bounded = omega (arith, h.bounded);
      }
  Step-IsSound (drain_item g xs x queue ys i o) h =
      let (q, e, f) = h.at in
      let (q', e', held) = Holds-item g x queue q e in
      record {
        at = (q', held, f);
        nothing_left = h.nothing_left;
        bounded = omega (arith, h.bounded);
      }
  Step-IsSound (drain_sentinel g xs queue ys i o) h =
      let (q, e, f) = h.at in
      record {
        at = (f, inl (Holds-sentinel g queue q e).1);
        nothing_left = h.nothing_left;
        bounded = omega (arith, h.bounded);
      }
  Step-IsSound (join xs queue ys i o) h = record {
    at = At-join failure ended xs queue ys i o refl h.at.0 tt;
    nothing_left = h.nothing_left;
    bounded = h.bounded;
  }
  Step-IsSound (leave g xs queue ys i o) h = record {
    at = h.at;
    nothing_left = h.nothing_left;
    bounded = h.bounded;
  }

  pub Event-IsSound : {s t : State T} → Event failure s t → IsSound s → IsSound t
  Event-IsSound (abandon g xs queue ys i o) h =
      let (q, e, f) = h.at in
      record { at = (q, e, (q ++ xs, f)); nothing_left = h.nothing_left; bounded = h.bounded }
  Event-IsSound (interrupt_drain g xs queue ys i o) h =
      let (q, e, f) = h.at in
      record { at = (f, inr refl); nothing_left = h.nothing_left; bounded = h.bounded }
  Event-IsSound (join_timeout xs queue ys i o) h = record {
    at = (h.at.0, tt, inr refl);
    nothing_left = h.nothing_left;
    bounded = h.bounded;
  }
  Event-IsSound (join_timeout_late xs queue ys i o) h = record {
    at = At-join failure sentinel_put xs queue ys i true refl h.at.0 tt;
    nothing_left = h.nothing_left;
    bounded = h.bounded;
  }

  pub Run-IsSound : {n : ℕ} {s : State T} → Run failure (start items) n s → IsSound s
  Run-IsSound here = record { at = ([], refl, refl); nothing_left = tt; bounded = omega arith }
  Run-IsSound (step r st) = Step-IsSound st (Run-IsSound r)
  Run-IsSound (event r ev) = Event-IsSound ev (Run-IsSound r)
