-- ===== src/Walk/Parallel/Backlog.antt =====
-- fs/walk.py: how many directories are in flight while several are listed at once.
use rclone_kit.Base.{
  ℕ, suc, ◌+◌, sym, ap, ◌∙◌, Option, ◌≤◌, ◌<◌, ◌≡◌, refl, inl, inr, List, [], ◌∷◌, ◌++◌, some, none,
  Result, Option-cases, length, length-append, ltb, Bool-cases, arith,
}
use rclone_kit.Walk.{put}
use rclone_kit.Walk.Parallel.{
  FsListing, submit_pending, list_dir, children, yielded, round, walk_loop, fs_walk,
}

module _ {D : Type 0} (backlog : ℕ) where
  -- The backlog is kept, and something is left waiting only if it is full.
  abbrev pub IsPaced : List D × List D → Type 0
  IsPaced s = (length s.1 ≤ backlog) × (length s.1 < backlog → s.0 ≡ [])

  submit_pending-IsPaced :
      (pending in_flight : List D)
      → length in_flight ≤ backlog
      → IsPaced (submit_pending backlog pending in_flight)
  submit_pending-IsPaced [] in_flight h = (h, λ k. refl)
  submit_pending-IsPaced (path ∷ pending) in_flight h =
      elim (Bool-cases (ltb (length in_flight) backlog)) [
        | inl e ↦
            let room : length in_flight < backlog = ground arith in
            rw e (
              submit_pending-IsPaced pending (in_flight ++ (path ∷ []))
                (omega (arith, length-append in_flight (path ∷ []))))
        | inr e ↦
            let full : backlog ≤ length in_flight = ground arith in
            rw e (h, λ k. absurd (omega (arith, k, full)))
      ]

-- The listing of a round, if there is one.
abbrev pub shown {ℓ} : {A : Type ℓ} → Option A → List A
shown none = []
shown (some a) = a ∷ []

abbrev pub put_all {ℓ} :
    {A : Type ℓ} → List A → List A × Result (Unit {0}) → List A × Result (Unit {0})
put_all [] rest = rest
put_all (a ∷ out) rest = put a (put_all out rest)

put_all-shown :
    {A : Type 0} (out : List A) (o : Option A) (rest : List A × Result (Unit {0}))
    → put_all out (yielded o rest) ≡ put_all (out ++ shown o) rest
put_all-shown [] none rest = refl
put_all-shown [] (some a) rest = refl
put_all-shown (a ∷ out) o rest = ap (put a) (put_all-shown out o rest)

module _ {D N : Type 0} (ls : D → Result (List N × List N)) (join : D → N → D) (backlog : ℕ) where
  -- After `n` rounds of a walk that begins in `s`: the listings that were yielded, and the state.
  pub data Rounds (s : List D × List D) : ℕ → List (FsListing D N) → List D × List D → Type 0 where
    begun : Rounds s 0 [] s
    after_round :
        {n : ℕ} {out : List (FsListing D N)} {pending : List D} {head : D} {in_flight : List D}
        → Rounds s n out (pending, head ∷ in_flight)
        → Rounds s
            (suc n)
            (out ++ shown (round ls join backlog pending head in_flight).0)
            (round ls join backlog pending head in_flight).1

  round-IsPaced :
      (pending : List D) (head : D) (in_flight : List D)
      → length in_flight ≤ backlog
      → IsPaced backlog (round ls join backlog pending head in_flight).1
  unfolding round
  round-IsPaced pending head in_flight h = elim (Option-cases (list_dir ls head)) [
    | inl e ↦ rw (e, round) (submit_pending-IsPaced backlog pending in_flight h)
    | inr (l, e) ↦
        let s = submit_pending backlog (pending ++ children join l) in_flight in
        rw (e, round)
          (submit_pending-IsPaced backlog s.0 s.1
            (submit_pending-IsPaced backlog (pending ++ children join l) in_flight h).0)
  ]

  Rounds-IsPaced :
      {s s' : List D × List D} {n : ℕ} {out : List (FsListing D N)}
      → Rounds s n out s'
      → IsPaced backlog s
      → IsPaced backlog s'
  Rounds-IsPaced begun i = i
  Rounds-IsPaced (after_round {n} {out} {pending} {head} {in_flight} r) i =
      round-IsPaced pending head in_flight (omega (arith, (Rounds-IsPaced r i).0))

  -- The loop goes through the rounds.
  Rounds-walk_loop :
      {s s' : List D × List D} {n : ℕ} {out : List (FsListing D N)}
      → Rounds s n out s'
      → (fuel : ℕ)
      → walk_loop ls join backlog (n + fuel) s ≡ put_all out (walk_loop ls join backlog fuel s')
  unfolding walk_loop
  Rounds-walk_loop {s} begun fuel =
      let same : 0 + fuel ≡ fuel = omega arith in ap (λ k. walk_loop ls join backlog k s) same
  Rounds-walk_loop {s} (after_round {n} {out} {pending} {head} {in_flight} r) fuel =
      let later : n + suc fuel ≡ suc n + fuel = omega arith in
      let this = round ls join backlog pending head in_flight in
      ap (λ k. walk_loop ls join backlog k s) (sym later)
      ∙ Rounds-walk_loop r (suc fuel)
      ∙ put_all-shown out this.0 (walk_loop ls join backlog fuel this.1)

-- A parallel walk with fuel for more than some rounds yields what these rounds yield and goes on from the
-- state that they lead to. In that state, whatever listing gives, no more directories are in flight
-- than the backlog, and as long as there are fewer, no directory waits to be submitted.
pub fs_walk-IsPaced :
    {D N : Type 0} (ls : D → Result (List N × List N)) (join : D → N → D) (backlog : ℕ) (self : D)
    (n fuel : ℕ) (out : List (FsListing D N)) (s : List D × List D)
    → Rounds ls join backlog (submit_pending backlog (self ∷ []) []) n out s
    → (fs_walk ls join backlog (n + fuel) self ≡ put_all out (walk_loop ls join backlog fuel s))
      × IsPaced backlog s
unfolding fs_walk
fs_walk-IsPaced ls join backlog self n fuel out s r = (
  Rounds-walk_loop ls join backlog r fuel,
  Rounds-IsPaced ls join backlog r (submit_pending-IsPaced backlog (self ∷ []) [] (omega arith)),
)
