-- ===== src/Job/Tracked.antt =====
-- job.py: the dict `_records` of tracked records.
use mathlib.Core.Path.{subst}
use rclone_kit.Base.{
  ℕ, ◌+◌, ◌<◌, ◌≡◌, ◌≢◌, refl, sym, ap, ◌∙◌, String, false, Option, List, [], ◌∷◌, All, All-map,
  Bool-cases, true, Result, ◌⊎◌, inl, inr, arith, ◌==◌, ne→==, eq→==, ==_iff,
}
use rclone_kit.Base.Int.{ℤ, eqb_ℤ, eqb_ℤ_iff}
use rclone_kit.Rc.Payload.{GoTime}
use rclone_kit.Rc.Jobs.{RcJobRef}
use rclone_kit.Rc.JobClient.{JobClient}
use rclone_kit.Job.{JobRecord, Monitor, is_settled, update, track, untrack}
use rclone_kit.Operation.{JobStatus}
use rclone_kit.Job.Settle.{forget, apply_poll_outcome, act_on, write_outcome}
use rclone_kit.Job.Polling.{enroll}
use rclone_kit.Job.Writes.{
  Writes, untouched, refreshed, settles, write_outcome-Writes, request_cancel-Writes,
  stats_answer-Writes,
}
use rclone_kit.Job.Reach.{
  Step, starts, requests, applies, forgets, counts, gives_up_batching, outside, Reach, here, next,
}

abbrev Entry : Type 0
Entry = ℤ × ℕ

-- An entry names a record that has its job id.
abbrev pub IsOwnEntry : (ℕ → JobRecord) → ℕ → Entry → Type 0
IsOwnEntry heap count (id, a) = ((heap a).ref.job_id ≡ id) × (a < count)

-- No job id is tracked twice.
abbrev pub Distinct : List Entry → Type 0
Distinct [] = Unit
Distinct ((id, _) ∷ entries) = All (λ (e : Entry). e.0 ≢ id) entries × Distinct entries

pub record IsTracked {W : Type 0} (m : Monitor W) : Type 0 where
  pub entries_own : All (IsOwnEntry m.heap m.count) m.tracked
  pub distinct : Distinct m.tracked

module _ (P : Entry → Type 0) where
  All-untrack : (id : ℤ) (entries : List Entry) → All P entries → All P (untrack id entries)
  All-untrack id [] h = tt
  All-untrack id ((j, b) ∷ entries) h = elim (Bool-cases (eqb_ℤ j id)) [
    | inl e ↦ rw e h.1
    | inr e ↦ rw e (h.0, All-untrack id entries h.1)
  ]

  All-track :
      (id : ℤ) (a : ℕ) (entries : List Entry)
      → P (id, a)
      → All P entries
      → All P (track id a entries)
  All-track id a [] p h = (p, tt)
  All-track id a ((j, b) ∷ entries) p h = elim (Bool-cases (eqb_ℤ j id)) [
    | inl e ↦ rw e (subst (λ (k : ℤ). P (k, a)) (sym ((eqb_ℤ_iff j id).0 e)) p, h.1)
    | inr e ↦ rw e (h.0, All-track id a entries p h.1)
  ]

Distinct-untrack :
    (id : ℤ) (entries : List Entry) → Distinct entries → Distinct (untrack id entries)
Distinct-untrack id [] h = tt
Distinct-untrack id ((j, b) ∷ entries) h = elim (Bool-cases (eqb_ℤ j id)) [
  | inl e ↦ rw e h.1
  | inr e ↦
      rw e (All-untrack (λ (x : Entry). x.0 ≢ j) id entries h.0, Distinct-untrack id entries h.1)
]

ne_of_eqb_ℤ : (j id : ℤ) → eqb_ℤ j id ≡ false → j ≢ id
ne_of_eqb_ℤ j id e p = cc ((eqb_ℤ_iff j id).1 p)

untrack-gone :
    (id : ℤ) (entries : List Entry)
    → Distinct entries
    → All (λ (x : Entry). x.0 ≢ id) (untrack id entries)
untrack-gone id [] h = tt
untrack-gone id ((j, b) ∷ entries) h = elim (Bool-cases (eqb_ℤ j id)) [
  | inl e ↦
      rw e (subst (λ (k : ℤ). All (λ (x : Entry). x.0 ≢ k) entries) ((eqb_ℤ_iff j id).0 e) h.0)
  | inr e ↦ rw e (ne_of_eqb_ℤ j id e, untrack-gone id entries h.1)
]

Distinct-track :
    (id : ℤ) (a : ℕ) (entries : List Entry) → Distinct entries → Distinct (track id a entries)
Distinct-track id a [] h = (tt, tt)
Distinct-track id a ((j, b) ∷ entries) h = elim (Bool-cases (eqb_ℤ j id)) [
  | inl e ↦ rw e h
  | inr e ↦ rw e (
    All-track (λ (x : Entry). x.0 ≢ j) id a entries (λ p. ne_of_eqb_ℤ j id e (sym p)) h.0,
    Distinct-track id a entries h.1,
  )
]

module _ (heap : ℕ → JobRecord) (count a : ℕ) (r : JobRecord) where
  -- A write keeps the job id of the record.
  write-IsOwnEntry :
      r.ref ≡ (heap a).ref
      → (x : Entry) → IsOwnEntry heap count x
      → IsOwnEntry (update heap a r) count x
  write-IsOwnEntry same (id, b) (h, lt) = elim (Bool-cases (b == a)) [
    | inl e ↦ rw e (
      ap (λ (c : RcJobRef). c.job_id) same
          ∙ (ap (λ (c : ℕ). (heap c).ref.job_id) (sym ((==_iff b a).0 e)) ∙ h),
      lt,
    )
    | inr e ↦ rw e (h, lt)
  ]

module _ {W : Type 0} where
  Writes-IsTracked : {a : ℕ} {m m' : Monitor W} → Writes a m m' → IsTracked m → IsTracked m'
  Writes-IsTracked (untouched h t c) i = record {
    entries_own = rw (h, t, c) i.entries_own;
    distinct = rw t i.distinct;
  }
  Writes-IsTracked {a} {m} (refreshed r h t c e s) i = record {
    entries_own =
        rw (h, t, c)
          (All-map _ _ m.tracked (write-IsOwnEntry m.heap m.count a r e.same_ref) i.entries_own);
    distinct = rw t i.distinct;
  }
  Writes-IsTracked {a} {m} (settles r h t c e s) i = record {
    entries_own =
        rw (h, t, c)
          (All-map _ _ m.tracked (write-IsOwnEntry m.heap m.count a r e.same_ref) i.entries_own);
    distinct = rw t i.distinct;
  }

  Writes-tracked :
      {a : ℕ} {m m' : Monitor W}
      → Writes a m m'
      → (m'.tracked ≡ m.tracked) × ((m'.heap a).ref ≡ (m.heap a).ref)
  Writes-tracked {a} (untouched h t c) = (t, ap (λ k. (k a).ref) h)
  Writes-tracked {a} (refreshed r h t c e s) = (t, rw (h, eq→== a a refl) e.same_ref)
  Writes-tracked {a} (settles r h t c e s) = (t, rw (h, eq→== a a refl) e.same_ref)

  forget-IsTracked : (a : ℕ) (m : Monitor W) → IsTracked m → IsTracked (forget a m)
  forget-IsTracked a m i = record {
    entries_own = All-untrack _ (m.heap a).ref.job_id m.tracked i.entries_own;
    distinct = Distinct-untrack (m.heap a).ref.job_id m.tracked i.distinct;
  }

  enroll-IsOwnEntry :
      (ref : RcJobRef) (operation : String) (source destination : Option String) (m : Monitor W)
      (x : Entry)
      → IsOwnEntry m.heap m.count x
      → IsOwnEntry (enroll ref operation source destination m).heap (m.count + 1) x
  enroll-IsOwnEntry ref operation source destination m (id, b) (h, lt) =
      rw (ne→== b m.count (omega arith)) (h, omega arith)

  enroll-IsTracked :
      (ref : RcJobRef) (operation : String) (source destination : Option String) (m : Monitor W)
      → IsTracked m
      → IsTracked (enroll ref operation source destination m)
  enroll-IsTracked ref operation source destination m i = record {
    entries_own =
        All-track _ ref.job_id m.count m.tracked
          (rw (eq→== m.count m.count refl) (refl, omega arith))
          (All-map _ _ m.tracked (enroll-IsOwnEntry ref operation source destination m)
            i.entries_own);
    distinct = Distinct-track ref.job_id m.count m.tracked i.distinct;
  }

module _ {W : Type 0} (client : JobClient W) (iso : String → Option GoTime) (now : W → ℕ) where
  pub Step-IsTracked : {m m' : Monitor W} → Step client iso now m m' → IsTracked m → IsTracked m'
  Step-IsTracked {m} (starts ref o s d) i = enroll-IsTracked ref o s d m i
  Step-IsTracked {m} (requests a h) i = Writes-IsTracked (request_cancel-Writes a m) i
  Step-IsTracked {m} (applies a o h) i =
      Writes-IsTracked (write_outcome-Writes client iso now a o m) i
  Step-IsTracked {m} (counts a t h) i = Writes-IsTracked (stats_answer-Writes a t m) i
  Step-IsTracked {m} (forgets a h e) i = forget-IsTracked a m i
  Step-IsTracked {m} gives_up_batching i = record {
    entries_own = i.entries_own;
    distinct = i.distinct;
  }
  Step-IsTracked {m} (outside w) i = record { entries_own = i.entries_own; distinct = i.distinct }

  -- From a monitor of which this holds, every run, whatever rclone answers, leads to monitors of which
  -- it holds: each tracked record stands under its own job id, and no job id is tracked twice, also
  -- between the section that settles a record and the one that forgets it.
  pub Reach-IsTracked : {m m' : Monitor W} → Reach client iso now m m' → IsTracked m → IsTracked m'
  Reach-IsTracked here i = i
  Reach-IsTracked (next r st) i = Step-IsTracked st (Reach-IsTracked r i)

  act_on-tracked :
      (a : ℕ) (outcome : Result JobStatus) (m : Monitor W)
      → is_settled (m.heap a) ≡ false
      → ((act_on client iso now a outcome m).1.tracked ≡ m.tracked)
        × (((act_on client iso now a outcome m).1.heap a).ref ≡ (m.heap a).ref)
  unfolding write_outcome
  act_on-tracked a outcome m live =
      let kept = Writes-tracked (write_outcome-Writes client iso now a outcome m) in
      let same : write_outcome client iso now a outcome m ≡ act_on client iso now a outcome m =
        rw live refl in
      subst (λ out. (out.1.tracked ≡ m.tracked) × ((out.1.heap a).ref ≡ (m.heap a).ref)) same kept

  -- A poll, with no other thread in between, of an unsettled record of a monitor with distinct entries
  -- leaves no entry under the record's job id if it settles the record, and leaves the entries alone
  -- if it does not.
  pub apply_poll_outcome-untracks :
      (a : ℕ) (outcome : Result JobStatus) (m : Monitor W)
      → IsTracked m
      → is_settled (m.heap a) ≡ false
      → let m' = (apply_poll_outcome client iso now a outcome m).1 in
        ((is_settled (m'.heap a) ≡ true) × All (λ e. e.0 ≢ (m.heap a).ref.job_id) m'.tracked)
        ⊎ ((is_settled (m'.heap a) ≡ false) × (m'.tracked ≡ m.tracked))
  unfolding apply_poll_outcome
  apply_poll_outcome-untracks a outcome m i live =
      let k = (act_on client iso now a outcome m).1 in
      let (same, ref) = act_on-tracked a outcome m live in
      elim (Bool-cases (is_settled (k.heap a))) [
        | inl e ↦ inl (
          rw live e,
          rw (live, e, ref, same) (untrack-gone (m.heap a).ref.job_id m.tracked i.distinct),
        )
        | inr e ↦ inr (rw live e, rw (live, e) same)
      ]
