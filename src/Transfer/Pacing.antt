-- ===== src/Transfer/Pacing.antt =====
-- operations/transfer_ops_embedded.py: how many jobs are outstanding, started and not waited for.
use Prim.Native.Nat.{max}
use rclone_kit.Base.{
  ℕ, zero, suc, ◌+◌, ◌-◌, ◌≤◌, ◌<◌, ◌≡◌, refl, inl, inr, String, Bool, Option, none, some, List, [],
  ◌∷◌, length, take, drop, Result, ok, err, Bool-cases, arith,
}
use rclone_kit.Operation.{OperationResult}
use rclone_kit.Operation.Partitioned.{aggregate_results}
use rclone_kit.Transfer.{
  Jobs, Partition, after, start_batch, follow, wait_batch, run_batches, files_embedded, checked,
  batch_size_of,
}

-- A world with the number of outstanding jobs, and the most there have been at once.
pub record Count (W : Type 0) : Type 0 where
  pub world : W
  pub outstanding : ℕ
  pub peak : ℕ

abbrev one_more : {H W : Type 0} → Result H → W → Count W → Count W
one_more (err e) w c = record c { world = w }
one_more (ok h) w c = record {
  world = w;
  outstanding = c.outstanding + 1;
  peak = max c.peak (c.outstanding + 1);
}

-- Any jobs, counted.
abbrev pub counted : {Request H W : Type 0} → Jobs Request H W → Jobs Request H (Count W)
counted m = record {
  start_job = λ r c. let (h, w) = m.start_job r c.world in (h, one_more h w c);
  wait = λ h c.
      let (q, w) = m.wait h c.world in (q, record c { world = w; outstanding = c.outstanding - 1 });
}

module _ {W : Type 0} (limit : ℕ) where
  -- The limit is kept, also where the step raises; `Q` holds of what it returns.
  abbrev Post {ℓ} : {A : Type ℓ} → Result A → Count W → (A → Count W → Type 0) → Type 0
  Post (err e) c Q = c.peak ≤ limit
  Post (ok x) c Q = (c.peak ≤ limit) × Q x c

  abbrev Paced {ℓ} : {A : Type ℓ} → Result A × Count W → (A → Count W → Type 0) → Type 0
  Paced out Q = Post out.0 out.1 Q

  after-Paced {ℓ κ} :
      {A : Type ℓ} {B : Type κ} (r : Result A) (c : Count W)
      (next : A → Count W → Result B × Count W) (Q : A → Count W → Type 0)
      (R : B → Count W → Type 0)
      → Post r c Q
      → ((x : A) (c' : Count W) → c'.peak ≤ limit → Q x c' → Paced (next x c') R)
      → Paced (after (r, c) next) R
  after-Paced (err e) c next Q R h k = h
  after-Paced (ok x) c next Q R h k = k x c h.0 h.1

  Post-peak {ℓ} :
      {A : Type ℓ} (r : Result A) (c : Count W) (Q : A → Count W → Type 0)
      → Post r c Q
      → c.peak ≤ limit
  Post-peak (err e) c Q h = h
  Post-peak (ok x) c Q h = h.0

module _ {Request H W : Type 0} (m : Jobs Request H W) (limit : ℕ) where
  one_more-Post :
      (r : Result H) (w : W) (c : Count W)
      → c.peak ≤ limit
      → c.outstanding < limit
      → Post limit r (one_more r w c) (λ h c'. c'.outstanding ≡ c.outstanding + 1)
  one_more-Post (err e) w c h k = h
  one_more-Post (ok x) w c h k = (omega arith, refl)

  wait-Post :
      (r : Result OperationResult) (w : W) (c : Count W)
      → c.peak ≤ limit
      → Post limit r
          (record c { world = w; outstanding = c.outstanding - 1 })
          (λ q c'. c'.outstanding ≡ c.outstanding - 1)
  wait-Post (err e) w c h = h
  wait-Post (ok x) w c h = (h, refl)

  start_batch-Paced :
      (ps : List (Partition Request)) (c : Count W)
      → c.peak ≤ limit
      → c.outstanding + length ps ≤ limit
      → Paced limit
          (start_batch (counted m) ps c)
          (λ hs c'. (c'.outstanding ≡ c.outstanding + length hs) × (length hs ≡ length ps))
  unfolding start_batch
  start_batch-Paced [] c h k = (h, (omega arith, refl))
  start_batch-Paced (p ∷ ps) c h k =
      after-Paced limit _ _ _ (λ x c'. c'.outstanding ≡ c.outstanding + 1) _
        (one_more-Post (m.start_job p.job c.world).0 (m.start_job p.job c.world).1 c h
          (omega arith))
        (λ x c1 h1 e1.
          after-Paced limit _ _ _
            (λ hs c'. (c'.outstanding ≡ c1.outstanding + length hs) × (length hs ≡ length ps)) _
            (start_batch-Paced ps c1 h1 (omega arith))
            (λ hs c2 h2 e2. (h2, (omega (arith, e1, e2.0), omega (arith, e2.1)))))

  follow-Paced :
      (q : OperationResult) (rmdirs : Option Request) (c : Count W)
      → c.peak ≤ limit
      → c.outstanding < limit
      → Paced limit (follow (counted m) q rmdirs c) (λ qs c'. c'.outstanding ≡ c.outstanding)
  unfolding follow
  follow-Paced q none c h k = (h, refl)
  follow-Paced q (some request) c h k = elim (Bool-cases q.is_ok) [
    | inl e ↦ rw e (
        after-Paced limit _ _ _ (λ x c'. c'.outstanding ≡ c.outstanding + 1) _
          (one_more-Post (m.start_job request c.world).0 (m.start_job request c.world).1 c h k)
          (λ x c1 h1 e1.
            after-Paced limit _ _ _ (λ r c'. c'.outstanding ≡ c1.outstanding - 1) _
              (wait-Post (m.wait x c1.world).0 (m.wait x c1.world).1 c1 h1)
              (λ r c2 h2 e2. (h2, omega (arith, e1, e2)))))
    | inr e ↦ rw e (h, refl)
  ]

  wait_batch-Paced :
      (hs : List (H × Option Request)) (c : Count W)
      → c.peak ≤ limit
      → c.outstanding ≡ length hs
      → length hs ≤ limit
      → Paced limit (wait_batch (counted m) hs c) (λ qs c'. c'.outstanding ≡ 0)
  unfolding wait_batch
  wait_batch-Paced [] c h k l = (h, k)
  wait_batch-Paced ((x, rmdirs) ∷ hs) c h k l =
      after-Paced limit _ _ _ (λ q c'. c'.outstanding ≡ c.outstanding - 1) _
        (wait-Post (m.wait x c.world).0 (m.wait x c.world).1 c h)
        (λ q c1 h1 e1.
          after-Paced limit _ _ _ (λ more c'. c'.outstanding ≡ c1.outstanding) _
            (follow-Paced q rmdirs c1 h1 (omega (arith, e1)))
            (λ more c2 h2 e2.
              after-Paced limit _ _ _ (λ qs c'. c'.outstanding ≡ 0) _
                (wait_batch-Paced hs c2 h2 (omega (arith, e1, e2)) (omega arith))
                (λ qs c3 h3 e3. (h3, e3))))

length-take : {A : Type 0} (n : ℕ) (xs : List A) → length (take n xs) ≤ n
length-take zero xs = omega arith
length-take (suc n) [] = omega arith
length-take (suc n) (x ∷ xs) = omega (arith, length-take n xs)

module _ {Request H W : Type 0} (m : Jobs Request H W) where
  run_batches-Paced :
      (fuel batch_size : ℕ) (ps : List (Partition Request)) (c : Count W)
      → c.peak ≤ batch_size
      → c.outstanding ≡ 0
      → Paced batch_size
          (run_batches (counted m) fuel batch_size ps c)
          (λ rs c'. c'.outstanding ≡ 0)
  unfolding run_batches
  run_batches-Paced zero k [] c h e = (h, e)
  run_batches-Paced (suc fuel) k [] c h e = (h, e)
  run_batches-Paced zero k (p ∷ ps) c h e = h
  run_batches-Paced (suc fuel) k (p ∷ ps) c h e =
      after-Paced k _ _ _
        (λ hs c'.
          (c'.outstanding ≡ c.outstanding + length hs) × (length hs ≡ length (take k (p ∷ ps))))
        _ (start_batch-Paced m k (take k (p ∷ ps)) c h (omega (arith, length-take k (p ∷ ps))))
        (λ hs c1 h1 e1.
          after-Paced k _ _ _ (λ qs c'. c'.outstanding ≡ 0) _
            (wait_batch-Paced m k hs c1 h1 (omega (arith, e1.0))
              (omega (arith, e1.1, length-take k (p ∷ ps))))
            (λ qs c2 h2 e2.
              after-Paced k _ _ _ (λ rs c'. c'.outstanding ≡ 0) _
                (run_batches-Paced fuel k (drop k (p ∷ ps)) c2 h2 e2) (λ rs c3 h3 e3. (h3, e3))))

  checked-Paced :
      (limit : ℕ) (check : Bool) (r : Result OperationResult) (c : Count W)
      → c.peak ≤ limit
      → Paced limit (checked check r c) (λ out c'. Unit)
  checked-Paced limit check (err e) c h = h
  checked-Paced limit check (ok aggregate) c h = (h, tt)

  files_embedded-batch :
      (now : ℕ) (operation : String) (source destination : Option String) (check : Bool)
      (max_partition_workers : Option ℕ) (ps : List (Partition Request)) (w : W)
      → (files_embedded
          (counted m)
          now
          operation
          source
          destination
          check
          max_partition_workers
          ps
          (record { world = w; outstanding = 0; peak = 0 })).1.peak
        ≤ batch_size_of max_partition_workers (length ps)
  unfolding files_embedded
  files_embedded-batch now operation source destination check workers ps w =
      let c : Count W = record { world = w; outstanding = 0; peak = 0 } in
      let size = batch_size_of workers (length ps) in
      let out = files_embedded (counted m) now operation source destination check workers ps c in
      Post-peak size out.0 out.1 (λ rs c'. Unit)
        (after-Paced size _ _ _ (λ rs c'. c'.outstanding ≡ 0) _
          (run_batches-Paced (length ps) size ps c (omega arith) refl)
          (λ results c1 h e.
            checked-Paced size check (aggregate_results now operation source destination results) c1
              h))

  -- An operation on the files of some partitions never has more jobs outstanding at once, started and
  -- not waited for, than the number that is given as `max_partition_workers`, or one if that is zero,
  -- and without that number no more than there are partitions; the `rmdirs` jobs count, and it holds
  -- whichever calls raise.
  pub files_embedded-peak :
      (now : ℕ) (operation : String) (source destination : Option String) (check : Bool)
      (workers : ℕ) (ps : List (Partition Request)) (w : W)
      → ((files_embedded
            (counted m)
            now
            operation
            source
            destination
            check
            (some workers)
            ps
            (record { world = w; outstanding = 0; peak = 0 })).1.peak
          ≤ max 1 workers)
        × ((files_embedded
              (counted m)
              now
              operation
              source
              destination
              check
              none
              ps
              (record { world = w; outstanding = 0; peak = 0 })).1.peak
            ≤ length ps)
  files_embedded-peak now operation source destination check zero ps w = (
    files_embedded-batch now operation source destination check (some zero) ps w,
    files_embedded-batch now operation source destination check none ps w,
  )
  files_embedded-peak now operation source destination check (suc n) ps w = (
    omega (arith, files_embedded-batch now operation source destination check (some (suc n)) ps w),
    files_embedded-batch now operation source destination check none ps w,
  )
