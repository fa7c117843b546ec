-- ===== src/Multipart/Chunker/Fetches.antt =====
-- s3/chunk_task.py: which parts the loop requests.
use native.Mathlib.Nat.{mul-le-mul_right, div-add-mod', mod-lt, add-mul}
use rclone_kit.Base.{
  ℕ, zero, suc, ◌+◌, ◌-◌, ◌*◌, ◌/◌, ◌%◌, ◌≤◌, ◌<◌, ◌≡◌, refl, sym, ap, ◌∙◌, ◌≢◌, inl, inr, true,
  false, not, ◌||◌, none, some, List, [], ◌∷◌, ◌++◌, map, member, keep, All, assertion_error, ok,
  ◌==◌, lt→ltb, le→ltb, ne→==, Bool-cases, arith, dec_le,
}
use rclone_kit.Multipart.Pieces.{StreamItem, pieces_of, UploadInfo, total_chunks}
use rclone_kit.Multipart.Chunker.{
  PartNumberTracker, largest, skip_done, next_part_number, Chunking, fetch_of, process, chunk_loop,
  file_chunker, raised,
}

-- The `k` numbers from `c` on.
abbrev pub range : (c k : ℕ) → List ℕ
range c zero = []
range c (suc k) = c ∷ range (c + 1) k

-- The numbers of `range c k` that are not in `done`.
abbrev pub missing : List ℕ → (c k : ℕ) → List ℕ
missing done c k = keep (λ n. not (member n done)) (range c k)

member-largest : (n : ℕ) (ns : List ℕ) → member n ns ≡ true → n ≤ largest ns
member-largest n [] h = cc
member-largest n (m ∷ ms) h = elim (Bool-cases (n == m)) [
  | inl e ↦ ground arith
  | inr e ↦
      let drop : (n == m || member n ms) ≡ member n ms = rw e in
      ground (arith, member-largest n ms (sym drop ∙ h))
]

member-append : (n : ℕ) (xs ys : List ℕ) → member n (xs ++ ys) ≡ (member n xs || member n ys)
member-append n [] ys = refl
member-append n (x ∷ xs) ys = ground (arith, member-append n xs ys)

-- A number above all of `ns` is not among them.
member-above : (n b : ℕ) (ns : List ℕ) → All (λ m. m ≤ b) ns → b < n → member n ns ≡ false
member-above n b [] h lt = refl
member-above n b (m ∷ ms) h lt =
    rw (ne→== n m (λ e. ground (arith, h.0, e)), member-above n b ms h.1 lt)

-- `done` and `first` have the same numbers from `c` on.
abbrev Same : (done first : List ℕ) → ℕ → Type 0
Same done first c = (n : ℕ) → c ≤ n → member n done ≡ member n first

-- Where the tracker's loop stops: at the first missing number, or past the last one.
abbrev Stops : (done first : List ℕ) (fuel c k last : ℕ) → Type 0
Stops done first fuel c k last =
    (c' : ℕ) × (k' : ℕ) × (skip_done fuel done c ≡ some c')
    × (c ≤ c')
    × (c' + k' ≡ last)
    × (member c' first ≡ false)
    × (missing first c k ≡ missing first c' k')

skip_done-Stops :
    (done first : List ℕ) (fuel c k last : ℕ)
    → Same done first c
    → member last first ≡ false
    → c + k ≡ last
    → 0 < fuel
    → largest done + 1 < c + fuel
    → Stops done first fuel c k last
skip_done-Stops done first zero c k last same h e lt enough = ground arith
skip_done-Stops done first (suc fuel) c zero last same h e lt enough =
    let end : c ≡ last = omega arith in
    let here : member c first ≡ false = ap (λ n. member n first) end ∙ h in
    (c, 0, rw (same c (omega arith), here) refl, omega arith, e, here, refl)
skip_done-Stops done first (suc fuel) c (suc k) last same h e lt enough =
    elim (Bool-cases (member c first)) [
      | inl here ↦
          let there : member c done ≡ true = same c (omega arith) ∙ here in
          let below = member-largest c done there in
          let (c', k', stop, le, sum, free, eq) =
            skip_done-Stops done first fuel (c + 1) k last (λ n le. same n (omega arith)) h
              (omega arith) (omega arith) (omega arith) in
          (c', k', rw there stop, omega arith, sum, free, rw here eq)
      | inr here ↦ (c, suc k, rw (same c (omega arith), here) refl, omega arith, e, here, refl)
    ]

module _ (info : UploadInfo) (hc : 0 < info.chunk_size) where
  abbrev size : ℕ
  size = info.file_size

  abbrev chunk : ℕ
  chunk = info.chunk_size

  abbrev total : ℕ
  total = total_chunks info

  -- The parts before the last start within the file, and all of them cover it.
  offset-within : (n : ℕ) → n < total → n * chunk < size
  unfolding total_chunks
  offset-within n h = elim (dec_le (n + 1) (size / chunk)) [
    | yes le ↦
        let m = mul-le-mul_right chunk le in
        let a = add-mul n 1 chunk in let d = div-add-mod' size chunk in omega (arith, m, a, d, hc)
    | no gt ↦
        let d = div-add-mod' size chunk in
        let same : n ≡ size / chunk = ground (arith, h, gt) in
        let left : (size % chunk) ≢ 0 = ground (arith, h, gt) in rw same (omega (arith, d, left))
  ]

  offset-past : size ≤ total * chunk
  unfolding total_chunks
  offset-past =
      let d = div-add-mod' size chunk in
      let a = add-mul (size / chunk) 1 chunk in let l = mod-lt size hc in ground (arith, d, a, l)

abbrev tracker : (last : ℕ) (done : List ℕ) (c : ℕ) → PartNumberTracker
tracker last done c = record {
  last_part_value = last;
  done_part_numbers = done;
  curr_part_number = c;
  finished = false;
}

next_part_number_lem :
    (last : ℕ) (done : List ℕ) (c c' : ℕ)
    → skip_done (suc (suc (largest done))) done c ≡ some c'
    → c' ≤ last
    → next_part_number (tracker last done c) ≡ ok (some c', tracker last done (c' + 1))
unfolding next_part_number
next_part_number_lem last done c c' e h = rw (e, le→ltb last c' h)

module _ (info : UploadInfo) (hc : 0 < info.chunk_size) (fetcher : ℕ → List ℕ) where
  process-within :
      (n : ℕ) (rest : Chunking)
      → 0 < n
      → n < total_chunks info + 1
      → process info fetcher none n rest
        ≡ record { fetches = fetch_of info n ∷ rest.fetches; ending = rest.ending }
  process-within n rest pos lt =
      let w = offset-within info hc (n - 1) (omega arith) in
      rw (
        lt→ltb ((n - 1) * info.chunk_size) info.file_size w,
        ne→== (fetch_of info n).fetch_size 0 (ground (arith, w, hc)),
      )

  process-past :
      (n : ℕ) (rest : Chunking)
      → n ≡ total_chunks info + 1
      → process info fetcher none n rest ≡ record { fetches = []; ending = raised assertion_error }
  process-past n rest e =
      let m : n - 1 ≡ total_chunks info = omega arith in
      let p : info.file_size ≤ (n - 1) * info.chunk_size = rw (m) (offset-past info hc) in
      rw (le→ltb ((n - 1) * info.chunk_size) info.file_size p)

  module _ (first : List ℕ) (bounded : All (λ n. n ≤ total_chunks info) first)
      (later : (n : ℕ) → All (λ m. m ≤ n) (fetcher n)) where
    Same-add :
        (done : List ℕ) (c n : ℕ)
        → c ≤ n
        → Same done first c
        → Same (fetcher n ++ done) first (n + 1)
    Same-add done c n le same m lt =
        member-append m (fetcher n) done
        ∙ ap (λ b. b || member m done) (member-above m n (fetcher n) (later n) (omega arith))
        ∙ same m (omega arith)

    abbrev Fetches : Chunking → (c k : ℕ) → Type 0
    Fetches r c k = r ≡ record {
      fetches = map (fetch_of info) (missing first c k);
      ending = raised assertion_error;
    }

    -- One turn, if the remaining turns request what is missing after it.
    process-Fetches :
        (c k : ℕ) (rest : Chunking)
        → 0 < c
        → c + k ≡ total_chunks info + 1
        → member c first ≡ false
        → ((j : ℕ) → k ≡ suc j → Fetches rest (c + 1) j)
        → Fetches (process info fetcher none c rest) c k
    process-Fetches c zero rest pos sum free next = process-past c rest (omega arith)
    process-Fetches c (suc k) rest pos sum free next =
        rw (process-within c rest pos (omega arith), free, next k refl)

    chunk_loop-Fetches :
        (fuel count : ℕ) (done : List ℕ) (c k : ℕ)
        → Same done first c
        → 0 < c
        → c + k ≡ total_chunks info + 1
        → k < fuel
        → Fetches
            (chunk_loop info fetcher none fuel count (tracker (total_chunks info + 1) done c))
            c
            k
    chunk_loop-Fetches zero count done c k same pos sum lt = ground arith
    chunk_loop-Fetches (suc fuel) count done c k same pos sum lt =
        let last = total_chunks info + 1 in
        let free_last = member-above last (total_chunks info) first bounded (omega arith) in
        let (c', k', stop, le, sum', free, eq) =
          skip_done-Stops done first (suc (suc (largest done))) c k last same free_last sum
            (omega arith) (omega arith) in
        let next : (j : ℕ) → k' ≡ suc j → _ = λ j e.
          chunk_loop-Fetches fuel (count + 1) (fetcher c' ++ done) (c' + 1) j
            (Same-add done c c' le same) (omega arith) (omega (arith, e, sum'))
            (omega (arith, e, sum', sum)) in
        rw (next_part_number_lem last done c c' stop (omega arith), eq)
          (process-Fetches c' k' _ (omega arith) sum' free next)

-- With a positive chunk size, no limit and no cancellation, whatever the order in which the reads
-- complete, and if no part number done before is above the number of chunks: the loop ends, and
-- requests exactly the parts from 1 to the number of chunks that were not done before, each once and
-- in ascending order, each with its offset and with the bytes up to the next part or to the end of
-- the file. It then asks for one part more, which fails the assertion that the offset is within the
-- file, so that the end of every complete run is reached by an exception.
pub file_chunker-fetches :
    (info : UploadInfo) (parts : List StreamItem) (fetcher : ℕ → List ℕ)
    → 0 < info.chunk_size
    → All (λ n. n ≤ total_chunks info) (map (λ p. p.part_number) (pieces_of parts))
    → ((n : ℕ) → All (λ m. m ≤ n) (fetcher n))
    → file_chunker info fetcher none parts false ≡ record {
      fetches =
          map
            (fetch_of info)
            (missing (map (λ p. p.part_number) (pieces_of parts)) 1 (total_chunks info));
      ending = raised assertion_error;
    }
unfolding file_chunker
file_chunker-fetches info parts fetcher hc bounded later =
    chunk_loop-Fetches info hc fetcher _ bounded later (suc (total_chunks info + 1)) 0 _ 1
      (total_chunks info) (λ n le. refl) (omega arith) (omega arith) (omega arith)
