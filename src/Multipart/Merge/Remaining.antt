-- ===== src/Multipart/Merge/Remaining.antt =====
-- s3/multipart/upload_parts_server_side_merge.py: which parts are left to copy, and the numbers of
-- parts and finished pieces.
use mathlib.Core.Path.{subst}
use rclone_kit.Base.{
  ℕ, ◌+◌, ◌≡◌, refl, sym, ap, ◌∙◌, inl, inr, Bool, true, false, not, ◌||◌, ◌&&◌, List, [], ◌∷◌,
  ◌++◌, map, member, keep, length, Result, ok, traverse, ◌==◌, ==_iff, Bool-cases, arith,
}
use rclone_kit.Base.Removal.{
  Distinct, remove, member-remove, member-remove-other, Distinct-remove, by_address, eq_self,
  member-snoc, Distinct-snoc,
}
use rclone_kit.Multipart.Pieces.{FinishedPiece}
use rclone_kit.Multipart.MergeState.{Part, MergeState, on_finished, part_numbers}
use rclone_kit.Multipart.Merge.{result_at}

-- Removing what is there takes one away.
length-remove-member :
    (a : ℕ) (bs : List ℕ) → member a bs ≡ true → length (remove a bs) + 1 ≡ length bs
length-remove-member a [] h = cc
length-remove-member a (b ∷ bs) h = elim (Bool-cases (a == b)) [
  | inl e ↦ rw e (omega arith)
  | inr e ↦
      let rest : member a bs ≡ true = ground (arith, h, e) in
      rw e (omega (arith, length-remove-member a bs rest))
]

-- Two lists without repetition that have the same numbers are of one length.
pub same_members_length :
    (xs ys : List ℕ)
    → Distinct xs
    → Distinct ys
    → ((n : ℕ) → member n xs ≡ member n ys)
    → length xs ≡ length ys
same_members_length [] [] d e same = refl
same_members_length [] (y ∷ ys) d e same = absurd (cc (same y, eq_self y))
same_members_length (x ∷ xs) ys d e same =
    let there : member x ys ≡ true = sym (same x) ∙ rw (eq_self x) refl in
    let rest = same_members_length xs (remove x ys) d.1 (Distinct-remove x ys e) (λ n.
      by_address x n (λ m. member m xs ≡ member m (remove x ys)) (d.0 ∙ sym (member-remove x ys e))
        (λ h. rw (member-remove-other x n ys h) (rw (sym (same n)) (rw h refl)))) in
    omega (arith, rest, length-remove-member x ys there)

abbrev pub numbers : List Part → List ℕ
numbers = map (λ (p : Part). p.part_number)

pub part_numbers-snoc :
    (ps : List FinishedPiece) (p : FinishedPiece)
    → part_numbers (ps ++ (p ∷ [])) ≡ part_numbers ps ++ (p.part_number ∷ [])
part_numbers-snoc [] p = refl
part_numbers-snoc (q ∷ qs) p = ap (λ (ns : List ℕ). q.part_number ∷ ns) (part_numbers-snoc qs p)

pub and_false : (y : Bool) → (y && false) ≡ false
and_false true = refl
and_false false = refl

pub or_assoc : (x y z : Bool) → ((x || y) || z) ≡ (x || (y || z))
or_assoc true y z = refl
or_assoc false y z = refl

-- What is left to copy: the parts that are not finished.
pub member-remaining :
    (n : ℕ) (done : List ℕ) (ps : List Part)
    → member n (numbers (keep (λ p. not (member p.part_number done)) ps))
      ≡ (member n (numbers ps) && not (member n done))
member-remaining n done [] = refl
member-remaining n done (p ∷ ps) =
    by_address p.part_number n
      (λ m.
        member m (numbers (keep (λ (q : Part). not (member q.part_number done)) (p ∷ ps)))
        ≡ (member m (numbers (p ∷ ps)) && not (member m done)))
      (elim (Bool-cases (member p.part_number done)) [
        | inl e ↦
            rw (e, eq_self p.part_number) (dropped _ _ (member-remaining p.part_number done ps) e)
        | inr e ↦ rw (e, eq_self p.part_number) refl
      ])
      (λ h. elim (Bool-cases (member p.part_number done)) [
        | inl e ↦ rw (e, h) (member-remaining n done ps)
        | inr e ↦ rw (e, h) (member-remaining n done ps)
      ])
  where
    dropped :
        (x y : Bool)
        → x ≡ (y && not (member p.part_number done))
        → member p.part_number done ≡ true
        → x ≡ false
    dropped x y h e = h ∙ ap (λ b. y && not b) e ∙ and_false y

pub or_true : (x : Bool) → (x || true) ≡ true
or_true true = refl
or_true false = refl

pub finished-Distinct :
    (p : FinishedPiece) (s : MergeState)
    → Distinct (part_numbers s.finished)
    → member p.part_number (part_numbers s.finished) ≡ false
    → Distinct (part_numbers (on_finished p s).finished)
unfolding on_finished
finished-Distinct p s d new =
    subst Distinct (sym (part_numbers-snoc s.finished p))
      (Distinct-snoc p.part_number (part_numbers s.finished) d new)

pub finished-apart :
    (n : ℕ) (p : FinishedPiece) (s : MergeState)
    → member n (part_numbers s.finished) ≡ false
    → (n == p.part_number) ≡ false
    → member n (part_numbers (on_finished p s).finished) ≡ false
unfolding on_finished
finished-apart n p s h k =
    ap (member n) (part_numbers-snoc s.finished p)
    ∙ member-snoc n p.part_number (part_numbers s.finished)
    ∙ rw (h, k) refl

-- What is in a list differs from what is not.
pub other : (n a : ℕ) (ns : List ℕ) → member a ns ≡ false → member n ns ≡ true → (n == a) ≡ false
other n a ns out h = elim (Bool-cases (n == a)) [
  | inl e ↦ absurd (cc (h, out, ap (λ m. member m ns) ((==_iff n a).0 e)))
  | inr e ↦ e
]

-- Where the number is not the first one.
pub later : (a n : ℕ) (b : Bool) → (a == n) ≡ false → (n == a || b) ≡ true → b ≡ true
later a n b k h = ground arith

-- What is finished, with what is left to copy, is every part.
pub remaining_complete : (f a : Bool) → (f ≡ true → a ≡ true) → (f || (a && not f)) ≡ a
remaining_complete true a h = sym (h refl)
remaining_complete false true h = refl
remaining_complete false false h = refl

pub length-numbers : (ps : List Part) → length (numbers ps) ≡ length ps
length-numbers [] = refl
length-numbers (p ∷ ps) = omega (arith, length-numbers ps)

pub length-part_numbers : (ps : List FinishedPiece) → length (part_numbers ps) ≡ length ps
length-part_numbers [] = refl
length-part_numbers (p ∷ ps) = omega (arith, length-part_numbers ps)

-- When each of the parts has its result, so has the list.
pub traverse-results :
    (results : List (ℕ × Result FinishedPiece)) (ps : List Part)
    → ((n : ℕ) → member n (numbers ps) ≡ true → (p : FinishedPiece) × (result_at n results ≡ ok p))
    → (pieces : List FinishedPiece) × (traverse (λ (p : Part). result_at p.part_number results) ps
        ≡ ok pieces)
traverse-results results [] have = ([], refl)
traverse-results results (p ∷ ps) have =
    let (first, e) = have p.part_number (rw (eq_self p.part_number) refl) in
    let (pieces, es) =
      traverse-results results ps (λ n h. have n (rw h (or_true (n == p.part_number)))) in
    (first ∷ pieces, rw (e, es) refl)

pub not_done : (f a : Bool) → (a && not f) ≡ true → f ≡ false
not_done false a h = refl
not_done true true h = sym h
not_done true false h = absurd cc
