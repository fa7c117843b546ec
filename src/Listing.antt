-- ===== src/Listing.antt =====
-- operations/listing_ops_embedded.py and dir_listing.py: from the entries that rclone lists to a
-- `DirListing`. An entry is an `RPath`, or the `Dir` or `File` made of it; its equality, its flag and
-- the glob are parameters, and so is `shuffle` for `random.shuffle`.
use rclone_kit.Base.{
  ℕ, zero, suc, Bool, true, false, not, ◌||◌, List, [], ◌∷◌, Option, none, some, Result, ok, err,
  keep, if◌then◌else◌,
}
use rclone_kit.Base.Int.{ℤ, pos, negsuc}
use mathlib.Core.List.{reverse}

-- `Order`
pub data Order : Type 0 where
  normal reversed random : Order

-- `ListingOption`
pub data ListingOption : Type 0 where
  dirs_only files_only all_entries : ListingOption

-- What `fetch_ls_embedded` asks for in `opt` and `_config`; `max_depth` is `MaxDepth`.
pub record LsRequest : Type 0 where
  pub only_files : Bool
  pub only_dirs : Bool
  pub recurse : Bool
  pub max_depth : Option ℕ

abbrev recursing : Bool → ListingOption → Option ℕ → LsRequest
recursing recurse files_only depth = record {
  only_files = true;
  only_dirs = false;
  recurse = recurse;
  max_depth = depth;
}
recursing recurse dirs_only depth = record {
  only_files = false;
  only_dirs = true;
  recurse = recurse;
  max_depth = depth;
}
recursing recurse all_entries depth = record {
  only_files = false;
  only_dirs = false;
  recurse = recurse;
  max_depth = depth;
}

-- The request of `fetch_ls_embedded`
abbrev pub ls_request : Option ℤ → ListingOption → LsRequest
ls_request none option = recursing false option none
ls_request (some (pos zero)) option = recursing false option none
ls_request (some (pos (suc n))) option = recursing true option (some (suc n))
ls_request (some (negsuc n)) option = recursing true option none

-- `DirListing`
pub record DirListing (E : Type 0) : Type 0 where
  pub dirs : List E
  pub files : List E

module _ {E : Type 0} (shuffle : List E → List E) where
  -- `paths.reverse()` or `random.shuffle(paths)`
  abbrev pub ordered : Order → List E → List E
  ordered normal paths = paths
  ordered reversed paths = reverse paths
  ordered random paths = shuffle paths

module _ {E : Type 0} (same : E → E → Bool) (is_dir : E → Bool) where
  abbrev pub seen_in : E → List E → Bool
  seen_in e [] = false
  seen_in e (s ∷ seen) = same e s || seen_in e seen

  -- The loop of `_dedupe`, with the entries seen before.
  abbrev pub dedupe_loop : List E → List E → List E
  dedupe_loop seen [] = []
  dedupe_loop seen (item ∷ items) =
      let repeated = dedupe_loop seen items in
      let fresh = item ∷ dedupe_loop (item ∷ seen) items in
      if seen_in item seen then repeated else fresh

  -- `DirListing.__init__`
  abbrev pub dir_listing : List E → DirListing E
  dir_listing dirs_and_files =
      let unique = dedupe_loop [] dirs_and_files in
      record { dirs = keep is_dir unique; files = keep (λ f. not (is_dir f)) unique }

  -- The rest of `fetch_ls_embedded`, on the answer of `operations/list`
  abbrev pub fetch_ls :
      (shuffle : List E → List E)
      → Option (E → Bool)
      → Order
      → Result (List E)
      → Result (DirListing E)
  fetch_ls shuffle glob order (err e) = err e
  fetch_ls shuffle none order (ok paths) = ok (dir_listing (ordered shuffle order paths))
  fetch_ls shuffle (some fits) order (ok paths) =
      ok (dir_listing (ordered shuffle order (keep fits paths)))
