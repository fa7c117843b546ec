-- ===== src/Transfer/Options/Overlay.antt =====
-- operations/transfer_options.py: the options of a caller over those of a profile.
use rclone_kit.Base.{
  String, Bool, Option, none, some, ◌≡◌, refl, ap, ◌∙◌, sym, Result, ok, err, ◌>>◌,
}
use rclone_kit.Base.Int.{ℤ, pos}
use rclone_kit.Transfer.Options.{
  TransferOptions, at_least, check_options, or_else, overlaid, with_defaults_from, counted_as,
  worded_as, flagged_as, config_items, set_fields, multi_thread_set, encode_transfer_options_config,
  config_get,
}
use rclone_kit.Transfer.Options.Lookup.{
  overlay, SameKeys, Fresh, or_else-none, or_else_self, get-overlay,
}

counted_as-or_else :
    (a b : Option ℤ) → counted_as (or_else a b) ≡ or_else (counted_as a) (counted_as b)
counted_as-or_else none b = refl
counted_as-or_else (some n) b = refl

worded_as-or_else :
    (a b : Option String) → worded_as (or_else a b) ≡ or_else (worded_as a) (worded_as b)
worded_as-or_else none b = refl
worded_as-or_else (some s) b = refl

flagged_as-or_else :
    (a b : Option Bool) → flagged_as (or_else a b) ≡ or_else (flagged_as a) (flagged_as b)
flagged_as-or_else none b = refl
flagged_as-or_else (some x) b = refl

config_items-overlaid :
    (o p : TransferOptions)
    → config_items (overlaid o p) ≡ overlay (config_items o) (config_items p)
config_items-overlaid o p = simp (counted_as-or_else, worded_as-or_else, flagged_as-or_else)

multi_thread_set-or_else :
    (key : String) (a b : Option ℤ)
    → config_get key (multi_thread_set (or_else a b))
      ≡ or_else (config_get key (multi_thread_set a)) (config_get key (multi_thread_set b))
multi_thread_set-or_else key none b = refl
multi_thread_set-or_else key (some n) none = sym (or_else-none _)
multi_thread_set-or_else key (some n) (some m) = or_else_self _

at_least-or_else :
    (minimum : ℤ) (a b : Option ℤ)
    → at_least minimum a ≡ ok tt
    → at_least minimum b ≡ ok tt
    → at_least minimum (or_else a b) ≡ ok tt
at_least-or_else minimum none b h k = k
at_least-or_else minimum (some n) b h k = h

-- Options that were checked stay valid under those of a checked profile.
record IsValid (o : TransferOptions) : Type 0 where
  checkers : at_least (pos 1) o.checkers ≡ ok tt
  transfers : at_least (pos 1) o.transfers ≡ ok tt
  low_level_retries : at_least (pos 1) o.low_level_retries ≡ ok tt
  retries : at_least (pos 1) o.retries ≡ ok tt
  max_backlog : at_least (pos 1) o.max_backlog ≡ ok tt
  streams : at_least (pos 0) o.multi_thread_streams ≡ ok tt

>>-eq-ok {ℓ} :
    {A : Type ℓ} (check : Result (Unit {0})) (next : Result A) {x : A}
    → (check >> next) ≡ ok x
    → (check ≡ ok tt) × (next ≡ ok x)
>>-eq-ok (err e) next h = cc
>>-eq-ok (ok tt) next h = (refl, h)

check_options-IsValid : (o : TransferOptions) → check_options o ≡ ok o → IsValid o
unfolding check_options
check_options-IsValid o h =
    let (a, h1) = >>-eq-ok _ _ h in
    let (b, h2) = >>-eq-ok _ _ h1 in
    let (c, h3) = >>-eq-ok _ _ h2 in
    let (d, h4) = >>-eq-ok _ _ h3 in
    let (e, h5) = >>-eq-ok _ _ h4 in
    let (f, h6) = >>-eq-ok _ _ h5 in
    record {
      checkers = a;
      transfers = b;
      low_level_retries = c;
      retries = d;
      max_backlog = e;
      streams = f;
    }

same_keys : (o p : TransferOptions) → SameKeys (config_items o) (config_items p)
same_keys o p = (refl, (refl, (refl, (refl, (refl, (refl, (refl, (refl, (refl, tt)))))))))

fresh : (o : TransferOptions) (n : Option ℤ) → Fresh (config_items o) (multi_thread_set n)
fresh o none = (
  (refl, (refl, (refl, (refl, (refl, (refl, (refl, (refl, tt)))))))),
  refl,
  (
    (refl, (refl, (refl, (refl, (refl, (refl, (refl, tt))))))),
    refl,
    (
      (refl, (refl, (refl, (refl, (refl, (refl, tt)))))),
      refl,
      (
        (refl, (refl, (refl, (refl, (refl, tt))))),
        refl,
        (
          (refl, (refl, (refl, (refl, tt)))),
          refl,
          (
            (refl, (refl, (refl, tt))),
            refl,
            ((refl, (refl, tt)), refl, ((refl, tt), refl, (tt, refl, tt))),
          ),
        ),
      ),
    ),
  ),
)
fresh o (some n) = (
  (refl, (refl, (refl, (refl, (refl, (refl, (refl, (refl, tt)))))))),
  refl,
  (
    (refl, (refl, (refl, (refl, (refl, (refl, (refl, tt))))))),
    refl,
    (
      (refl, (refl, (refl, (refl, (refl, (refl, tt)))))),
      refl,
      (
        (refl, (refl, (refl, (refl, (refl, tt))))),
        refl,
        (
          (refl, (refl, (refl, (refl, tt)))),
          refl,
          (
            (refl, (refl, (refl, tt))),
            refl,
            ((refl, (refl, tt)), refl, ((refl, tt), refl, (tt, refl, tt))),
          ),
        ),
      ),
    ),
  ),
)

-- Checked options with the defaults of a checked profile are again valid, and what is sent of them has
-- under every key the caller's value, or else the profile's: with `MultiThreadSet` exactly if either
-- has a number of streams.
pub with_defaults_from-config :
    (o profile : TransferOptions) (key : String)
    → check_options o ≡ ok o
    → check_options profile ≡ ok profile
    → (result : TransferOptions) × (with_defaults_from o profile ≡ ok result)
      × (config_get key (encode_transfer_options_config result)
          ≡ or_else
              (config_get key (encode_transfer_options_config o))
              (config_get key (encode_transfer_options_config profile)))
unfolding with_defaults_from encode_transfer_options_config
with_defaults_from-config o p key h k =
    let v = check_options-IsValid o h in
    let u = check_options-IsValid p k in
    (
      overlaid o p,
      rw
          (
            at_least-or_else (pos 1) o.checkers p.checkers v.checkers u.checkers,
            at_least-or_else (pos 1) o.transfers p.transfers v.transfers u.transfers,
            at_least-or_else (pos 1) o.low_level_retries p.low_level_retries v.low_level_retries
                u.low_level_retries,
            at_least-or_else (pos 1) o.retries p.retries v.retries u.retries,
            at_least-or_else (pos 1) o.max_backlog p.max_backlog v.max_backlog u.max_backlog,
            at_least-or_else (pos 0) o.multi_thread_streams p.multi_thread_streams v.streams
                u.streams,
          )
          refl,
      ap
            (λ items. config_get key (
              set_fields items
                (multi_thread_set (or_else o.multi_thread_streams p.multi_thread_streams))))
            (config_items-overlaid o p)
          ∙ get-overlay key (config_items o) (config_items p)
              (multi_thread_set o.multi_thread_streams) (multi_thread_set p.multi_thread_streams)
              (multi_thread_set (or_else o.multi_thread_streams p.multi_thread_streams))
              (same_keys o p) (fresh o o.multi_thread_streams)
              (multi_thread_set-or_else key o.multi_thread_streams p.multi_thread_streams),
    )
