-- ===== src/Transfer/Options.antt =====
-- operations/transfer_options.py: `TransferOptions` and what is sent of them in `_config`. The counts
-- may be negative before they are checked.
pub mod Lookup
pub mod Overlay
use rclone_kit.Base.{
  ℕ, String, Bool, true, false, Option, none, some, List, [], ◌∷◌, ◌++◌, ◌≡◌, refl, ap, ◌∙◌, sym,
  Result, ok, err, value_error, str_eq, raise_if, ◌>>◌, ◌>>=◌, if◌then◌else◌, Bool-cases, inl, inr,
}
use rclone_kit.Base.Int.{ℤ, pos, negsuc, ltb_ℤ}

pub record TransferOptions : Type 0 where
  pub checkers : Option ℤ
  pub transfers : Option ℤ
  pub low_level_retries : Option ℤ
  pub retries : Option ℤ
  pub multi_thread_streams : Option ℤ
  pub retries_sleep : Option String
  pub timeout : Option String
  pub max_backlog : Option ℤ
  pub metadata : Option Bool
  pub create_empty_src_dirs : Bool

-- A value of `_config`
pub data ConfigValue : Type 0 where
  count : ℤ → ConfigValue
  text : String → ConfigValue
  flag : Bool → ConfigValue

abbrev at_least : ℤ → Option ℤ → Result (Unit {0})
at_least minimum none = ok tt
at_least minimum (some n) = raise_if (ltb_ℤ n minimum) value_error

-- `__post_init__`
unfoldable pub check_options : TransferOptions → Result TransferOptions
check_options o = do
  at_least (pos 1) o.checkers
  at_least (pos 1) o.transfers
  at_least (pos 1) o.low_level_retries
  at_least (pos 1) o.retries
  at_least (pos 1) o.max_backlog
  at_least (pos 0) o.multi_thread_streams
  ok o

abbrev pub or_else {ℓ} : {A : Type ℓ} → Option A → Option A → Option A
or_else (some x) other = some x
or_else none other = other

-- The fields that are replaced.
abbrev pub overlaid : TransferOptions → TransferOptions → TransferOptions
overlaid o profile = record {
  checkers = or_else o.checkers profile.checkers;
  transfers = or_else o.transfers profile.transfers;
  low_level_retries = or_else o.low_level_retries profile.low_level_retries;
  retries = or_else o.retries profile.retries;
  multi_thread_streams = or_else o.multi_thread_streams profile.multi_thread_streams;
  retries_sleep = or_else o.retries_sleep profile.retries_sleep;
  timeout = or_else o.timeout profile.timeout;
  max_backlog = or_else o.max_backlog profile.max_backlog;
  metadata = or_else o.metadata profile.metadata;
  create_empty_src_dirs = o.create_empty_src_dirs;
}

-- `with_defaults_from`; `replace` makes a new value, which is checked.
unfoldable pub with_defaults_from : TransferOptions → TransferOptions → Result TransferOptions
unfolding check_options
with_defaults_from o profile = check_options (overlaid o profile)

abbrev counted_as : Option ℤ → Option ConfigValue
counted_as none = none
counted_as (some n) = some (count n)

abbrev worded_as : Option String → Option ConfigValue
worded_as none = none
worded_as (some s) = some (text s)

abbrev flagged_as : Option Bool → Option ConfigValue
flagged_as none = none
flagged_as (some b) = some (flag b)

-- `_CONFIG_KEYS.items()`, with the values of the fields
abbrev pub config_items : TransferOptions → List (String × Option ConfigValue)
config_items o =
    ("Checkers", counted_as o.checkers)
    ∷ ("Transfers", counted_as o.transfers)
    ∷ ("LowLevelRetries", counted_as o.low_level_retries)
    ∷ ("Retries", counted_as o.retries)
    ∷ ("MultiThreadStreams", counted_as o.multi_thread_streams)
    ∷ ("RetriesInterval", worded_as o.retries_sleep)
    ∷ ("Timeout", worded_as o.timeout)
    ∷ ("MaxBacklog", counted_as o.max_backlog)
    ∷ ("Metadata", flagged_as o.metadata)
    ∷ []

-- The loop of `encode_transfer_options_config`, in front of what is set after it.
abbrev pub set_fields :
    List (String × Option ConfigValue) → List (String × ConfigValue) → List (String × ConfigValue)
set_fields [] config = config
set_fields ((key, none) ∷ items) config = set_fields items config
set_fields ((key, some v) ∷ items) config = (key, v) ∷ set_fields items config

abbrev pub multi_thread_set : Option ℤ → List (String × ConfigValue)
multi_thread_set none = []
multi_thread_set (some n) = ("MultiThreadSet", flag true) ∷ []

unfoldable pub encode_transfer_options_config : TransferOptions → List (String × ConfigValue)
encode_transfer_options_config o =
    set_fields (config_items o) (multi_thread_set o.multi_thread_streams)

-- `config.get(key)`
abbrev pub config_get : String → List (String × ConfigValue) → Option ConfigValue
config_get key [] = none
config_get key ((k, v) ∷ config) = if str_eq k key then some v else config_get key config

-- `COPY_TUNED_PROFILE`
abbrev pub copy_tuned_profile : TransferOptions
copy_tuned_profile = record {
  checkers = some (pos 1000);
  transfers = some (pos 32);
  low_level_retries = some (pos 10);
  retries = some (pos 3);
  multi_thread_streams = none;
  retries_sleep = none;
  timeout = none;
  max_backlog = none;
  metadata = none;
  create_empty_src_dirs = false;
}

-- `COPY_TUNED_PROFILE_WITHOUT_RETRIES`
abbrev pub copy_tuned_profile_without_retries : TransferOptions
copy_tuned_profile_without_retries = record copy_tuned_profile { retries = none }
