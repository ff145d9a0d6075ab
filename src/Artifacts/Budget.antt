-- ===== src/Artifacts/Budget.antt =====
-- go/internal/artifacts/budget.go: `ReadBudget`, the counters that bound a set of reads.
-- A `*ReadBudget` is an optional state, `none` for one that is not initialised; a method returns the
-- state after it with an error or nothing. The mutex is not modelled: each method runs alone.
pub mod Laws
use infrawright_dev.Base.{
  ℕ, ◌+◌, Bool, true, false, not, ◌&&◌, ◌||◌, if◌then◌else◌, Result, ok, err, Option, none, some,
  List, [], ◌∷◌,
}
use infrawright_dev.Base.Int.{ℤ, pos, negsuc, le_int}

-- `MaxTotalBytes` and `MaxFileBytes` are pointers: `none` is nil.
pub record BoundedReadLimits : Type 0 where
  pub max_files : ℤ
  pub max_directories : ℤ
  pub max_directory_entries : ℤ
  pub max_depth : ℤ
  pub max_total_bytes : Option ℤ
  pub max_file_bytes : Option ℤ

-- The codes of the failures.
pub data Failure : Type 0 where
  invalid_read_limit read_failed : Failure
  file_limit_exceeded file_count_exceeded byte_budget_exceeded : Failure
  directory_depth_exceeded directory_count_exceeded directory_entry_limit_exceeded : Failure

pub record ReadBudgetLimits : Type 0 where
  pub max_files : ℤ
  pub max_directories : ℤ
  pub max_directory_entries : ℤ
  pub max_depth : ℤ
  pub max_total_bytes : ℤ
  pub max_file_bytes : ℤ

-- The counters start at 0 and only grow.
pub record ReadBudget : Type 0 where
  pub limits : ReadBudgetLimits
  pub consumed_files : ℕ
  pub consumed_directories : ℕ
  pub consumed_directory_entries : ℕ
  pub consumed_bytes : ℕ

-- `maximumJavaScriptSafeInteger`
abbrev max_safe_integer : ℤ
max_safe_integer = pos 9_007_199_254_740_991

abbrev is_positive : ℤ → Bool
is_positive n = not (le_int n (pos 0))

unfoldable pub valid_positive_safe_integer : ℤ → Bool
valid_positive_safe_integer n = is_positive n && le_int n max_safe_integer

unfoldable pub start : ReadBudgetLimits → ReadBudget
start limits = record {
  limits = limits;
  consumed_files = 0;
  consumed_directories = 0;
  consumed_directory_entries = 0;
  consumed_bytes = 0;
}

-- The checks of the two byte limits, once neither is nil.
check_bytes : BoundedReadLimits → ℤ → ℤ → Result Failure ReadBudget
unfolding start
check_bytes limits total file =
    if not (is_positive total) || not (is_positive file)
    then err invalid_read_limit
    else ok (
        start (record {
          max_files = limits.max_files;
          max_directories = limits.max_directories;
          max_directory_entries = limits.max_directory_entries;
          max_depth = limits.max_depth;
          max_total_bytes = total;
          max_file_bytes = file;
        }))

-- The checks of the byte limits for nil.
check_nil : BoundedReadLimits → Option ℤ → Option ℤ → Result Failure ReadBudget
unfolding check_bytes
check_nil limits (some total) (some file) = check_bytes limits total file
check_nil limits _ _ = err invalid_read_limit

unfoldable pub new_read_budget : BoundedReadLimits → Result Failure ReadBudget
unfolding valid_positive_safe_integer check_nil
new_read_budget limits =
    if not (valid_positive_safe_integer limits.max_files)
      || not (valid_positive_safe_integer limits.max_directories)
      || not (valid_positive_safe_integer limits.max_directory_entries)
      || not (le_int (pos 0) limits.max_depth)
      || not (le_int limits.max_depth max_safe_integer)
    then err invalid_read_limit
    else check_nil limits limits.max_total_bytes limits.max_file_bytes

abbrev pub Outcome : Type 0
Outcome = Option ReadBudget × Option Failure

abbrev refuse : ReadBudget → Failure → Outcome
refuse b why = (some b, some why)

-- `Reserve`, on a budget that is initialised and a size that is not nil.
reserve_size : ReadBudget → ℤ → Outcome
reserve_size b (negsuc n) = refuse b file_limit_exceeded
reserve_size b (pos size) =
    if not (le_int (pos size) b.limits.max_file_bytes)
    then refuse b file_limit_exceeded
    else if le_int b.limits.max_files (pos b.consumed_files)
    then refuse b file_count_exceeded
    else if not (le_int (pos (b.consumed_bytes + size)) b.limits.max_total_bytes)
    then refuse b byte_budget_exceeded
    else (
      some (record b {
        consumed_files = b.consumed_files + 1;
        consumed_bytes = b.consumed_bytes + size;
      }),
      none,
    )

unfoldable pub reserve : Option ReadBudget → Option ℤ → Outcome
unfolding reserve_size
reserve none size = (none, some read_failed)
reserve (some b) none = refuse b file_limit_exceeded
reserve (some b) (some size) = reserve_size b size

unfoldable pub enter_directory : Option ReadBudget → ℤ → Outcome
enter_directory none depth = (none, some read_failed)
enter_directory (some b) depth =
    if not (le_int (pos 0) depth)
      || not (le_int depth max_safe_integer)
      || not (le_int depth b.limits.max_depth)
    then refuse b directory_depth_exceeded
    else if le_int b.limits.max_directories (pos b.consumed_directories)
    then refuse b directory_count_exceeded
    else (some (record b { consumed_directories = b.consumed_directories + 1 }), none)

unfoldable pub reserve_directory_entry : Option ReadBudget → Outcome
reserve_directory_entry none = (none, some read_failed)
reserve_directory_entry (some b) =
    if le_int b.limits.max_directory_entries (pos b.consumed_directory_entries)
    then refuse b directory_entry_limit_exceeded
    else (some (record b { consumed_directory_entries = b.consumed_directory_entries + 1 }), none)

-- One call of a method, and a sequence of calls on one budget.
pub data Charge : Type 0 where
  file : Option ℤ → Charge
  directory : ℤ → Charge
  entry : Charge

unfoldable pub charge : Option ReadBudget → Charge → Outcome
unfolding reserve enter_directory reserve_directory_entry
charge b (file size) = reserve b size
charge b (directory depth) = enter_directory b depth
charge b entry = reserve_directory_entry b

unfoldable pub charge_all : Option ReadBudget → List Charge → Option ReadBudget
unfolding charge
charge_all b [] = b
charge_all b (c ∷ cs) = charge_all (charge b c).0 cs
