-- ===== src/Artifacts/Budget/Laws.antt =====
-- go/internal/artifacts/budget.go: theorems on `NewReadBudget` and the three methods of `ReadBudget`.
use infrawright_dev.Base.{
  ◌+◌, ◌≤◌, ◌≡◌, refl, ◌↔◌, ap, ok, Option, none, some, List, [], ◌∷◌, arith,
}
use infrawright_dev.Base.Int.{pos, negsuc, Within}
use infrawright_dev.Artifacts.Budget.{
  BoundedReadLimits, Failure, ReadBudgetLimits, ReadBudget, start, new_read_budget, Charge, file,
  directory, entry, charge, charge_all,
}

-- The budget has the limits, and every counter is within its limit.
pub record IsWithin (limits : ReadBudgetLimits) (b : ReadBudget) : Type 0 where
  pub kept : b.limits ≡ limits
  pub files : Within b.consumed_files limits.max_files
  pub directories : Within b.consumed_directories limits.max_directories
  pub entries : Within b.consumed_directory_entries limits.max_directory_entries
  pub bytes : Within b.consumed_bytes limits.max_total_bytes

-- The budget is still there, and within the limits.
abbrev pub IsWithinLimits : ReadBudgetLimits → Option ReadBudget → Type 0
IsWithinLimits limits none = ⊥
IsWithinLimits limits (some b) = IsWithin limits b

new_read_budget-IsWithin :
    (limits : BoundedReadLimits) {b : ReadBudget}
    → new_read_budget limits ≡ ok b
    → IsWithin b.limits b
unfolding new_read_budget start
new_read_budget-IsWithin limits h = ground arith

charge-IsWithinLimits :
    (limits : ReadBudgetLimits) (b : Option ReadBudget) (c : Charge)
    → IsWithinLimits limits b
    → IsWithinLimits limits (charge b c).0
unfolding charge
charge-IsWithinLimits limits none c h = absurd h
charge-IsWithinLimits limits (some b) (file none) h = h
charge-IsWithinLimits limits (some b) (file (some size)) h = ground arith
charge-IsWithinLimits limits (some b) (directory depth) h = ground arith
charge-IsWithinLimits limits (some b) entry h = ground arith

charge_all-IsWithinLimits :
    (limits : ReadBudgetLimits) (cs : List Charge) (b : Option ReadBudget)
    → IsWithinLimits limits b
    → IsWithinLimits limits (charge_all b cs)
unfolding charge_all
charge_all-IsWithinLimits limits [] b h = h
charge_all-IsWithinLimits limits (c ∷ cs) b h =
    charge_all-IsWithinLimits limits cs (charge b c).0 (charge-IsWithinLimits limits b c h)

-- A budget that `new_read_budget` makes never passes a limit: after any sequence of calls of its
-- methods, accepted or refused, it has the limits it was made with, and the files, directories,
-- entries and bytes charged are within them.
pub new_read_budget-charge_all-IsWithinLimits :
    (limits : BoundedReadLimits) {b : ReadBudget} (cs : List Charge)
    → new_read_budget limits ≡ ok b
    → IsWithinLimits b.limits (charge_all (some b) cs)
new_read_budget-charge_all-IsWithinLimits limits {b} cs h =
    charge_all-IsWithinLimits b.limits cs (some b) (new_read_budget-IsWithin limits h)

-- A call that reports a failure leaves the budget as it was, whichever method is called.
pub charge_refused :
    (b : Option ReadBudget) (c : Charge) {why : Failure}
    → (charge b c).1 ≡ some why
    → (charge b c).0 ≡ b
unfolding charge
charge_refused none (file size) h = refl
charge_refused none (directory depth) h = refl
charge_refused none entry h = refl
charge_refused (some b) (file none) h = refl
charge_refused (some b) (file (some size)) h = ground arith
charge_refused (some b) (directory depth) h = ground arith
charge_refused (some b) entry h = ground arith

-- What a call needs: a file is not nil or negative and fits its own limit, one more file fits the count
-- and the bytes fit the total; a directory is within the depth, which is a safe integer that is not
-- negative, and one more directory fits the count; one more entry fits the count.
abbrev pub Fits : ReadBudget → Charge → Type 0
Fits b (file (some (pos size))) =
    Within size b.limits.max_file_bytes
    × Within (b.consumed_files + 1) b.limits.max_files
    × Within (b.consumed_bytes + size) b.limits.max_total_bytes
Fits b (file _) = ⊥
Fits b (directory (pos depth)) =
    Within depth b.limits.max_depth
    × (depth ≤ 9_007_199_254_740_991)
    × Within (b.consumed_directories + 1) b.limits.max_directories
Fits b (directory (negsuc _)) = ⊥
Fits b entry = Within (b.consumed_directory_entries + 1) b.limits.max_directory_entries

-- The budget with a call charged: a file and its bytes, a directory, or an entry.
abbrev pub charged : ReadBudget → Charge → ReadBudget
charged b (file (some (pos size))) = record b {
  consumed_files = b.consumed_files + 1;
  consumed_bytes = b.consumed_bytes + size;
}
charged b (file _) = b
charged b (directory _) = record b { consumed_directories = b.consumed_directories + 1 }
charged b entry = record b { consumed_directory_entries = b.consumed_directory_entries + 1 }

charge-Fits : (b : ReadBudget) (c : Charge) → (charge (some b) c).1 ≡ none → Fits b c
unfolding charge
charge-Fits b (file none) h = ground (arith, h)
charge-Fits b (file (some (negsuc n))) h = ground (arith, h)
charge-Fits b (file (some (pos size))) h = ground (arith, h)
charge-Fits b (directory (pos depth)) h = ground (arith, h)
charge-Fits b (directory (negsuc n)) h = ground (arith, h)
charge-Fits b entry h = ground (arith, h)

charge_of_Fits :
    (b : ReadBudget) (c : Charge) → Fits b c → charge (some b) c ≡ (some (charged b c), none)
unfolding charge
charge_of_Fits b (file none) h = absurd h
charge_of_Fits b (file (some (negsuc n))) h = absurd h
charge_of_Fits b (file (some (pos size))) h = ground (arith, h)
charge_of_Fits b (directory (pos depth)) h = ground (arith, h)
charge_of_Fits b (directory (negsuc n)) h = absurd h
charge_of_Fits b entry h = ground (arith, h)

-- A call of Reserve, EnterDirectory or ReserveDirectoryEntry on an initialised budget succeeds exactly
-- when it fits the limits, whatever its size or depth, and a call that fits charges one file and its
-- size, one directory, or one entry, and nothing else.
pub charge-Fits_iff :
    (b : ReadBudget) (c : Charge)
    → (((charge (some b) c).1 ≡ none) ↔ Fits b c)
      × ((charge (some b) c ≡ (some (charged b c), none)) ↔ Fits b c)
charge-Fits_iff b c = (
  (charge-Fits b c, λ h. ap (λ r. r.1) (charge_of_Fits b c h)),
  (λ h. charge-Fits b c (ap (λ r. r.1) h), charge_of_Fits b c),
)
