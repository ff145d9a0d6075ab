-- ===== src/Tests/Budget.antt =====
-- A small budget and a run of its methods.
use infrawright_dev.Base.{◌≡◌, ◌↔◌, refl, List, [], ◌∷◌, none, some, ok}
use infrawright_dev.Base.Int.{pos, negsuc}
use infrawright_dev.Artifacts.Budget.{
  BoundedReadLimits, ReadBudget, byte_budget_exceeded, start, new_read_budget, Charge, file,
  directory, entry, charge, charge_all,
}
use infrawright_dev.Artifacts.Budget.Laws.{
  IsWithinLimits, new_read_budget-charge_all-IsWithinLimits, charge_refused, Fits, charged,
  charge-Fits_iff,
}

abbrev limits : BoundedReadLimits
limits = record {
  max_files = pos 2;
  max_directories = pos 1;
  max_directory_entries = pos 3;
  max_depth = pos 0;
  max_total_bytes = some (pos 100);
  max_file_bytes = some (pos 60);
}

abbrev made : ReadBudget
made = record {
  limits = record {
    max_files = pos 2;
    max_directories = pos 1;
    max_directory_entries = pos 3;
    max_depth = pos 0;
    max_total_bytes = pos 100;
    max_file_bytes = pos 60;
  };
  consumed_files = 0;
  consumed_directories = 0;
  consumed_directory_entries = 0;
  consumed_bytes = 0;
}

abbrev half_used : ReadBudget
half_used = record made { consumed_files = 1; consumed_bytes = 50 }

new_read_budget-limits : new_read_budget limits ≡ ok made
unfolding new_read_budget start
new_read_budget-limits = refl

abbrev calls : List Charge
calls = file (some (pos 50)) ∷ file (some (pos 60)) ∷ directory (negsuc 0) ∷ entry ∷ []

charge_all-calls :
    charge_all (some made) calls ≡ some (record half_used { consumed_directory_entries = 1 })
unfolding charge_all
charge_all-calls = refl

refused : (charge (some half_used) (file (some (pos 60)))).1 ≡ some byte_budget_exceeded
unfolding charge
refused = refl

new_read_budget-charge_all-IsWithinLimits_example :
    IsWithinLimits made.limits (charge_all (some made) calls)
new_read_budget-charge_all-IsWithinLimits_example =
    new_read_budget-charge_all-IsWithinLimits limits calls new_read_budget-limits

charge_refused_example : (charge (some half_used) (file (some (pos 60)))).0 ≡ some half_used
charge_refused_example = charge_refused (some half_used) (file (some (pos 60))) refused

charge-Fits_iff_example :
    (((charge (some half_used) (file (some (pos 50)))).1 ≡ none)
      ↔ Fits half_used (file (some (pos 50))))
    × ((charge (some half_used) (file (some (pos 50)))
          ≡ (some (charged half_used (file (some (pos 50)))), none))
        ↔ Fits half_used (file (some (pos 50))))
charge-Fits_iff_example = charge-Fits_iff half_used (file (some (pos 50)))
