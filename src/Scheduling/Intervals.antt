-- ===== src/Scheduling/Intervals.antt =====
-- scheduling/: the retry intervals of a job, as they are stored and loaded again.
use lrzwasnla.Common.{
  ℕ, some, List, [], ◌∷◌, map, Text, split, join, ℤ, show_ℤ, Lacks, split-append, ◌≡◌, refl, ap,
  ==_iff, arith,
}
use lrzwasnla.Common.Decimals.{parse_decimal-show_ℤ, show_ℤ-Lacks}
use lrzwasnla.Scheduling.{stored_intervals, loaded_intervals}

split-Lacks : (s : Text) (sep : ℕ) → Lacks sep s → split s sep ≡ s ∷ []
unfolding split
split-Lacks [] sep h = refl
split-Lacks (c ∷ s) sep (ne, h) = ground (arith, ==_iff c sep, split-Lacks s sep h)

-- Retry intervals, of which there is at least one, are loaded as they were stored.
pub loaded_intervals-stored_intervals :
    (interval : ℤ) (rest : List ℤ)
    → loaded_intervals (stored_intervals (interval ∷ rest)) ≡ map some (interval ∷ rest)
unfolding loaded_intervals stored_intervals join
loaded_intervals-stored_intervals interval [] =
    rw (split-Lacks (show_ℤ interval) 44 (show_ℤ-Lacks interval), parse_decimal-show_ℤ interval)
      refl
loaded_intervals-stored_intervals interval (next ∷ rest) =
    rw
      (
        split-append (show_ℤ interval) (stored_intervals (next ∷ rest)) 44 (show_ℤ-Lacks interval),
        parse_decimal-show_ℤ interval,
      )
      (ap (λ l. some interval ∷ l) (loaded_intervals-stored_intervals next rest))
