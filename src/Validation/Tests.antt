-- ===== src/Validation/Tests.antt =====
-- The guard on texts that repeat, count up or follow the keyboard.
use lrzwasnla.Common.{◌≡◌, refl, false, none, codes}
use lrzwasnla.Common.Exec.{ok}
use lrzwasnla.TypeNames.{has_part}
use lrzwasnla.Validation.{
  exceeds, any_exceeds, keyboard_from, keyboard_rows, has_no_long_run,
  has_at_most_repeating_or_consecutive_characters,
}

repeats_are_refused :
    has_at_most_repeating_or_consecutive_characters none (codes "xaaaay") 3 ≡ ok false
unfolding has_at_most_repeating_or_consecutive_characters has_no_long_run any_exceeds exceeds
repeats_are_refused = refl

count_is_refused : has_at_most_repeating_or_consecutive_characters none (codes "x1234") 3 ≡ ok false
unfolding has_at_most_repeating_or_consecutive_characters has_no_long_run any_exceeds exceeds
count_is_refused = refl

row_is_refused : has_at_most_repeating_or_consecutive_characters none (codes "7QWERx") 3 ≡ ok false
unfolding has_at_most_repeating_or_consecutive_characters has_no_long_run any_exceeds exceeds
    keyboard_rows keyboard_from has_part
row_is_refused = refl
