-- ===== src/Schedule.antt =====
-- application/schedule.py: the eight batches of a trial, one every three hours.
pub mod Slots
use starkbank_backend_challe.Base.{
  ℕ, zero, suc, ◌+◌, ◌*◌, Bool, true, false, not, ◌||◌, ◌&&◌, List, [], ◌∷◌, length, ltb, eqb,
  every, if◌then◌else◌,
}
use starkbank_backend_challe.Domain.Errors.{
  Result, ok, err, invalid_batch_count, invalid_start_time,
}
use starkbank_backend_challe.Domain.Models.{ScheduleSlot}
use starkbank_backend_challe.Domain.Time.{Datetime, naive, aware, hours}

abbrev pub slot_count : ℕ
slot_count = 8

abbrev pub min_batch_size : ℕ
min_batch_size = 8

abbrev pub max_batch_size : ℕ
max_batch_size = 12

-- `enumerate(normalized_counts)`, from an index on
unfoldable pub slots_from : ℕ → ℕ → List ℕ → List ScheduleSlot
slots_from start_at index [] = []
slots_from start_at index (target_count ∷ counts) =
    record {
      index = index;
      scheduled_at = start_at + hours (index * 3);
      target_count = target_count;
    }
    ∷ slots_from start_at (suc index) counts

unfoldable pub are_valid_counts : List ℕ → Bool
are_valid_counts counts =
    eqb (length counts) slot_count
    && every (λ count. not (ltb count min_batch_size || ltb max_batch_size count)) counts

unfoldable pub build_schedule : Datetime → List ℕ → Result (List ScheduleSlot)
build_schedule (naive reading) counts = err invalid_start_time
build_schedule (aware start_at) counts =
    if are_valid_counts counts
    then ok (slots_from start_at 0 counts)
    else err (invalid_batch_count counts)
