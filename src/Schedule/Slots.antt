-- ===== src/Schedule/Slots.antt =====
-- The slots of a schedule.
use starkbank_backend_challe.Base.{
  ℕ, zero, suc, ◌+◌, ◌*◌, ◌≤◌, ◌<◌, ◌≡◌, refl, sym, ◌∙◌, true, List, [], ◌∷◌, arith, length, every,
  Option, none, some, not, ◌||◌, ltb,
}
use starkbank_backend_challe.Domain.Errors.{ok}
use starkbank_backend_challe.Domain.Models.{ScheduleSlot}
use starkbank_backend_challe.Domain.Time.{aware, hours}
use starkbank_backend_challe.Schedule.{slots_from, are_valid_counts, build_schedule}

-- The element at a position.
abbrev pub get_elem? : {A : Type 0} → List A → ℕ → Option A
get_elem? [] n = none
get_elem? (x ∷ xs) zero = some x
get_elem? (x ∷ xs) (suc n) = get_elem? xs n

get_elem?-below :
    (n : ℕ) (counts : List ℕ) {count : ℕ} → get_elem? counts n ≡ some count → n < length counts
get_elem?-below n [] e = ground arith
get_elem?-below zero (c ∷ counts) e = omega arith
get_elem?-below (suc n) (c ∷ counts) e = let rest = get_elem?-below n counts e in omega arith

slots_from-length : (t i : ℕ) (counts : List ℕ) → length (slots_from t i counts) ≡ length counts
unfolding slots_from
slots_from-length t i [] = refl
slots_from-length t i (c ∷ counts) = ground (arith, slots_from-length t (suc i) counts)

-- What a slot at position `n` is.
pub record IsSlot (t : ℕ) (counts : List ℕ) (n : ℕ) (slot : ScheduleSlot) : Type 0 where
  pub index : slot.index ≡ n
  pub scheduled_at : slot.scheduled_at ≡ t + hours (3 * n)
  pub target_count : get_elem? counts n ≡ some slot.target_count
  pub low : 8 ≤ slot.target_count
  pub high : slot.target_count ≤ 12

slot_at :
    (t i n : ℕ) (counts : List ℕ) (slot : ScheduleSlot)
    → every (λ count. not (ltb count 8 || ltb 12 count)) counts ≡ true
    → get_elem? (slots_from t i counts) n ≡ some slot
    → (slot.index ≡ i + n)
      × (slot.scheduled_at ≡ t + hours (3 * (i + n)))
      × (get_elem? counts n ≡ some slot.target_count)
      × (8 ≤ slot.target_count)
      × (slot.target_count ≤ 12)
unfolding slots_from
slot_at t i n [] slot h e = ground arith
slot_at t i zero (c ∷ counts) slot h e = ground arith
slot_at t i (suc n) (c ∷ counts) slot h e =
    let rest = slot_at t (suc i) n counts slot in ground (arith, rest)

-- A schedule has eight slots. The slot at position `n` has the index `n` and the `n`-th count, which
-- is from 8 to 12, and is due `3 * n` hours after the start, within the 24 hours of the trial.
pub build_schedule_slots :
    (t n : ℕ) (counts : List ℕ) (slots : List ScheduleSlot) (slot : ScheduleSlot)
    → build_schedule (aware t) counts ≡ ok slots
    → get_elem? slots n ≡ some slot
    → (length slots ≡ 8) × IsSlot t counts n slot × (slot.scheduled_at < t + hours 24)
unfolding build_schedule are_valid_counts
build_schedule_slots t n counts slots slot e at_n =
    let same : slots_from t 0 counts ≡ slots = ground arith in
    let eight : length counts ≡ 8 = ground arith in
    let sizes : every (λ count. not (ltb count 8 || ltb 12 count)) counts ≡ true = ground arith in
    let (index, scheduled_at, target_count, low, high) =
      slot_at t 0 n counts slot sizes (rw (sym same) at at_n) in
    let below = get_elem?-below n counts target_count in
    (
      rw (sym same) (slots_from-length t 0 counts ∙ eight),
      record {
        index = omega arith;
        scheduled_at = omega arith;
        target_count = target_count;
        low = low;
        high = high;
      },
      omega arith,
    )
