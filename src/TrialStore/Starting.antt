-- ===== src/TrialStore/Starting.antt =====
-- `create`: one trial at a time.
use starkbank_backend_challe.Base.{
  ℕ, ◌≡◌, refl, inl, inr, Bool, true, not, some, List, [], ◌∷◌, ◌++◌, String, arith, is_none,
  exists_where, taken, is_unique-append, Option-cases,
}
use starkbank_backend_challe.Domain.Errors.{ok, err, integrity}
use starkbank_backend_challe.Domain.Models.{NewTrial, TrialRun}
use starkbank_backend_challe.Schema.{Database, TrialRunRow, marker_key, trial_runs_constraints}
use starkbank_backend_challe.TrialStore.{run_row, create}

-- The run holds the marker of the active run.
abbrev pub is_marked : TrialRunRow → Bool
is_marked r = not (is_none r.active_marker)

marked-taken :
    (runs : List TrialRunRow)
    → exists_where is_marked runs ≡ true
    → taken marker_key (some "1") runs ≡ true
marked-taken [] h = h
marked-taken (r ∷ runs) h = elim (Option-cases r.active_marker) [
  | inl e ↦ ground (arith, e, marked-taken runs)
  | inr (n, e) ↦ ground (arith, e)
]

-- While a run holds the marker, `create` raises the database's error, and nothing is written.
pub create_refused :
    (uuid5 : String → ℕ → String) (run_id : String) (command : NewTrial) (db : Database)
    → exists_where is_marked db.trial_runs ≡ true
    → create uuid5 run_id command db ≡ err integrity
unfolding create run_row trial_runs_constraints
create_refused uuid5 run_id command db h =
    let second = marked-taken db.trial_runs h in
    ground (arith, is_unique-append marker_key db.trial_runs (run_row run_id command))

exists_where-last :
    (runs : List TrialRunRow) (r : TrialRunRow)
    → is_marked r ≡ true
    → exists_where is_marked (runs ++ r ∷ []) ≡ true
exists_where-last [] r h = ground arith
exists_where-last (x ∷ runs) r h = ground (arith, exists_where-last runs r h)

-- When `create` has returned, a second `create` right after it raises the database's error: the
-- first trial holds the marker.
pub create_once :
    (uuid5 : String → ℕ → String) (run_id later_id : String) (command later : NewTrial)
    (db db' : Database) (run : TrialRun)
    → create uuid5 run_id command db ≡ ok (run, db')
    → create uuid5 later_id later db' ≡ err integrity
unfolding create run_row
create_once uuid5 run_id later_id command later db db' run e =
    let rows : db'.trial_runs ≡ db.trial_runs ++ run_row run_id command ∷ [] = ground arith in
    create_refused uuid5 later_id later db'
      (rw rows (exists_where-last db.trial_runs (run_row run_id command) refl))
