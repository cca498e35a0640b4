-- ===== src/Store/Reduction/Runs.antt =====
-- What a run of a reduction leaves, by what it reports.
use terraform_suite_identity.Common.{
  Str, List, Bool, true, false, Option, none, some, if◌then◌else◌, Result, ok, err, transact,
  transact-ok, transact-states, ◌≡◌, ◌⊎◌, inl, inr, refl,
}
use terraform_suite_identity.Store.Tables.{Db, StoreError, no_database, database, Faults}
use terraform_suite_identity.Store.Reduction.{Reduced, AppCredentials, Reducer, reduction, run}
use terraform_suite_identity.Store.Reduction.Contained.{Reduces, reduction-Reduces}

-- A run that reports success went through the reduction.
pub run-Reduces :
    (r : Reducer) (f : Faults) (u : Str) (app : Option AppCredentials)
    (reduce : Db → Result StoreError (Db × List Str)) (db : Db) (red : Reduced)
    → (run (some r) f u app reduce db).1 ≡ ok red
    → Reduces r.rw_pairs u reduce db ((run (some r) f u app reduce db).0, red)
unfolding run
run-Reduces r f u none reduce db red h = cc h
run-Reduces r f u (some app) reduce db red h = by_handle r.has_db h
  where
    outcome : Bool → Db × Result StoreError Reduced
    outcome b =
        if b
        then transact database f.begins f.commit (reduction f r.rw_pairs u app reduce) db
        else (db, err no_database)

    by_handle :
        (b : Bool) → (outcome b).1 ≡ ok red → Reduces r.rw_pairs u reduce db ((outcome b).0, red)
    by_handle true k =
        reduction-Reduces f r.rw_pairs u app reduce db _ red
          (transact-ok database f.begins f.commit (reduction f r.rw_pairs u app reduce) db red k)
    by_handle false k = cc k

-- Whatever a run reports, it leaves the tables as they were or as its reduction left them.
pub run-states :
    (r : Reducer) (f : Faults) (u : Str) (app : Option AppCredentials)
    (reduce : Db → Result StoreError (Db × List Str)) (db : Db)
    → let after = (run (some r) f u app reduce db).0 in
      (after ≡ db) ⊎ ((red : Reduced) × Reduces r.rw_pairs u reduce db (after, red))
unfolding run
run-states r f u none reduce db = inl refl
run-states r f u (some app) reduce db = by_handle r.has_db
  where
    after : Bool → Db
    after b =
        (if b
          then transact database f.begins f.commit (reduction f r.rw_pairs u app reduce) db
          else (db, err no_database)).0

    by_handle :
        (b : Bool)
        → (after b ≡ db) ⊎ ((red : Reduced) × Reduces r.rw_pairs u reduce db (after b, red))
    by_handle false = inl refl
    by_handle true =
        let body = reduction f r.rw_pairs u app reduce in
        elim (transact-states database f.begins f.commit body db) [
          | inl same ↦ inl same
          | inr (red, done) ↦ inr (red, reduction-Reduces f r.rw_pairs u app reduce db _ red done)
        ]
