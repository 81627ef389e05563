-- ===== src/Screening/Promises.antt =====
-- What a screening decision promises (backend/app/services/resumes.py), alone and against another one
-- that runs at the same time.
use ai_recruitment.Common.{
  ℕ, ◌+◌, ◌≡◌, sym, ap, ◌∙◌, true, false, ◌==◌, none, some, ok, err, Result-cases, inl, inr, arith,
}
use ai_recruitment.Common.Table.{Table, lookup, put, lookup-put, lookup-put_self}
use ai_recruitment.Models.{Db, Application, is_in_progress}
use ai_recruitment.Offers.Base.{Request, given}
use ai_recruitment.Screening.{
  ScreeningError, ScreeningRequest, ScreeningRead, is_past_screening, screening_pipeline,
  validate_screening_payload, read_screening, find_screening_by_idempotency, add_screening_decision,
}
use ai_recruitment.Screening.Writes.{
  ScreeningResult, add_screening, screened_application, screening_row, log_screening,
  write_screening_after, write_screening, create_screening_decision,
}

-- What a call has read is what the database holds.
read_screening-ok :
    (application_id : ℕ) (payload : ScreeningRequest) (db : Db) (r : ScreeningRead × Db)
    → read_screening application_id payload db ≡ ok r
    → (lookup application_id db.applications ≡ some r.0.application)
      × (r.0.application.lock_version ≡ payload.lock_version)
      × (is_in_progress r.0.application.status ≡ true)
      × (is_past_screening r.0.application.pipeline_status ≡ false)
      × (screening_pipeline payload.decision ≡ some r.0.to_status)
      × (r.1 ≡ db)
      × (r.0.existing
          ≡ find_screening_by_idempotency application_id (given payload.idempotency_key) db)
unfolding read_screening validate_screening_payload
read_screening-ok application_id payload db r h = (
  ground (arith, h),
  ground (arith, h),
  ground (arith, h),
  ground (arith, h),
  ground (arith, h),
  ground (arith, h),
  ground (arith, h),
)

-- What the writes of a new decision leave.
record Added (c : Request) (application_id decision_id : ℕ) (payload : ScreeningRequest)
    (read : ScreeningRead) (row : Application) (db : Db) (s : ScreeningResult × Db) : Type 0 where
  decisions : s.1.screening_decisions ≡ put decision_id s.0.row db.screening_decisions
  decided : s.0.row.decision ≡ payload.decision
  applications :
      s.1.applications
      ≡ put application_id (screened_application c payload read row) db.applications

add_screening-ok :
    (c : Request) (application_id decision_id : ℕ) (payload : ScreeningRequest)
    (read : ScreeningRead) (row : Application) (db : Db) (s : ScreeningResult × Db)
    → lookup application_id db.applications ≡ some row
    → add_screening c application_id decision_id payload read db ≡ ok s
    → Added c application_id decision_id payload read row db s
unfolding add_screening add_screening_decision log_screening screening_row
add_screening-ok c application_id decision_id payload read row db s f h = record {
  decisions = ground (arith, f, h);
  decided = ground (arith, f, h);
  applications = ground (arith, f, h);
}

-- A decision without a key is added.
add_screening_new :
    (c : Request) (application_id decision_id : ℕ) (payload : ScreeningRequest)
    (read : ScreeningRead) (row : Application) (db : Db)
    → lookup application_id db.applications ≡ some row
    → lookup decision_id db.screening_decisions ≡ none
    → payload.idempotency_key ≡ none
    → (s : ScreeningResult × Db) × (add_screening c application_id decision_id payload read db
        ≡ ok s)
unfolding add_screening add_screening_decision find_screening_by_idempotency log_screening
    screening_row
add_screening_new c application_id decision_id payload read row db f n k =
    elim (Result-cases (add_screening c application_id decision_id payload read db)) [
      | inl r ↦ r
      | inr (e, v) ↦ ground (arith, f, n, k, v)
    ]

create_step :
    (c : Request) (application_id decision_id : ℕ) (payload : ScreeningRequest) (db : Db)
    (read : ScreeningRead)
    → read_screening application_id payload db ≡ ok (read, db)
    → read.existing ≡ none
    → create_screening_decision c application_id decision_id payload db
      ≡ add_screening c application_id decision_id payload read db
unfolding create_screening_decision write_screening write_screening_after
create_step c application_id decision_id payload db read e n = ground (arith, e, n)

create_failed :
    (c : Request) (application_id decision_id : ℕ) (payload : ScreeningRequest) (db : Db)
    (e : ScreeningError)
    → read_screening application_id payload db ≡ err e
    → create_screening_decision c application_id decision_id payload db ≡ err e
unfolding create_screening_decision
create_failed c application_id decision_id payload db e v = ground (arith, v)

-- The parts of a call that commits with a new key.
create-parts :
    (c : Request) (application_id decision_id : ℕ) (payload : ScreeningRequest) (db : Db)
    (s : ScreeningResult × Db)
    → find_screening_by_idempotency application_id (given payload.idempotency_key) db ≡ none
    → create_screening_decision c application_id decision_id payload db ≡ ok s
    → (read : ScreeningRead) × (read_screening application_id payload db ≡ ok (read, db))
      × (add_screening c application_id decision_id payload read db ≡ ok s)
create-parts c application_id decision_id payload db s n h =
    elim (Result-cases (read_screening application_id payload db)) [
      | inl (r, e) ↦
          let q = read_screening-ok application_id payload db r e in
          let e' : read_screening application_id payload db ≡ ok (r.0, db) =
            e ∙ ap (λ x. ok (r.0, x)) q.5 in
          (r.0, e', sym (create_step c application_id decision_id payload db r.0 e' (q.6 ∙ n)) ∙ h)
      | inr (e, v) ↦
          let f = create_failed c application_id decision_id payload db e v in ground (arith, f, h)
    ]

read-conflict :
    (application_id : ℕ) (payload : ScreeningRequest) (row : Application) (db : Db)
    → lookup application_id db.applications ≡ some row
    → (row.lock_version == payload.lock_version) ≡ false
    → read_screening application_id payload db ≡ err ScreeningError.updated_by_another
unfolding read_screening
read-conflict application_id payload row db f n = ground (arith, f, n)

-- After a decision that commits with a new key, every call with the same lock version fails as an
-- update by another user, the same request with the same key too: the look at the key comes later.
pub create-repeated :
    (c c' : Request) (application_id decision_id decision_id' : ℕ)
    (payload payload' : ScreeningRequest) (db : Db) (s : ScreeningResult × Db)
    → find_screening_by_idempotency application_id (given payload.idempotency_key) db ≡ none
    → create_screening_decision c application_id decision_id payload db ≡ ok s
    → payload'.lock_version ≡ payload.lock_version
    → create_screening_decision c' application_id decision_id' payload' s.1
      ≡ err ScreeningError.updated_by_another
unfolding create_screening_decision screened_application
create-repeated c c' application_id decision_id decision_id' payload payload' db s n h l =
    let p = create-parts c application_id decision_id payload db s n h in
    let r = read_screening-ok application_id payload db (p.0, db) p.1 in
    let a =
      add_screening-ok c application_id decision_id payload p.0 p.0.application db s r.0 p.2 in
    let row = screened_application c payload p.0 p.0.application in
    let found : lookup application_id s.1.applications ≡ some row =
      rw a.applications (lookup-put_self application_id row db.applications) in
    ground (arith, read-conflict application_id payload' row s.1 found (ground (arith, r.1, l)))

written_unkeyed :
    (c : Request) (application_id decision_id : ℕ) (payload : ScreeningRequest) (db db' : Db)
    (read : ScreeningRead)
    → read_screening application_id payload db ≡ ok (read, db)
    → payload.idempotency_key ≡ none
    → write_screening c application_id decision_id payload read db'
      ≡ add_screening c application_id decision_id payload read db'
unfolding write_screening write_screening_after find_screening_by_idempotency
written_unkeyed c application_id decision_id payload db db' read h k =
    let q = read_screening-ok application_id payload db (read, db) h in ground (arith, q.6, k)

put_both :
    {V : Type 0} (k k' : ℕ) (v v' : V) (t : Table V)
    → (k == k') ≡ false
    → lookup k (put k' v' (put k v t)) ≡ some v
put_both k k' v v' t o = ground (arith, lookup-put k k' v' (put k v t), lookup-put_self k v t, o)

same_lock :
    (c : Request) (application_id : ℕ) (payload : ScreeningRequest) (read read' : ScreeningRead)
    (row : Application) (db : Db)
    → lookup application_id db.applications ≡ some read.application
    → lookup application_id db.applications ≡ some read'.application
    → (screened_application c payload read' row).lock_version ≡ read.application.lock_version + 1
unfolding screened_application
same_lock c application_id payload read read' row db f f' = ground (arith, f, f')

-- Two calls that read their application before either writes both commit, if their requests have no
-- key and the new ids differ: both decisions are stored, and the lock version is raised by one.
pub write-both :
    (c c' : Request) (application_id decision_id decision_id' : ℕ)
    (payload payload' : ScreeningRequest) (db : Db) (read read' : ScreeningRead)
    → read_screening application_id payload db ≡ ok (read, db)
    → read_screening application_id payload' db ≡ ok (read', db)
    → payload.idempotency_key ≡ none
    → payload'.idempotency_key ≡ none
    → lookup decision_id db.screening_decisions ≡ none
    → lookup decision_id' db.screening_decisions ≡ none
    → (decision_id == decision_id') ≡ false
    → (s s' : ScreeningResult × Db) × (write_screening c application_id decision_id payload read db
        ≡ ok s)
      × (write_screening c' application_id decision_id' payload' read' s.1 ≡ ok s')
      × (lookup decision_id s'.1.screening_decisions ≡ some s.0.row)
      × (lookup decision_id' s'.1.screening_decisions ≡ some s'.0.row)
      × (s.0.row.decision ≡ payload.decision)
      × (s'.0.row.decision ≡ payload'.decision)
      × (row : Application) × (lookup application_id s'.1.applications ≡ some row)
      × (row.lock_version ≡ read.application.lock_version + 1)
unfolding write_screening write_screening_after
write-both c c' application_id decision_id decision_id' payload payload' db read read' h h' k k' n
      n' o =
    let q = read_screening-ok application_id payload db (read, db) h in
    let q' = read_screening-ok application_id payload' db (read', db) h' in
    let w =
      add_screening_new c application_id decision_id payload read read.application db q.0 n k in
    let a =
      add_screening-ok c application_id decision_id payload read read.application db w.0 q.0 w.1 in
    let row = screened_application c payload read read.application in
    let f : lookup application_id w.0.1.applications ≡ some row =
      rw a.applications (lookup-put_self application_id row db.applications) in
    let m : lookup decision_id' w.0.1.screening_decisions ≡ none = ground (
      arith,
      a.decisions,
      n',
      o,
      lookup-put decision_id' decision_id w.0.0.row db.screening_decisions,
    ) in
    let w' = add_screening_new c' application_id decision_id' payload' read' row w.0.1 f m k' in
    let a' = add_screening-ok c' application_id decision_id' payload' read' row w.0.1 w'.0 f w'.1 in
    let row' = screened_application c' payload' read' row in
    (
      w.0,
      w'.0,
      written_unkeyed c application_id decision_id payload db db read h k ∙ w.1,
      written_unkeyed c' application_id decision_id' payload' db w.0.1 read' h' k' ∙ w'.1,
      rw a'.decisions (
          rw a.decisions
            (put_both decision_id decision_id' w.0.0.row w'.0.0.row db.screening_decisions o)),
      rw a'.decisions (lookup-put_self decision_id' w'.0.0.row w.0.1.screening_decisions),
      a.decided,
      a'.decided,
      row',
      rw a'.applications (lookup-put_self application_id row' w.0.1.applications),
      same_lock c' application_id payload' read read' row db q.0 q'.0,
    )
