-- ===== src/Db/Session.antt =====
-- A client of the pool in the middle of its statements (apps/api/src/database/database.service.ts).
-- The environment may refuse any statement, which stands for a lost connection, a lock timeout, a
-- duplicate that another transaction commits first, and so on; or run it and lose the answer.
use adaptive_financial_os.Common.{ℕ, ◌+◌, Option, none, some, List, [], ◌++◌, Bool, true, false}
use adaptive_financial_os.Db.{
  Database, SqlError, other_error, SqlResult, done, raised, balanced_entries,
}

-- What the environment does to a statement.
pub data Fault : Type 0 where
  refuse : SqlError → Fault
  lose_answer : SqlError → Fault

-- The statements of a session are numbered.
abbrev pub Faults : Type 0
Faults = ℕ → Option Fault

-- The environment that lets every statement pass.
abbrev pub no_faults : Faults
no_faults n = none

-- `work` is the database as the open transaction sees it; `touched` are the entries that its
-- inserted lines belong to, for the deferred trigger.
pub record Session : Type 0 where
  pub committed : Database
  pub work : Database
  pub touched : List ℕ
  pub count : ℕ

-- What code that may throw does: an error of the database, or an exception of the code's own.
pub data Thrown : Type 0 where
  sql : SqlError → Thrown
  not_found_exception : Thrown

pub data Outcome {ℓ} (A : Type ℓ) : Type ℓ where
  value : A → Outcome A
  throw : Thrown → Outcome A

abbrev pub Action : Type 0 → Type 0
Action A = Session → Outcome A × Session

module _ {X : Type 0} where
  abbrev pub pure : X → Action X
  pure x s = (value x, s)

  abbrev pub fail : Thrown → Action X
  fail e s = (throw e, s)

module _ {X Y : Type 0} where
  infixl 5 ◌>>=◌
  abbrev pub ◌>>=◌ : Action X → (X → Action Y) → Action Y
  ◌>>=◌ act next s = let (r, s') = act s in elim r [ value x ↦ next x s' | throw e ↦ (throw e, s') ]

  infixl 5 ◌>>◌
  abbrev pub ◌>>◌ : Action X → Action Y → Action Y
  act >> other = act >>= λ ignored. other

-- A statement inside the transaction: its answer, and what a fault does to it.
abbrev pub answer : {A : Type 0} → SqlResult (A × Database × List ℕ) → Session → Outcome A × Session
answer (done (a, db, ids)) s =
    (value a, record s { work = db; touched = s.touched ++ ids; count = s.count + 1 })
answer (raised e) s = (throw (sql e), record s { count = s.count + 1 })

abbrev pub under :
    {A : Type 0} → Option Fault → SqlResult (A × Database × List ℕ) → Session → Outcome A × Session
under none r s = answer r s
under (some (refuse e)) r s = (throw (sql e), record s { count = s.count + 1 })
under (some (lose_answer e)) r s = (throw (sql e), (answer r s).1)

-- The work starts again from what is committed.
abbrev pub opened : Session → Session
opened s = record s { work = s.committed; touched = []; count = s.count + 1 }

abbrev pub ended : Option Fault → Session → Session → Outcome (Unit {0}) × Session
ended none did refused = (value tt, did)
ended (some (refuse e)) did refused = (throw (sql e), refused)
ended (some (lose_answer e)) did refused = (throw (sql e), did)

-- The end of a transaction, by what the trigger says: one that fails it is rolled back.
abbrev pub commit_if : Bool → Option Fault → Session → Outcome (Unit {0}) × Session
commit_if true o s =
    ended o (record s { committed = s.work; touched = []; count = s.count + 1 })
      (record s { count = s.count + 1 })
commit_if false o s = (throw (sql other_error), opened s)

module _ (faults : Faults) where
  unfoldable pub statement :
      {A : Type 0} → (Database → SqlResult (A × Database × List ℕ)) → Action A
  statement f s = under (faults s.count) (f s.work) s

  -- BEGIN
  unfoldable pub begin : Action (Unit {0})
  begin s = ended (faults s.count) (opened s) (record s { count = s.count + 1 })

  -- ROLLBACK
  unfoldable pub rollback : Action (Unit {0})
  rollback s = ended (faults s.count) (opened s) (record s { count = s.count + 1 })

  -- COMMIT, with the deferred trigger before it.
  unfoldable pub commit : Action (Unit {0})
  commit s = commit_if (balanced_entries s.touched s.work.lines) (faults s.count) s

-- `client.release()`: whatever transaction is left open is lost.
abbrev pub release : Session → Session
release s = record s { work = s.committed; touched = [] }

module _ (faults : Faults) {A : Type 0} where
  -- A SELECT outside any transaction.
  unfoldable pub query : (Database → A) → Action A
  query f s = under (faults s.count) (done (f s.committed, s.work, [])) s

-- What such a SELECT answers, or raises.
abbrev pub read : {A : Type 0} → SqlResult A → Session → SqlResult (A × Database × List ℕ)
read (done a) s = done (a, s.work, [])
read (raised e) s = raised e

module _ (faults : Faults) {A : Type 0} where
  -- A SELECT outside any transaction that the server may refuse.
  unfoldable pub select : (Database → SqlResult A) → Action A
  select f s = under (faults s.count) (read (f s.committed) s) s

-- An UPDATE outside any transaction, with what a fault does to it.
abbrev pub executed : Option Fault → Database → Session → Outcome (Unit {0}) × Session
executed none db s = (value tt, record s { committed = db; work = db; count = s.count + 1 })
executed (some (refuse e)) db s = (throw (sql e), record s { count = s.count + 1 })
executed (some (lose_answer e)) db s =
    (throw (sql e), record s { committed = db; work = db; count = s.count + 1 })

module _ (faults : Faults) where
  unfoldable pub execute : (Database → Database) → Action (Unit {0})
  execute f s = executed (faults s.count) (f s.committed) s
