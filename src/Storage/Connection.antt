-- ===== src/Storage/Connection.antt =====
-- storage/connection.py, and the sqlite3 connection below it: the state that is committed, the
-- state that the open transaction sees, and a schedule that says which statements fail.
pub mod Units
use ha_skywatch.Prelude.{ℕ, zero, suc, Bool, true, false, List, [], ◌∷◌, ◌≡◌, if◌then◌else◌}
use ha_skywatch.Python.Result.{
  Error, Result, ok, err, operational, programming, Exec, pure, raise, ◌>>=◌, ◌>>◌,
}
use ha_skywatch.Storage.Schema.{Database}

-- `faults` has an element for each statement to come: whether it raises OperationalError, as it
-- does on a locked or full disk. After the last none fails.
pub record Conn : Type 0 where
  pub committed : Database
  pub working : Database
  pub in_transaction : Bool
  pub faults : List Bool

-- No transaction is open.
pub record IsIdle (c : Conn) : Type 0 where
  pub no_transaction : c.in_transaction ≡ false
  pub in_step : c.working ≡ c.committed

abbrev next_fault : List Bool → Bool
next_fault [] = false
next_fault (b ∷ bs) = b

abbrev later_faults : List Bool → List Bool
later_faults [] = []
later_faults (b ∷ bs) = bs

-- `conn.execute("SELECT …")`
unfoldable pub select : {A : Type 0} → (Database → A) → Exec Conn A
select f c =
    if next_fault c.faults
    then (err operational, record c { faults = later_faults c.faults })
    else (ok (f c.working), record c { faults = later_faults c.faults })

-- `conn.execute` of an INSERT, UPDATE or DELETE: it opens a transaction if none is open, and a
-- statement that fails changes no row.
unfoldable pub modify : {A : Type 0} → (Database → A × Database) → Exec Conn A
modify f c =
    if next_fault c.faults
    then (err operational, record c { in_transaction = true; faults = later_faults c.faults })
    else (
      ok (f c.working).0,
      record c { working = (f c.working).1; in_transaction = true; faults = later_faults c.faults },
    )

-- `conn.commit()`; with no transaction open it does nothing.
unfoldable pub commit : Exec Conn (Unit {0})
commit c =
    if c.in_transaction
    then (if next_fault c.faults
        then (err operational, record c { faults = later_faults c.faults })
        else (
          ok tt,
          record c {
            committed = c.working;
            in_transaction = false;
            faults = later_faults c.faults;
          },
        ))
    else (ok tt, c)

-- `conn.rollback()`
unfoldable pub rollback : Conn → Conn
rollback c = record c { working = c.committed; in_transaction = false }

-- `SerializedConnection`. Its lock makes each call of `run` and `close` one step.
pub record SerializedConnection : Type 0 where
  pub conn : Conn
  pub closed : Bool

-- The `except BaseException` branch of `run`.
unfoldable pub clean_up : {A : Type 0} → Result A → Conn → Conn
unfolding rollback
clean_up (ok a) c = c
clean_up (err e) c = if c.in_transaction then rollback c else c

unfoldable pub run : {A : Type 0} → Exec Conn A → Exec SerializedConnection A
unfolding clean_up
run fn s =
    if s.closed
    then (err programming, s)
    else ((fn s.conn).0, record s { conn = clean_up (fn s.conn).0 (fn s.conn).1 })

unfoldable pub close : SerializedConnection → SerializedConnection
close s = if s.closed then s else record s { closed = true }
