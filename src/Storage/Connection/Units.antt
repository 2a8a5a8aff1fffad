-- ===== src/Storage/Connection/Units.antt =====
-- storage/connection.py: units of work under `run`.
use ha_skywatch.Prelude.{false, [], ◌≡◌, ◌≢◌, refl, ◌∙◌, arith, ◌⊎◌, inl, inr}
use mathlib.Core.Path.{subst}
use ha_skywatch.Python.Result.{Error, Result, ok, err, Exec, pure, ◌>>=◌, ◌>>◌, continue}
use ha_skywatch.Storage.Schema.{Database}
use ha_skywatch.Storage.Connection.{
  Conn, IsIdle, select, modify, commit, SerializedConnection, clean_up, run,
}

-- Outside a transaction the working state is the committed one.
abbrev pub IsConsistent : Conn → Type 0
IsConsistent c = c.in_transaction ≡ false → c.working ≡ c.committed

-- `o` came from `c`: it returned `r.0` and left the working state `r.1`, or it raised, which takes
-- a fault. What is committed did not change.
pub record Ends {A : Type 0} (r : A × Database) (c : Conn) (o : Result A × Conn) : Type 0 where
  pub outcome :
      (o.0 ≡ ok r.0) × (o.1.working ≡ r.1) × (c.faults ≡ [] → o.1.faults ≡ [])
      ⊎ ((e : Error) × (o.0 ≡ err e) × (c.faults ≢ []))
  pub stays : o.1.committed ≡ c.committed
  pub consistent : IsConsistent o.1

-- The part `m` of a unit of work does what `f` says, if no statement fails.
pub record Computes {A : Type 0} (f : Database → A × Database) (m : Exec Conn A) : Type 0 where
  pub ends : (c : Conn) → IsConsistent c → Ends (f c.working) c (m c)

abbrev pub returning : {A : Type 0} → (Database → A) → Database → A × Database
returning f d = (f d, d)

abbrev pub and_then :
    {A B : Type 0}
    → (Database → A × Database)
    → (A → Database → B × Database)
    → Database
    → B × Database
and_then f g d = g (f d).0 (f d).1

module _ {A : Type 0} where
  pub Computes-pure : (a : A) → Computes (λ d. (a, d)) (pure a)
  Computes-pure a = record {
    ends = λ c h. record { outcome = inl (refl, refl, λ q. q); stays = refl; consistent = h };
  }

  pub Computes-select : (f : Database → A) → Computes (returning f) (select f)
  unfolding select
  Computes-select f = record {
    ends =
        λ c h. record { outcome = ground arith; stays = ground arith; consistent = ground arith };
  }

  pub Computes-modify : (f : Database → A × Database) → Computes f (modify f)
  unfolding modify
  Computes-modify f = record {
    ends =
        λ c h. record { outcome = ground arith; stays = ground arith; consistent = ground arith };
  }

module _ {A B : Type 0} where
  Ends-continue :
      (r : A × Database) (c : Conn) (o : Result A × Conn) (k : A → Exec Conn B)
      (g : A → Database → B × Database)
      → Ends r c o
      → ((a : A) → Computes (g a) (k a))
      → Ends (g r.0 r.1) c (continue o.0 k o.1)
  Ends-continue r c (err e, c') k g h ks = record {
    outcome = inr (e, refl, ground (arith, h.outcome));
    stays = h.stays;
    consistent = h.consistent;
  }
  Ends-continue r c (ok a, c') k g h ks =
      let next = (ks a).ends c' h.consistent in
      record {
        outcome = ground (arith, h.outcome, next.outcome);
        stays = next.stays ∙ h.stays;
        consistent = next.consistent;
      }

  pub Computes-bind :
      (f : Database → A × Database) (g : A → Database → B × Database) (m : Exec Conn A)
      (k : A → Exec Conn B)
      → Computes f m
      → ((a : A) → Computes (g a) (k a))
      → Computes (and_then f g) (m >>= k)
  Computes-bind f g m k h ks = record {
    ends = λ c consistent. Ends-continue (f c.working) c (m c) k g (h.ends c consistent) ks;
  }

-- A unit of work that ends in `conn.commit()` and returns what it computed.
abbrev pub committing : {A : Type 0} → Exec Conn A → Exec Conn A
committing m = m >>= λ a. (commit >> pure a)

-- What a caller of `run` sees of a unit of work: it returned and all of it is committed, or it
-- raised because a statement failed and nothing is. No transaction stays open.
pub record IsAtomic {A : Type 0} (r : A × Database) (s : SerializedConnection)
    (o : Result A × SerializedConnection) : Type 0 where
  pub idle : IsIdle o.1.conn
  pub still_open : o.1.closed ≡ false
  pub outcome :
      (o.0 ≡ ok r.0) × (o.1.conn.committed ≡ r.1) × (s.conn.faults ≡ [] → o.1.conn.faults ≡ [])
      ⊎ ((e : Error) × (o.0 ≡ err e)
          × (o.1.conn.committed ≡ s.conn.committed)
          × (s.conn.faults ≢ []))

module _ {A : Type 0} where
  clean_end :
      (r : A × Database) (s : SerializedConnection) (o : Result A × Conn)
      → s.closed ≡ false
      → Ends r s.conn o
      → let o' = continue o.0 (λ a. (commit >> pure a)) o.1 in
        IsAtomic r s (o'.0, record s { conn = clean_up o'.0 o'.1 })
  unfolding commit clean_up
  clean_end r s (err e, c) still_open h = record {
    idle = record {
      no_transaction = ground (arith, h.consistent);
      in_step = ground (arith, h.consistent);
    };
    still_open = still_open;
    outcome = ground (arith, h.outcome, h.stays);
  }
  clean_end r s (ok a, c) still_open h = record {
    idle = record {
      no_transaction = ground (arith, h.consistent);
      in_step = ground (arith, h.consistent);
    };
    still_open = still_open;
    outcome = ground (arith, h.outcome, h.stays, h.consistent);
  }

  run_open :
      (m : Exec Conn A) (s : SerializedConnection)
      → s.closed ≡ false
      → ((m s.conn).0, record s { conn = clean_up (m s.conn).0 (m s.conn).1 }) ≡ run m s
  unfolding run
  run_open m s still_open = ground arith

  -- Run on an open connection with no transaction open, a unit that ends in a commit is atomic.
  pub committing-IsAtomic :
      (f : Database → A × Database) (m : Exec Conn A) (s : SerializedConnection)
      → Computes f m
      → s.closed ≡ false
      → IsIdle s.conn
      → IsAtomic (f s.conn.committed) s (run (committing m) s)
  committing-IsAtomic f m s h still_open idle =
      subst (λ d. IsAtomic (f d) s (run (committing m) s)) idle.in_step
        (subst (λ o. IsAtomic (f s.conn.working) s o) (run_open (committing m) s still_open)
          (clean_end (f s.conn.working) s (m s.conn) still_open
            (h.ends s.conn (λ _. idle.in_step))))
