-- ===== src/LegacyImport/Later.antt =====
-- legacy_import.py: statements that leave the target alone, while others may commit to it.
use mathlib.Core.Path.{subst}
use ha_skywatch.Prelude.{sym, ◌∙◌, if_cases, true, false, List, [], ◌∷◌, ◌≡◌, refl, if◌then◌else◌}
use ha_skywatch.Python.Result.{Result, ok, err, operational, Exec, pure, continue, ◌>>=◌}
use ha_skywatch.LegacyImport.{Target}
use ha_skywatch.LegacyImport.Import.{lift}
use ha_skywatch.LegacyImport.Session.{
  Moment, Session, arrive, execute, query, view, detach, attach, next_moment, later_moments,
}

-- The target and the moments to come, after some moments of others.
pub data Later (d : Target) (ms : List Moment) : Target → List Moment → Type 0 where
  now : Later d ms d ms
  then_ :
      {d' : Target} {m : Moment} {ms' : List Moment}
      → Later d ms d' (m ∷ ms')
      → Later d ms (m.arrives d') ms'
  -- What others wanted to commit under the write lock fails there.
  held :
      {d' : Target} {m : Moment} {ms' : List Moment} → Later d ms d' (m ∷ ms') → Later d ms d' ms'

pub Later-trans :
    {d d' : Target} {ms ms' : List Moment} {d'' : Target} {ms'' : List Moment}
    → Later d ms d' ms'
    → Later d' ms' d'' ms''
    → Later d ms d'' ms''
Later-trans h now = h
Later-trans h (then_ k) = then_ (Later-trans h k)
Later-trans h (held k) = held (Later-trans h k)

pub Later-held : (d : Target) (ms : List Moment) → Later d ms d (later_moments ms)
Later-held d [] = now
Later-held d (m ∷ ms) = held now

-- `t` comes from `s`: no transaction is open, and the target is as others left it.
pub record Waits (s t : Session) : Type 0 where
  pub later : Later s.committed s.moments t.committed t.moments
  pub idle : t.in_transaction ≡ false

pub Waits-refl : (s : Session) → s.in_transaction ≡ false → Waits s s
Waits-refl s h = record { later = now; idle = h }

pub Waits-trans : {s t u : Session} → Waits s t → Waits t u → Waits s u
Waits-trans h k = record { later = Later-trans h.later k.later; idle = k.idle }

advance :
    (d : Target) (ms : List Moment) → Later d ms ((next_moment ms).arrives d) (later_moments ms)
advance d [] = now
advance d (m ∷ ms) = then_ now

pub Waits-arrive : (s : Session) → s.in_transaction ≡ false → Waits s (arrive s)
unfolding arrive
Waits-arrive s h = record {
  later =
      subst
        (λ b.
          Later s.committed s.moments
            (if b then s.committed else (next_moment s.moments).arrives s.committed)
            (later_moments s.moments))
        (sym h) (advance s.committed s.moments);
  idle = h;
}

-- Run with no transaction open, `m` opens none and leaves the target alone.
pub record Reads {A : Type 0} (m : Exec Session A) : Type 0 where
  pub waits : (s : Session) → s.in_transaction ≡ false → Waits s (m s).1

-- The part of a session that an import's reads leave alone.
abbrev pub Keeps : Session → Session → Type 0
Keeps s t =
    (t.committed ≡ s.committed) × (t.moments ≡ s.moments) × (t.in_transaction ≡ s.in_transaction)

pub Waits-Keeps : (s t : Session) → s.in_transaction ≡ false → Keeps s t → Waits s t
Waits-Keeps s t h (d, ms, b) = record {
  later =
      subst (λ d'. Later s.committed s.moments d' t.moments) (sym d)
        (subst (λ ms'. Later s.committed s.moments s.committed ms') (sym ms) now);
  idle = b ∙ h;
}

module _ {A : Type 0} where
  pub Reads-pure : (a : A) → Reads {A = A} (pure a)
  Reads-pure a = record { waits = Waits-refl }

  pub Reads-lift : (r : Result A) → Reads (lift r)
  Reads-lift r = record { waits = Waits-refl }

  pub Reads-execute :
      (f : Session → Result A × Session) → ((s : Session) → Keeps s (f s).1) → Reads (execute f)
  unfolding execute
  Reads-execute f keeps = record {
    waits = λ s h.
        if_cases (λ (o : Result A × Session). Waits s o.1) (next_moment s.moments).fails
          (err operational, arrive s) (f (arrive s)) (λ _. Waits-arrive s h)
          (λ _.
            Waits-trans (Waits-arrive s h)
              (Waits-Keeps (arrive s) (f (arrive s)).1 (Waits-arrive s h).idle (keeps (arrive s))));
  }

  pub Reads-query : (f : Target → A) → Reads (query f)
  unfolding query
  Reads-query f = Reads-execute (λ s. (ok (f (view s)), s)) (λ s. (refl, refl, refl))

module _ {A B : Type 0} where
  Waits-continue :
      (s : Session) (o : Result A × Session) (k : A → Exec Session B)
      → Waits s o.1
      → ((a : A) → Reads (k a))
      → Waits s (continue o.0 k o.1).1
  Waits-continue s (err e, t) k h ks = h
  Waits-continue s (ok a, t) k h ks = Waits-trans h ((ks a).waits t h.idle)

  pub Reads-bind :
      (m : Exec Session A) (k : A → Exec Session B)
      → Reads m
      → ((a : A) → Reads (k a))
      → Reads (m >>= k)
  Reads-bind m k h ks = record { waits = λ s idle. Waits-continue s (m s) k (h.waits s idle) ks }

pub Reads-attach : Reads attach
unfolding attach
Reads-attach = Reads-execute (λ s. (ok tt, record s { attached = true })) (λ s. (refl, refl, refl))

pub Reads-detach : Reads detach
unfolding detach
Reads-detach = Reads-execute (λ s. (ok tt, record s { attached = false })) (λ s. (refl, refl, refl))
