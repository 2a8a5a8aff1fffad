-- ===== src/Backends/Base.antt =====
-- backends/base.py: the listener lists of a source, and how it calls them.
use ha_skywatch.Prelude.{
  Bool, true, false, List, [], ◌∷◌, ◌++◌, if◌then◌else◌, ◌≡◌, refl, any, arith,
}
use ha_skywatch.Python.Result.{Result, ok, err, Exec, pure, continue, ◌>>◌}

-- The callbacks of the four kinds of event, in the order of their registration.
pub record Source (C : Type 0) : Type 0 where
  pub entry_listeners : List C
  pub exit_listeners : List C
  pub landing_listeners : List C
  pub takeoff_listeners : List C

-- `__init__`
abbrev pub new_source : {C : Type 0} → Source C
new_source = record {
  entry_listeners = [];
  exit_listeners = [];
  landing_listeners = [];
  takeoff_listeners = [];
}

module _ {C : Type 0} where
  -- `_register`
  unfoldable pub register : List C → C → List C
  register listeners callback = listeners ++ (callback ∷ [])

  -- `listeners.remove(callback)` of `unsub`, which leaves a list without the callback as it is.
  unfoldable pub unsub : (C → C → Bool) → List C → C → List C
  unsub same [] callback = []
  unsub same (cb ∷ listeners) callback =
      let rest = unsub same listeners callback in if same cb callback then listeners else cb ∷ rest

  -- The loop of the four `_emit` methods: a callback that raises ends it.
  unfoldable pub emit : {S : Type 0} → (C → Exec S (Unit {0})) → List C → Exec S (Unit {0})
  emit call [] = pure tt
  emit call (cb ∷ listeners) = do call cb; emit call listeners

  -- A callback that was not registered is registered by `register` and taken out by `unsub`,
  -- which leave the others in their order.
  pub unsub-register :
      (same : C → C → Bool) (listeners : List C) (callback : C)
      → same callback callback ≡ true
      → any (λ cb. same cb callback) listeners ≡ false
      → unsub same (register listeners callback) callback ≡ listeners
  unfolding unsub register
  unsub-register same [] callback h new = ground (arith, h)
  unsub-register same (cb ∷ listeners) callback h new =
      ground (arith, unsub-register same listeners callback h (ground arith))

module _ {C S : Type 0} (call : C → Exec S (Unit {0})) where
  continue-pure : (r : Result (Unit {0})) (s : S) → continue r (λ _. pure tt) s ≡ (r, s)
  continue-pure (ok tt) s = refl
  continue-pure (err e) s = refl

  continue-emit :
      (listeners : List C) (callback : C) (r : Result (Unit {0})) (s : S)
      → ((s : S)
          → emit call (register listeners callback) s ≡ (emit call listeners >> call callback) s)
      → continue r (λ _. emit call (register listeners callback)) s
        ≡ continue
            (continue r (λ _. emit call listeners) s).0
            (λ _. call callback)
            (continue r (λ _. emit call listeners) s).1
  continue-emit listeners callback (ok tt) s h = h s
  continue-emit listeners callback (err e) s h = refl

  -- A callback that is registered is called after those registered before it, and not at all
  -- where one of those raises.
  pub emit-register :
      (listeners : List C) (callback : C) (s : S)
      → emit call (register listeners callback) s ≡ (emit call listeners >> call callback) s
  unfolding emit register
  emit-register [] callback s = continue-pure (call callback s).0 (call callback s).1
  emit-register (cb ∷ listeners) callback s =
      continue-emit listeners callback (call cb s).0 (call cb s).1
        (λ t. emit-register listeners callback t)

module _ {C S : Type 0} (call : C → Exec S (Unit {0})) (P : S → Type 0) where
  keep :
      (listeners : List C) (r : Result (Unit {0})) (s : S)
      → ((s : S) → P s → P (emit call listeners s).1)
      → P s
      → P (continue r (λ _. emit call listeners) s).1
  keep listeners (ok tt) s h at = h s at
  keep listeners (err e) s h at = at

  -- What every callback keeps, an emission keeps.
  pub emit_keeps :
      (listeners : List C) (s : S)
      → ((cb : C) (s : S) → P s → P (call cb s).1)
      → P s
      → P (emit call listeners s).1
  unfolding emit
  emit_keeps [] s h at = at
  emit_keeps (cb ∷ listeners) s h at =
      keep listeners (call cb s).0 (call cb s).1 (λ t k. emit_keeps listeners t h k) (h cb s at)
