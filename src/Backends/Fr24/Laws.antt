-- ===== src/Backends/Fr24/Laws.antt =====
-- What backends/fr24.py makes of a payload that it cannot read.
use ha_skywatch.Prelude.{some, ◌≡◌, refl}
use ha_skywatch.Python.{Platform}
use ha_skywatch.Python.Result.{err, overflow}
use ha_skywatch.Time.{Instant}
use ha_skywatch.Normalizers.Laws.{IsTooLarge, coerce_int-err}
use ha_skywatch.Backends.Base.{Source}
use ha_skywatch.Backends.Fr24.{Fields, Calls, payload_to_sighting, handle_exit}

-- An exit event whose altitude is too large raises OverflowError, and no callback is called.
pub handle_exit-err :
    (p : Platform) {C S : Type 0} (calls : Calls C S) (source : Source C) (now : Instant)
    (payload : Fields) (s : S)
    → IsTooLarge p payload.altitude
    → handle_exit p calls source now (some payload) s ≡ (err overflow, s)
unfolding handle_exit payload_to_sighting
handle_exit-err p calls source now payload s h = rw (coerce_int-err p payload.altitude h) refl
