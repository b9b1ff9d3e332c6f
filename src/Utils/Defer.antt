-- ===== src/Utils/Defer.antt =====
-- `Defer` of ctask_lib/utils/misc/misc.h: a function that runs where its scope is left, by a return
-- or by an exception.
use ctask.Common.{Option, none, some}
use ctask.Common.Result.{Result}

-- The function that a `Defer` holds, if any, over a world that it changes.
abbrev pub Deferred : Type 0 → Type 0
Deferred W = Option (W → Result (Unit {0}) × W)

-- The destructor: whatever the function throws is caught.
unfoldable pub run_deferred : {W : Type 0} → Deferred W → W → W
run_deferred none w = w
run_deferred (some f) w = (f w).1

-- A scope that begins with a `Defer`.
unfoldable pub scoped : {W A : Type 0} → Deferred W → (W → Result A × W) → W → Result A × W
unfolding run_deferred
scoped deferred body w = let (result, w') = body w in (result, run_deferred deferred w')
