-- ===== src/Server/Threads/Plans.antt =====
-- A call of the program that uses the storage at most once, as what it does before, the call of the
-- storage, and what it makes of the result.
use ctask.Common.{ℕ, ◌≡◌, refl, ap, sym, ◌∙◌, Bytes, List, Option}
use ctask.Telemetry.Types.{InteractionTimesCollection, InteractionTimesEventModel}
use ctask.Telemetry.Storage.{TelemetryStorage, store_event, get_event_interactions}

pub data Plan (A : Type 0) : Type 0 where
  answers : A → Plan A
  stores : Bytes → InteractionTimesEventModel → A → Plan A
  asks : Bytes → ℕ → ℕ → (Option (List InteractionTimesCollection) → A) → Plan A

-- The whole call, where nothing else happens meanwhile.
abbrev pub run : {A : Type 0} → Plan A → TelemetryStorage → A × TelemetryStorage
run (answers a) s = (a, s)
run (stores name event a) s = (a, store_event name event s)
run (asks name from to next) s = (next (get_event_interactions name from to s), s)

abbrev map_plan : {A B : Type 0} → (A → B) → Plan A → Plan B
map_plan g (answers a) = answers (g a)
map_plan g (stores name event a) = stores name event (g a)
map_plan g (asks name from to next) = asks name from to (λ o. g (next o))

-- A plan of a function of the storage.
pub record Planned {A : Type 0} (f : TelemetryStorage → A × TelemetryStorage) : Type 0 where
  pub plan : Plan A
  pub runs : (s : TelemetryStorage) → f s ≡ run plan s

pub Planned-same :
    {A : Type 0} {f h : TelemetryStorage → A × TelemetryStorage}
    → ((s : TelemetryStorage) → f s ≡ h s)
    → Planned h
    → Planned f
Planned-same same p = record { plan = p.plan; runs = λ s. same s ∙ p.runs s }

abbrev pub then_map :
    {A B : Type 0}
    → (A → B)
    → (TelemetryStorage → A × TelemetryStorage)
    → TelemetryStorage
    → B × TelemetryStorage
then_map g f s = (g (f s).0, (f s).1)

run-map_plan :
    {A B : Type 0} (g : A → B) (plan : Plan A) (s : TelemetryStorage)
    → run (map_plan g plan) s ≡ (g (run plan s).0, (run plan s).1)
run-map_plan g (answers a) s = refl
run-map_plan g (stores name event a) s = refl
run-map_plan g (asks name from to next) s = refl

-- What is made of the value afterwards.
pub Planned-map :
    {A B : Type 0} (g : A → B) {f : TelemetryStorage → A × TelemetryStorage}
    → Planned f
    → Planned (then_map g f)
Planned-map {A} g p = record {
  plan = map_plan g p.plan;
  runs = λ s.
      ap (λ (x : A × TelemetryStorage). (g x.0, x.1)) (p.runs s) ∙ sym (run-map_plan g p.plan s);
}
