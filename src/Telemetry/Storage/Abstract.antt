-- ===== src/Telemetry/Storage/Abstract.antt =====
-- The storage up to what its queries can tell apart.
use mathlib.Core.Path.{subst}
use ctask.Common.{
  ℕ, suc, ◌-◌, ◌<◌, ◌≡◌, ◌≢◌, ◌↔◌, ◌⊎◌, refl, ap, sym, ◌∙◌, Bytes, bytes_eq_iff, true, Option, some,
  inl, inr, arith, Option-cases, Bool-cases, ltb,
}
use ctask.Telemetry.Types.{InteractionTimesCollection, InteractionTimesEventModel}
use ctask.Telemetry.Events.{between}
use ctask.Telemetry.Events.Range.{
  between_sound, between_complete, within_empty, values_from, values_from_congr,
}
use ctask.Telemetry.Storage.{TelemetryStorage, store_event, get_event_interactions}
use ctask.Telemetry.Storage.Laws.{
  entries, recorded, IsValid, store_event-IsValid, recorded-store_event,
}
use ctask.Telemetry.Storage.Query.{get_event_interactions_lem, get_event_interactions_ordered}

-- Two storages hold the same values.
abbrev pub IsSame : TelemetryStorage → TelemetryStorage → Type 0
IsSame s s' = (name : Bytes) (date : ℕ) → recorded name date s ≡ recorded name date s'

-- Two storages give the same answer to every query, undefined behaviour included.
abbrev pub AnswerAlike : TelemetryStorage → TelemetryStorage → Type 0
AnswerAlike s s' =
    (name : Bytes) (from to : ℕ)
    → get_event_interactions name from to s ≡ get_event_interactions name from to s'

between_same :
    (name : Bytes) (from to : ℕ) (s s' : TelemetryStorage)
    → IsValid s
    → IsSame s s'
    → between to from (entries name s) ≡ true
    → between to from (entries name s') ≡ true
unfolding recorded
between_same name from to s s' v same e =
    let (date, low, high, there) = between_sound to from (entries name s) (v.sorted name) e in
    between_complete to from date (entries name s') low high
      (λ missing. there (same name date ∙ missing))

backward_same :
    (name : Bytes) (from to : ℕ) (s s' : TelemetryStorage)
    → IsValid s
    → IsValid s'
    → IsSame s s'
    → to < from
    → get_event_interactions name from to s ≡ get_event_interactions name from to s'
backward_same name from to s s' v v' same behind =
    let e = get_event_interactions_lem name from to s v in
    let e' = get_event_interactions_lem name from to s' v' in
    let empty = within_empty from to (entries name s) behind in
    let empty' = within_empty from to (entries name s') behind in
    elim (Bool-cases (between to from (entries name s))) [
      | inl lost ↦
          let lost' = between_same name from to s s' v same lost in rw (e, e', lost, lost') refl
      | inr kept ↦ elim (Bool-cases (between to from (entries name s'))) [
        | inl lost' ↦
            let lost = between_same name from to s' s v' (λ n d. sym (same n d)) lost' in
            ground arith
        | inr kept' ↦ rw (e, e', kept, kept', empty, empty') refl
      ]
    ]

values_from_one :
    (f g : ℕ → Option InteractionTimesCollection) (date : ℕ)
    → values_from f date 1 ≡ values_from g date 1
    → f date ≡ g date
unfolding values_from
values_from_one f g date e = elim (Option-cases (f date)) [
  | inl none_f ↦ elim (Option-cases (g date)) [
    | inl none_g ↦ none_f ∙ sym none_g
    | inr (v, some_g) ↦ ground arith
  ]
  | inr (u, some_f) ↦ elim (Option-cases (g date)) [
    | inl none_g ↦ ground arith
    | inr (v, some_g) ↦ ground arith
  ]
]

-- Two storages in order answer every query alike, undefined behaviour included, exactly when they
-- hold the same value for each name and timestamp: nothing else of a storage can be observed.
pub AnswerAlike-iff :
    (s s' : TelemetryStorage) → IsValid s → IsValid s' → AnswerAlike s s' ↔ IsSame s s'
AnswerAlike-iff s s' v v' = (
  λ alike name date.
      let one : suc date - date ≡ 1 = omega arith in
      let f = λ (d : ℕ). recorded name d s in
      let g = λ (d : ℕ). recorded name d s' in
      let whole : some (values_from f date (suc date - date))
          ≡ some (values_from g date (suc date - date)) =
        sym (get_event_interactions_ordered name date date s v (omega arith))
        ∙ alike name date date
        ∙ get_event_interactions_ordered name date date s' v' (omega arith) in
      let single =
        subst (λ k. some (values_from f date k) ≡ some (values_from g date k)) one whole in
      values_from_one f g date (cc single),
  λ same name from to. elim (Bool-cases (ltb to from)) [
    | inl behind ↦ backward_same name from to s s' v v' same (ground arith)
    | inr ordered ↦
        get_event_interactions_ordered name from to s v (ground arith)
        ∙ ap some (values_from_congr _ _ from (suc to - from) (same name))
        ∙ sym (get_event_interactions_ordered name from to s' v' (ground arith))
  ],
)

-- Two events of different names or timestamps can be stored in either order: every query is answered
-- alike afterwards.
pub store_event_comm :
    (n m : Bytes) (e f : InteractionTimesEventModel) (s : TelemetryStorage)
    → IsValid s
    → (n ≢ m) ⊎ (e.date ≢ f.date)
    → AnswerAlike (store_event n e (store_event m f s)) (store_event m f (store_event n e s))
store_event_comm n m e f s v apart =
    let v1 = store_event-IsValid m f s v in
    let v2 = store_event-IsValid n e s v in
    (AnswerAlike-iff _ _ (store_event-IsValid n e _ v1) (store_event-IsValid m f _ v2)).1 (λ k d.
      ground (
        arith,
        recorded-store_event n k e d (store_event m f s) v1,
        recorded-store_event m k f d s v,
        recorded-store_event m k f d (store_event n e s) v2,
        recorded-store_event n k e d s v,
        bytes_eq_iff n k,
        bytes_eq_iff m k,
        apart,
      ))
