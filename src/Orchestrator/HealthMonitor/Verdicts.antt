-- ===== src/Orchestrator/HealthMonitor/Verdicts.antt =====
-- What packages/orchestrator/src/health-monitor.ts says of one execution over many checks.
use baara_next.Base.{
  ℕ, ◌+◌, ◌≤◌, List, [], ◌∷◌, Bool, true, false, not, ◌&&◌, ◌≡◌, arith, keep, length, exists_in,
  get_or, if◌then◌else◌, ltb, ◌*◌, inl, inr, Bool-cases,
}
use baara_next.Core.Types.{HealthStatus, healthy, slow, unresponsive}
use baara_next.Orchestrator.HealthMonitor.{
  Verdict, lagging, lost, assess, new_health, is_unresponsive, is_healthy,
}

-- The verdicts of the checks at some times, each on the health that the one before left. Nothing else
-- writes the health meanwhile.
abbrev pub verdicts_at : (started timeout : ℕ) → (times : List ℕ) → HealthStatus → List Verdict
verdicts_at started timeout [] h = []
verdicts_at started timeout (now ∷ times) h =
    let v = assess started timeout now h in
    v ∷ verdicts_at started timeout times (get_or (new_health v) h)

abbrev pub is_lost : Verdict → Bool
is_lost lost = true
is_lost _ = false

abbrev pub is_lagging : Verdict → Bool
is_lagging lagging = true
is_lagging _ = false

lost_count :
    (started timeout : ℕ) (times : List ℕ) (h : HealthStatus)
    → length (keep is_lost (verdicts_at started timeout times h)) ≡ (
        if exists_in (λ now. ltb (started + timeout) now) times && not (is_unresponsive h)
        then 1
        else 0)
unfolding assess
lost_count started timeout [] h = omega arith
lost_count started timeout (now ∷ times) healthy = elim (Bool-cases (ltb (started + timeout) now)) [
  | inl late ↦ rw late (ground (arith, lost_count started timeout times unresponsive))
  | inr early ↦ elim (Bool-cases (ltb (2 * started + timeout) (2 * now))) [
    | inl half ↦ rw (early, half) (ground (arith, lost_count started timeout times slow))
    | inr soon ↦ rw (early, soon) (ground (arith, lost_count started timeout times healthy))
  ]
]
lost_count started timeout (now ∷ times) slow = elim (Bool-cases (ltb (started + timeout) now)) [
  | inl late ↦ rw late (ground (arith, lost_count started timeout times unresponsive))
  | inr early ↦ elim (Bool-cases (ltb (2 * started + timeout) (2 * now))) [
    | inl half ↦ rw (early, half) (ground (arith, lost_count started timeout times slow))
    | inr soon ↦ rw (early, soon) (ground (arith, lost_count started timeout times slow))
  ]
]
lost_count started timeout (now ∷ times) unresponsive =
    elim (Bool-cases (ltb (started + timeout) now)) [
      | inl late ↦ rw late (ground (arith, lost_count started timeout times unresponsive))
      | inr early ↦ elim (Bool-cases (ltb (2 * started + timeout) (2 * now))) [
        | inl half ↦
            rw (early, half) (ground (arith, lost_count started timeout times unresponsive))
        | inr soon ↦
            rw (early, soon) (ground (arith, lost_count started timeout times unresponsive))
      ]
    ]

lagging_count :
    (started timeout : ℕ) (times : List ℕ) (h : HealthStatus)
    → length (keep is_lagging (verdicts_at started timeout times h))
      ≤ (if is_healthy h then 1 else 0)
unfolding assess
lagging_count started timeout [] h = omega arith
lagging_count started timeout (now ∷ times) healthy =
    elim (Bool-cases (ltb (started + timeout) now)) [
      | inl late ↦ rw late (ground (arith, lagging_count started timeout times unresponsive))
      | inr early ↦ elim (Bool-cases (ltb (2 * started + timeout) (2 * now))) [
        | inl half ↦ rw (early, half) (ground (arith, lagging_count started timeout times slow))
        | inr soon ↦ rw (early, soon) (ground (arith, lagging_count started timeout times healthy))
      ]
    ]
lagging_count started timeout (now ∷ times) slow = elim (Bool-cases (ltb (started + timeout) now)) [
  | inl late ↦ rw late (ground (arith, lagging_count started timeout times unresponsive))
  | inr early ↦ elim (Bool-cases (ltb (2 * started + timeout) (2 * now))) [
    | inl half ↦ rw (early, half) (ground (arith, lagging_count started timeout times slow))
    | inr soon ↦ rw (early, soon) (ground (arith, lagging_count started timeout times slow))
  ]
]
lagging_count started timeout (now ∷ times) unresponsive =
    elim (Bool-cases (ltb (started + timeout) now)) [
      | inl late ↦ rw late (ground (arith, lagging_count started timeout times unresponsive))
      | inr early ↦ elim (Bool-cases (ltb (2 * started + timeout) (2 * now))) [
        | inl half ↦
            rw (early, half) (ground (arith, lagging_count started timeout times unresponsive))
        | inr soon ↦
            rw (early, soon) (ground (arith, lagging_count started timeout times unresponsive))
      ]
    ]

-- Over any number of checks of an execution that begins healthy, where the health is only what the
-- checks write, it is reported lost once if some check comes after its timeout and never otherwise,
-- and it is marked slow at most once.
pub verdicts_at_once :
    (started timeout : ℕ) (times : List ℕ)
    → (length (keep is_lost (verdicts_at started timeout times healthy))
        ≡ (if exists_in (λ now. ltb (started + timeout) now) times then 1 else 0))
      × (length (keep is_lagging (verdicts_at started timeout times healthy)) ≤ 1)
verdicts_at_once started timeout times =
    let reports = lost_count started timeout times healthy in
    (ground (arith, reports), lagging_count started timeout times healthy)
