-- ===== src/Transition/Markers/Least.antt =====
-- Which marker resolves an escalation, when there are several.
use agentbeacon.Base.{
  [], ◌∷◌, ◌++◌, false, All, List, Option, ℕ, ◌≡◌, String, ℤ, filter_where, if◌then◌else◌,
}
use agentbeacon.Transition.Markers.{
  better, stamped, event_candidates, follows, names_escalation, Escalation, Event,
}
use agentbeacon.Resolution.Candidates.{ResolutionCandidate, key_lt}

-- The candidates for an escalation, in the order of the log.
abbrev pub named_candidates :
    (ℕ → String) → ℤ → Event → List ResolutionCandidate → List ResolutionCandidate
named_candidates rfc3339 id event [] = []
named_candidates rfc3339 id event (c ∷ cs) =
    let rest = named_candidates rfc3339 id event cs in
    if names_escalation c.escalation_event_id id
    then stamped rfc3339 event c c.kind ∷ rest
    else rest

abbrev pub log_candidates : (ℕ → String) → Escalation → List Event → List ResolutionCandidate
log_candidates rfc3339 x [] = []
log_candidates rfc3339 x (event ∷ rest) =
    named_candidates rfc3339 x.id event (event_candidates x.session_id event)
    ++ log_candidates rfc3339 x rest

-- The candidates in the events of the escalation's execution that came after it.
abbrev pub marker_candidates : (ℕ → String) → List Event → Escalation → List ResolutionCandidate
marker_candidates rfc3339 events x = log_candidates rfc3339 x (filter_where (follows x) events)

abbrev best_of : Option ResolutionCandidate → List ResolutionCandidate → Option ResolutionCandidate
best_of best [] = best
best_of best (c ∷ cs) = best_of (better best c) cs

-- No candidate of the list has a smaller key.
abbrev pub IsLeast : ResolutionCandidate → List ResolutionCandidate → Type 0
IsLeast b cs = All (λ c. key_lt c.order_key b.order_key ≡ false) cs
