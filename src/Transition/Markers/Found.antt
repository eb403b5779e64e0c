-- ===== src/Transition/Markers/Found.antt =====
-- A marker that is in the log is found.
use agentbeacon.Base.{
  none, some, [], ◌∷◌, ◌++◌, refl, true, inl, inr, Bool-cases, filter_where, ℕ, Bool, String, List,
  ℤ, ◌≡◌, if_true, Option, eq_ℤ_refl, is_some, arith,
}
use agentbeacon.Transition.Markers.{
  better, stamped, best_candidate, event_candidates, best_marker_from, best_marker, marker_of,
  follows, names_escalation, Escalation, Event,
}
use agentbeacon.Resolution.Candidates.{ResolutionCandidate}

filter_where-split :
    {A : Type 0} (p : A → Bool) (xs ys : List A) (y : A)
    → p y ≡ true
    → filter_where p (xs ++ y ∷ ys) ≡ filter_where p xs ++ y ∷ filter_where p ys
unfolding filter_where
filter_where-split p [] ys y h = if_true (p y) _ _ h
filter_where-split p (x ∷ xs) ys y h =
    let rest = filter_where-split p xs ys y h in
    elim (Bool-cases (p x)) [ inl hit ↦ rw (hit, rest) refl | inr miss ↦ rw (miss, rest) refl ]

module _ (rfc3339 : ℕ → String) where
  better-some :
      (best : Option ResolutionCandidate) (c : ResolutionCandidate) → is_some (better best c) ≡ true
  unfolding better
  better-some none c = refl
  better-some (some b) c = ground arith

  best_candidate-some :
      (id : ℤ) (event : Event) (cs : List ResolutionCandidate) (best : Option ResolutionCandidate)
      → is_some best ≡ true
      → is_some (best_candidate rfc3339 id event best cs) ≡ true
  unfolding best_candidate
  best_candidate-some id event [] best h = h
  best_candidate-some id event (c ∷ cs) best h =
      best_candidate-some id event cs _
        (ground (arith, better-some best (stamped rfc3339 event c c.kind)))

  best_marker_from-some :
      (x : Escalation) (es : List Event) (best : Option ResolutionCandidate)
      → is_some best ≡ true
      → is_some (best_marker_from rfc3339 x best es) ≡ true
  unfolding best_marker_from
  best_marker_from-some x [] best h = h
  best_marker_from-some x (e ∷ es) best h =
      best_marker_from-some x es _
        (best_candidate-some x.id e (event_candidates x.session_id e) best h)

  -- An event among others whose one candidate names the escalation.
  module _ (x : Escalation) (event : Event) (c : ResolutionCandidate)
      (read : event_candidates x.session_id event ≡ c ∷ [])
      (named : c.escalation_event_id ≡ some x.id) where
    names : names_escalation c.escalation_event_id x.id ≡ true
    names = rw named (eq_ℤ_refl x.id)

    best_candidate-named :
        (best : Option ResolutionCandidate)
        → is_some (best_candidate rfc3339 x.id event best (c ∷ [])) ≡ true
    unfolding best_candidate
    best_candidate-named best = rw names (better-some best (stamped rfc3339 event c c.kind))

    best_marker_from-found :
        (before after : List Event) (best : Option ResolutionCandidate)
        → is_some (best_marker_from rfc3339 x best (before ++ event ∷ after)) ≡ true
    unfolding best_marker_from
    best_marker_from-found [] after best =
        best_marker_from-some x after _ (rw read (best_candidate-named best))
    best_marker_from-found (e ∷ before) after best = best_marker_from-found before after _

    pub marker_of-found :
        (before after : List Event)
        → follows x event ≡ true
        → is_some (marker_of rfc3339 (before ++ event ∷ after) x) ≡ true
    unfolding marker_of best_marker
    marker_of-found before after h = rw (filter_where-split (follows x) before after event h) (
        best_marker_from-found (filter_where (follows x) before) (filter_where (follows x) after)
          none)
