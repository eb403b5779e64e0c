-- ===== src/Parking.antt =====
-- scheduler/src/services/restart_park.rs: at a restart, the sessions that run are stopped, unless
-- their ancestors are terminated or do not make sense.
pub mod Chains
-- Job Proc
use agentbeacon.Resolution.Size.Written.{write_int}
use agentbeacon.Transition.Actions.{Action}
use agentbeacon.Json.{obj, field, str, end}
use agentbeacon.Statements.Work.{insert_locked}
use agentbeacon.Reconciler.Cascade.{Job, run_transition, query}
use agentbeacon.Synchronisation.Requests.{caught}
use agentbeacon.Statements.{attempt, count_pending_turns}
use agentbeacon.Tables.{
  Db, Desired, Execution, InsertedEvent, Session, is_terminate, Outcome, is_run, platform,
}
use agentbeacon.Base.{
  Bool, List, Option, String, [], find, ℕ, false, filter_where, if◌then◌else◌, some, str_eq, suc,
  true, count_where, ltb, none, not, ℤ, ◌&&◌, ◌++◌, ◌||◌, ◌∷◌, is_some, zero, is_none, pos, ◌⧺◌,
}
use agentbeacon.Tx.{Result, Rejected, Tx, SchedulerError, gets, ok, err}
use agentbeacon.Tx
use agentbeacon.Procedures.{◌>>=◌, ◌>>◌, done, attempted}

pub record RestartPauseCandidate : Type 0 where
  pub id : String
  pub execution_id : String
  pub parent_session_id : Option String
  pub command_has_payload : Bool

pub record SessionAncestryNode : Type 0 where
  pub id : String
  pub execution_id : String
  pub parent_session_id : Option String
  pub desired : Desired
  pub outcome : Option Outcome

pub data AncestorCheck : Type 0 where
  clean terminating corrupt : AncestorCheck

pub record RestartPauseSummary : Type 0 where
  pub paused : ℕ
  pub failures : List String

-- The ids are a primary key, so the map of the source has the node that stands in the list.
unfoldable pub find_node : String → List SessionAncestryNode → Option SessionAncestryNode
unfolding find
find_node id nodes = find (λ n. str_eq n.id id) nodes

unfoldable pub has_visited : String → List String → Bool
has_visited id [] = false
has_visited id (v ∷ vs) = str_eq v id || has_visited id vs

abbrev pub is_ending : SessionAncestryNode → Bool
is_ending node = is_terminate node.desired || is_some node.outcome

module _ (start_id : String) (nodes : List SessionAncestryNode) where
  abbrev pub enter_parent :
      (String → AncestorCheck)
      → SessionAncestryNode
      → String
      → Option SessionAncestryNode
      → AncestorCheck
  enter_parent next node pid none = corrupt
  enter_parent next node pid (some pnode) =
      if str_eq pnode.execution_id node.execution_id then next pid else corrupt

  abbrev pub to_parent :
      (String → AncestorCheck) → SessionAncestryNode → Option String → AncestorCheck
  to_parent next node none = clean
  to_parent next node (some pid) = enter_parent next node pid (find_node pid nodes)

  abbrev pub check_node :
      (List String → String → AncestorCheck)
      → List String
      → String
      → Option SessionAncestryNode
      → AncestorCheck
  check_node next visited current none = corrupt
  check_node next visited current (some node) =
      if has_visited node.id visited
      then corrupt
      else if not (str_eq current start_id) && is_ending node
      then terminating
      else to_parent (next (node.id ∷ visited)) node node.parent_session_id

  -- The number counts the steps that are left: the source gives up after as many as there are nodes.
  unfoldable pub classify_loop : ℕ → List String → String → AncestorCheck
  unfolding find_node has_visited
  classify_loop zero visited current = corrupt
  classify_loop (suc n) visited current =
      check_node (classify_loop n) visited current (find_node current nodes)

  unfoldable pub classify_ancestry : AncestorCheck
  unfolding classify_loop
  classify_ancestry = classify_loop (suc (count_where (λ n. true) nodes)) [] start_id

abbrev is_running_execution : String → Execution → Bool
is_running_execution id x = str_eq x.id id && is_run x.desired && is_none x.outcome

abbrev is_candidate : Db → Session → Bool
is_candidate d s =
    ltb 0 (count_where (is_running_execution s.execution_id) d.executions)
    && is_run s.desired
    && is_none s.outcome

abbrev candidates_of : List Session → List RestartPauseCandidate
candidates_of [] = []
candidates_of (s ∷ ss) =
    record {
      id = s.id;
      execution_id = s.execution_id;
      parent_session_id = s.parent_session_id;
      command_has_payload = s.command_has_payload;
    }
    ∷ candidates_of ss

unfoldable pub find_restart_pause_candidates : Tx SchedulerError (List RestartPauseCandidate)
unfolding attempt filter_where
find_restart_pause_candidates =
    Tx.◌>>=◌ (attempt "find_restart_pause_candidates failed")
      λ u. gets (λ d. candidates_of (filter_where (is_candidate d) d.sessions))

abbrev nodes_of : List Session → List SessionAncestryNode
nodes_of [] = []
nodes_of (s ∷ ss) =
    record {
      id = s.id;
      execution_id = s.execution_id;
      parent_session_id = s.parent_session_id;
      desired = s.desired;
      outcome = s.outcome;
    }
    ∷ nodes_of ss

abbrev is_of_candidate : List RestartPauseCandidate → Session → Bool
is_of_candidate [] s = false
is_of_candidate (c ∷ cs) s = str_eq s.execution_id c.execution_id || is_of_candidate cs s

-- The sessions of the candidates' executions.
unfoldable pub load_session_ancestry :
    List RestartPauseCandidate → Tx SchedulerError (List SessionAncestryNode)
unfolding attempt filter_where
load_session_ancestry candidates =
    Tx.◌>>=◌ (attempt "load_session_ancestry failed")
      λ u. gets (λ d. nodes_of (filter_where (is_of_candidate candidates) d.sessions))

-- An event of its own, which may fail.
unfoldable pub tell : RestartPauseCandidate → String → Job (Option InsertedEvent)
unfolding caught insert_locked
tell cand text = caught (
    query (
      insert_locked cand.execution_id (some cand.id) platform
        (obj (field "message" (str text) end))))

unfoldable pub note_left_running :
    RestartPauseCandidate → RestartPauseSummary → Job RestartPauseSummary
unfolding tell
note_left_running cand summary = do
  tell cand "Session left running after server restart."
  done (record summary { failures = summary.failures ++ cand.id ∷ [] })

abbrev after_stop :
    RestartPauseCandidate
    → RestartPauseSummary
    → Result Rejected (Option ℤ)
    → Job RestartPauseSummary
after_stop cand summary (ok a) = done (record summary { paused = suc summary.paused })
after_stop cand summary (err x) = note_left_running cand summary

unfoldable pub stop_candidate :
    RestartPauseCandidate → RestartPauseSummary → Job RestartPauseSummary
unfolding tell run_transition note_left_running
stop_candidate cand summary = do
  (if cand.command_has_payload
      then tell cand "Agent recovered from a crash. A message may have been lost."
      else done none)
  result ←
      attempted {E = Rejected} (
        run_transition cand.execution_id cand.id (Action.set_desired Desired.stop "system:restart"))
  after_stop cand summary result

abbrev stop_if_told :
    RestartPauseCandidate → RestartPauseSummary → Option InsertedEvent → Job RestartPauseSummary
stop_if_told cand summary none = note_left_running cand summary
stop_if_told cand summary (some inserted) = stop_candidate cand summary

abbrev after_count :
    RestartPauseCandidate → RestartPauseSummary → Option ℕ → Job RestartPauseSummary
after_count cand summary none = note_left_running cand summary
after_count cand summary (some pending) =
    if ltb 0 pending
    then (do
      told ← tell cand (write_int (pos pending) ⧺ " queued message(s) discarded on server restart.")
      stop_if_told cand summary told)
    else stop_candidate cand summary

abbrev park_checked :
    RestartPauseCandidate → RestartPauseSummary → AncestorCheck → Job RestartPauseSummary
park_checked cand summary terminating = done summary
park_checked cand summary corrupt = note_left_running cand summary
park_checked cand summary clean = do
  pending ← caught (query (count_pending_turns cand.id))
  after_count cand summary pending

unfoldable pub park_all :
    List SessionAncestryNode
    → List RestartPauseCandidate
    → RestartPauseSummary
    → Job RestartPauseSummary
unfolding stop_candidate note_left_running caught classify_ancestry tell
park_all nodes [] summary = done summary
park_all nodes (cand ∷ rest) summary = do
  checked ← park_checked cand summary (classify_ancestry cand.id nodes)
  park_all nodes rest checked

abbrev enabled : Option String → Bool
enabled none = true
enabled (some value) = not (str_eq value "false")

abbrev nothing_paused : RestartPauseSummary
nothing_paused = record { paused = 0; failures = [] }

abbrev park_loaded :
    List RestartPauseCandidate → Option (List SessionAncestryNode) → Job RestartPauseSummary
park_loaded candidates none = done nothing_paused
park_loaded candidates (some nodes) = park_all nodes candidates nothing_paused

abbrev park_found : Option (List RestartPauseCandidate) → Job RestartPauseSummary
park_found none = done nothing_paused
park_found (some []) = done nothing_paused
park_found (some (cand ∷ rest)) = do
  nodes ← caught (query (load_session_ancestry (cand ∷ rest)))
  park_loaded (cand ∷ rest) nodes

-- `config` reads the setting `restart.pause_sessions`, from the table that is not modelled.
unfoldable pub park_live_sessions_on_boot : Tx SchedulerError String → Job RestartPauseSummary
unfolding caught park_all find_restart_pause_candidates load_session_ancestry
park_live_sessions_on_boot config = do
  value ← caught (query config)
  if enabled value
      then (do candidates ← caught (query find_restart_pause_candidates); park_found candidates)
      else done nothing_paused
