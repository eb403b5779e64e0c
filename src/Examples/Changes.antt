-- ===== src/Examples/Changes.antt =====
-- Changes of state: a termination, a stop, a report, a crash and a recovery.
use agentbeacon.Base.{
  none, some, refl, true, ◌+◌, ltb, ◌&&◌, ◌≡◌, count_where, All, String, is_some, subst,
  if◌then◌else◌, ◌∷◌, [],
}
use agentbeacon.Tables.{Db, running, unassigned, crashed, Session}
use mathlib.Core.Option.{some-injective}
use agentbeacon.Tx.{ok, ◌>>=◌}
use agentbeacon.Tx.Inverse.{Ok}
use agentbeacon.Transition.Apply.{terminate_session}
use agentbeacon.Transition.Apply.Ends.{terminate_session-Ended}
use agentbeacon.Transition.Terminal.{write_execution_terminal, find_root, root_is_terminal}
use agentbeacon.Transition.Terminal.Effects.{
  failed_ends, execution_ends, may_fail, is_open, ended_execution,
}
use agentbeacon.Tables.{failed}
use agentbeacon.Transition.Desire.{terminate_failed}
use agentbeacon.Transition.Desire.Ends.{ended_row}
use agentbeacon.Statements.{
  find_execution, find_session, update_where, count_pending_turns, get_session, pending_turns,
}
use agentbeacon.Transition.Activity.{derive_execution_outcome, sessions_of, some_active}
use agentbeacon.Transition.Activity.Derived.{
  derive_execution_outcome-derived, derived_outcome, ParentsAreThere,
}
use agentbeacon.Transition.Desire.{set_terminate, set_stop}
use agentbeacon.Transition.Desire.Ends.{Ended}
use agentbeacon.Transition.Desire.Drains.{stop_drains, Drained}
use agentbeacon.Transition.Executor.{set_executor_state, reported, may_report, cleared_command}
use agentbeacon.Transition.Executor.Owner.{report_by_owner}
use agentbeacon.Transition.Recovery.{detect_crash, retry_recovery}
use agentbeacon.Transition.Recovery.Effects.{recovery_counts, crash_releases, may_crash, may_retry}
use agentbeacon.Examples.Rows.{root, child, broken, calm, database_rows, state_of}

abbrev pub finished : Db
finished = state_of database_rows (set_terminate root "user" none calm database_rows)

root_ends : Ok (terminate_session "x1" "root" "user") calm database_rows tt finished
unfolding terminate_session set_terminate ◌>>=◌ find_execution find_session count_pending_turns
    some_active pending_turns update_where
root_ends = refl

terminate_session-Ended_example : Ended "root" "user" 100 database_rows finished
terminate_session-Ended_example =
    terminate_session-Ended "x1" "root" "user" calm database_rows finished root_ends

abbrev stopped_child : Db
stopped_child = state_of database_rows (set_stop child "user" (some "root") calm database_rows)

child_stops : Ok (set_stop child "user" (some "root")) calm database_rows tt stopped_child
unfolding set_stop ◌>>=◌ find_execution find_session count_where update_where
child_stops = refl

stop_drains_example :
    (t : Session) × (find_session "child" database_rows.sessions ≡ some t)
    × Drained t "child" database_rows stopped_child
stop_drains_example =
    stop_drains child "user" (some "root") calm database_rows stopped_child refl child_stops

abbrev after_report : Db
after_report =
    state_of database_rows (set_executor_state child running "w1" none calm database_rows)

report_accepted : Ok (set_executor_state child running "w1" none) calm database_rows tt after_report
unfolding set_executor_state ◌>>=◌ find_execution find_session get_session count_where update_where
report_accepted = refl

report_by_owner_example :
    (t : Session) × (find_session "child" database_rows.sessions ≡ some t)
    × (ltb 0 (count_where (may_report "child" "w1") database_rows.sessions) ≡ true)
    × (after_report.sessions
        ≡ update_where (may_report "child" "w1") (reported running t 100) database_rows.sessions)
    × (after_report.task_queue ≡ database_rows.task_queue)
report_by_owner_example =
    report_by_owner child running "w1" none calm database_rows after_report report_accepted

abbrev recovered : Db
recovered = state_of database_rows (retry_recovery broken calm database_rows)

recovery_accepted : Ok (retry_recovery broken) calm database_rows tt recovered
unfolding retry_recovery ◌>>=◌ find_execution find_session count_where get_session update_where
recovery_accepted = refl

recovery_counts_example :
    (ltb 0 (count_where (may_retry "broken") database_rows.sessions) ≡ true)
    × (recovered.sessions
        ≡ update_where
            (may_retry "broken")
            (λ t. record t {
              executor_state = unassigned;
              recovery_attempts = t.recovery_attempts + 1;
              updated_at = 100;
            })
            database_rows.sessions)
    × (recovered.task_queue ≡ database_rows.task_queue)
recovery_counts_example = recovery_counts broken calm database_rows recovered recovery_accepted

abbrev lost_child : Db
lost_child = state_of database_rows (detect_crash child calm database_rows)

crash_accepted : Ok (detect_crash child) calm database_rows tt lost_child
unfolding detect_crash ◌>>=◌ find_execution find_session get_session count_where update_where
crash_accepted = refl

crash_releases_example :
    (ltb 0 (count_where (may_crash "child") database_rows.sessions) ≡ true)
    × (lost_child.sessions
        ≡ update_where
            (may_crash "child")
            (λ t. record (cleared_command t) {
              executor_state = crashed;
              worker_id = none;
              updated_at = 100;
            })
            database_rows.sessions)
    × (lost_child.task_queue ≡ database_rows.task_queue)
crash_releases_example = crash_releases child calm database_rows lost_child crash_accepted

root_found :
    (p : String) → some "root" ≡ some p → is_some (find_session p database_rows.sessions) ≡ true
unfolding find_session
root_found p h =
    subst (λ q. is_some (find_session q database_rows.sessions) ≡ true) (some-injective "root" p h)
      refl

parents : All (ParentsAreThere database_rows) database_rows.sessions
unfolding ParentsAreThere
parents = (λ p h. absurd (cc), (λ p h. root_found p h, (λ p h. root_found p h, tt)))

derive_execution_outcome-derived_example :
    derive_execution_outcome "x1" calm database_rows
    ≡ ok (derived_outcome database_rows "x1", database_rows)
unfolding sessions_of
derive_execution_outcome-derived_example =
    derive_execution_outcome-derived calm database_rows "x1" (λ label. refl) parents

abbrev failed_broken : Db
failed_broken = state_of database_rows (terminate_failed broken "system" true calm database_rows)

broken_fails : Ok (terminate_failed broken "system" true) calm database_rows tt failed_broken
unfolding terminate_failed ◌>>=◌ find_execution find_session count_where update_where
broken_fails = refl

failed_ends_example :
    (ltb 0 (count_where (may_fail "broken" true) database_rows.sessions) ≡ true)
    × (failed_broken.sessions
        ≡ update_where
            (may_fail "broken" true)
            (ended_row failed "system" 100)
            database_rows.sessions)
failed_ends_example = failed_ends broken "system" true calm database_rows failed_broken broken_fails

-- A root that has failed, in an execution that is open.
abbrev failed_root : Db
failed_root = record database_rows { sessions = ended_row failed "user" 90 root ∷ [] }

abbrev closed_execution : Db
closed_execution = state_of failed_root (write_execution_terminal "x1" failed calm failed_root)

execution_closes : Ok (write_execution_terminal "x1" failed) calm failed_root true closed_execution
unfolding write_execution_terminal ◌>>=◌ find_execution find_session count_where
execution_closes = refl

execution_ends_example :
    (true ≡ (
      root_is_terminal (find_root "x1" failed_root)
      && ltb 0 (count_where (is_open "x1") failed_root.executions)))
    × (closed_execution.sessions ≡ failed_root.sessions)
    × (closed_execution.executions ≡ (
        if root_is_terminal (find_root "x1" failed_root)
        then update_where (is_open "x1") (ended_execution failed 100) failed_root.executions
        else failed_root.executions))
execution_ends_example =
    execution_ends "x1" failed calm failed_root closed_execution true execution_closes
