-- ===== src/Statements/Work.antt =====
-- scheduler/src/db: the statements of the reconciler on agents, children and turns.
-- `db::agents::get_by_id` and `get_by_id_in_tx` read the agents that are not deleted.
use agentbeacon.Tx.{◌>>=◌, ◌>>◌}
use agentbeacon.Tables.{Agent}
use agentbeacon.Base.{
  String, find, List, filter_where, Bool, Option, is_some_text, ◌∷◌, if◌then◌else◌, [], is_none,
  str_eq, ◌&&◌,
}
use agentbeacon.Statements.{
  attempt, begin_execution_tx, Session, Tx, fetch_one, insert_event, SchedulerError, Task,
  EventType, task_is_of, Json, InsertedEvent, gets, pure, find_session, modify,
}

unfoldable pub get_agent : String → Tx SchedulerError Agent
unfolding attempt fetch_one find
get_agent id = do
  attempt "select agent failed"
  found ← gets (λ d. find (λ (a : Agent). str_eq a.id id && is_none a.deleted_at) d.agents)
  fetch_one "agent" found

-- `db::sessions::get_in_tx`, where a missing row is no error.
unfoldable pub get_session_if_any : String → Tx SchedulerError (Option Session)
unfolding attempt
get_session_if_any id = do attempt "select session failed"; gets (λ d. find_session id d.sessions)

abbrev pub is_child_of : String → Session → Bool
is_child_of parent_id s = is_some_text s.parent_session_id parent_id

unfoldable pub get_children : String → Tx SchedulerError (List Session)
unfolding attempt filter_where
get_children parent_id = do
  attempt "get children failed"
  gets (λ d. filter_where (is_child_of parent_id) d.sessions)

-- The queue without the oldest turn of a session.
unfoldable pub without_oldest : String → List Task → List Task
without_oldest session_id [] = []
without_oldest session_id (t ∷ ts) =
    let rest = t ∷ without_oldest session_id ts in if task_is_of session_id t then ts else rest

unfoldable pub oldest_turn : String → List Task → Option Task
unfolding find
oldest_turn session_id ts = find (task_is_of session_id) ts

-- `SELECT … ORDER BY queued_at ASC LIMIT 1`, and `DELETE … WHERE id = ?` of the row that it gives.
unfoldable pub pop_turn : String → Tx SchedulerError (Option Task)
unfolding attempt oldest_turn without_oldest
pop_turn session_id = do
  attempt "select task failed"
  found ← gets (λ d. oldest_turn session_id d.task_queue)
  (if is_none found then pure tt else do
    attempt "delete task failed"
    modify (λ d. record d { task_queue = without_oldest session_id d.task_queue }))
  pure found

-- `db::events::insert_locked`.
unfoldable pub insert_locked :
    String → Option String → EventType → Json → Tx SchedulerError InsertedEvent
unfolding begin_execution_tx insert_event attempt
insert_locked execution_id session_id event_type payload = do
  begin_execution_tx execution_id
  inserted ← insert_event execution_id session_id event_type payload
  attempt "commit event tx failed"
  pure inserted
