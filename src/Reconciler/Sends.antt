-- ===== src/Reconciler/Sends.antt =====
-- The commands that `reconcile` sends, against the rows of the sessions that they are written to.
pub mod Issues
pub mod Procedures
use agentbeacon.Statements.{update_where}
use agentbeacon.Base.{
  String, count_where, Bool, List, ◌≡◌, true, ◌++◌, ltb, ◌∷◌, Bool-cases, arith, inl, subst, [],
  sym, ap, if_true, inr, if_false, ◌∙◌, some,
}
use agentbeacon.Tables.{Session, CommandType, Db}
use agentbeacon.Reconciler.Commands.{
  CommandAction, ReconcilerAction, mutated, no_action, pending_command, repaired, send_command,
}

abbrev pub command_type_of : CommandAction → CommandType
command_type_of (CommandAction.assign a) = CommandType.assign
command_type_of (CommandAction.feed_turn id payload) = CommandType.feed_turn
command_type_of (CommandAction.stop_turn id) = CommandType.stop_turn
command_type_of (CommandAction.cancel id) = CommandType.cancel

-- The session that a command is for.
abbrev pub session_of : CommandAction → String
session_of (CommandAction.assign a) = a.session_id
session_of (CommandAction.feed_turn id payload) = id
session_of (CommandAction.stop_turn id) = id
session_of (CommandAction.cancel id) = id

-- A row of the session that a command is for has it out, under this token.
pub record Carries (token : String) (action : CommandAction) (s : Session) : Type 0 where
  pub id : s.id ≡ session_of action
  pub command_token : s.command_token ≡ some token
  pub command_type : s.command_type ≡ some (command_type_of action)

pub record Somewhere (P : Session → Type 0) (ss : List Session) : Type 0 where
  pub before : List Session
  pub row : Session
  pub after : List Session
  pub rows : ss ≡ before ++ row ∷ after
  pub holds : P row

pub record SentTo (id : String) (a : ReconcilerAction) (d : Db) : Type 0 where
  pub sent :
      (token : String) (action : CommandAction)
      → a ≡ send_command token action
      → (session_of action ≡ id) × Somewhere (Carries token action) d.sessions

-- An update that takes some row leaves such a row.
pub update_where-Somewhere :
    (P : Session → Type 0) (test : Session → Bool) (f : Session → Session)
    → ((s : Session) → test s ≡ true → P (f s))
    → (ss : List Session) → ltb 0 (count_where test ss) ≡ true
    → Somewhere P (update_where test f ss)
unfolding count_where update_where
update_where-Somewhere P test f h [] k = absurd (cc)
update_where-Somewhere P test f h (s ∷ ss) k = elim (Bool-cases (test s)) [
  | inl hit ↦ record {
    before = [];
    row = f s;
    after = update_where test f ss;
    rows = ap (λ x. x ∷ update_where test f ss) (if_true _ _ _ hit);
    holds = h s hit;
  }
  | inr miss ↦
      let rest =
        update_where-Somewhere P test f h ss
          (subst (λ n. ltb 0 n ≡ true) (if_false _ _ (count_where test ss) miss) k) in
      record {
        before = s ∷ rest.before;
        row = rest.row;
        after = rest.after;
        rows =
            ap (λ x. x ∷ update_where test f ss) (if_false _ _ _ miss)
            ∙ ap (λ (xs : List Session). s ∷ xs) rest.rows;
        holds = rest.holds;
      }
]

module _ (id : String) where
  pub SentTo-no_action : (d : Db) → SentTo id no_action d
  SentTo-no_action d = record { sent = λ token action e. absurd (cc) }

  pub SentTo-pending : (d : Db) → SentTo id pending_command d
  SentTo-pending d = record { sent = λ token action e. absurd (cc) }

  pub SentTo-mutated : (d : Db) → SentTo id mutated d
  SentTo-mutated d = record { sent = λ token action e. absurd (cc) }

  pub SentTo-repaired : (d : Db) → SentTo id repaired d
  SentTo-repaired d = record { sent = λ token action e. absurd (cc) }

  -- A command that was written to some row by an update of the session's rows.
  pub written :
      (token : String) (action : CommandAction) (test : Session → Bool) (f : Session → Session)
      (d d' : Db) (a : ReconcilerAction)
      → a ≡ send_command token action
      → session_of action ≡ id
      → ltb 0 (count_where test d.sessions) ≡ true
      → d'.sessions ≡ update_where test f d.sessions
      → ((s : Session) → test s ≡ true → Carries token action (f s))
      → SentTo id a d'
  written token action test f d d' a sent for_it found rows h = record {
    sent = λ token' action' e.
        let same : (token ≡ token') × (action ≡ action') = ground arith in
        subst
          (λ (x : String). (session_of action' ≡ id) × Somewhere (Carries x action') d'.sessions)
          same.0
          (subst
            (λ (y : CommandAction). (session_of y ≡ id) × Somewhere (Carries token y) d'.sessions)
            same.1
            (
              for_it,
              subst (Somewhere (Carries token action)) (sym rows)
                  (update_where-Somewhere (Carries token action) test f h d.sessions found),
            ));
  }
