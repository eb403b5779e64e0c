-- ===== src/Synchronisation/Acks/Effects.antt =====
-- What an acknowledgement does, on all its branches.
use mathlib.Core.Option.{some-injective}
use agentbeacon.Statements.Sync.{find_command}
use agentbeacon.Tx.Inverse.{Ok, bind-Ok, if-Ok, pure-Ok}
use agentbeacon.Statements.{update_where, session_has_id, attempt, update_sessions}
use agentbeacon.Tables.{Db, Env}
use agentbeacon.Synchronisation.Acks.{
  process_command_ack_in_tx, Session, AckResult, ack_row, clear_command, has_token, acknowledged,
  applied, holds, is_terminal_cancel, stale_worker, stale_token,
}
use agentbeacon.Base.{
  String, find, Bool, List, count_where, ℕ, All, ◌≡◌, Option, some, true, ◌&&◌, false,
  if◌then◌else◌, none, ◌∷◌, Bool-cases, [], if_false, refl, subst, inl, sym, ◌∙◌, str_eq,
  str_eq_refl, if_true, inr, is_some_text, suc, ap, arith, str_eq_iff, find-test,
}
use agentbeacon.Tx.{◌>>=◌}

abbrev pub acknowledges : String → String → Session → Bool
acknowledges id token s = session_has_id id s && has_token token s

-- `row` is the session whose command the worker has acknowledged.
pub record Applied (worker_id token : String) (now : ℕ) (terminal : Bool) (d d' : Db) : Type 0 where
  pub row : Session
  pub found : find (has_token token) d.sessions ≡ some row
  pub held : row.worker_id ≡ some worker_id
  pub terminal_cancel : terminal ≡ is_terminal_cancel row
  pub written :
      record d {
        sessions = update_where (acknowledges row.id token) (acknowledged terminal now) d.sessions;
      }
      ≡ d'
  pub gone : find (has_token token) d'.sessions ≡ none

pub record OfOther (worker_id token : String) (d d' : Db) : Type 0 where
  pub row : Session
  pub found : find (has_token token) d.sessions ≡ some row
  pub not_held : holds worker_id row ≡ false
  pub same : d ≡ d'

abbrev pub Acked : String → String → ℕ → Db → AckResult → Db → Type 0
Acked worker_id token now d (applied terminal) d' = Applied worker_id token now terminal d d'
Acked worker_id token now d stale_worker d' = OfOther worker_id token d d'
Acked worker_id token now d stale_token d' = (find (has_token token) d.sessions ≡ none) × (d ≡ d')

-- All rows with the token are of one session.
abbrev pub OneSession : String → String → List Session → Type 0
OneSession token id ss = All (λ s. has_token token s ≡ true → s.id ≡ id) ss

cleared :
    (token : String) (b : Bool) (now : ℕ) (s : Session)
    → has_token token (acknowledged b now s) ≡ false
cleared token true now s = refl
cleared token false now s = refl

row_gone :
    (token id : String) (b : Bool) (now : ℕ) (s : Session)
    → (has_token token s ≡ true → s.id ≡ id)
    → has_token token (if acknowledges id token s then acknowledged b now s else s) ≡ false
row_gone token id b now s one = elim (Bool-cases (has_token token s)) [
  | inl hit ↦
      let both : acknowledges id token s ≡ true =
        cong_and (subst (λ (i : String). str_eq i id ≡ true) (sym (one hit)) (str_eq_refl id))
          hit in
      subst (λ (x : Session). has_token token x ≡ false) (sym (if_true _ _ s both))
        (cleared token b now s)
  | inr miss ↦
      subst (λ (x : Session). has_token token x ≡ false)
        (sym (if_false _ _ s (and_false (session_has_id id s) miss))) miss
]
  where
    cong_and : {x y : Bool} → x ≡ true → y ≡ true → x && y ≡ true
    cong_and h k = rw (h, k) refl

    and_false : (x : Bool) {y : Bool} → y ≡ false → x && y ≡ false
    and_false true h = h
    and_false false h = refl

all_gone :
    (token id : String) (b : Bool) (now : ℕ) (ss : List Session)
    → OneSession token id ss
    → find (has_token token) (update_where (acknowledges id token) (acknowledged b now) ss) ≡ none
unfolding find update_where
all_gone token id b now [] one = refl
all_gone token id b now (s ∷ ss) one =
    if_false _ _ _ (row_gone token id b now s one.0) ∙ all_gone token id b now ss one.1

found_id :
    (token id : String) (ss : List Session) (s : Session)
    → OneSession token id ss
    → find (has_token token) ss ≡ some s
    → s.id ≡ id
unfolding find
found_id token id [] s one h = absurd (cc)
found_id token id (t ∷ ts) s one h = elim (Bool-cases (has_token token t)) [
  | inl hit ↦
      subst (λ (x : Session). x.id ≡ id) (some-injective t s (sym (if_true _ _ _ hit) ∙ h))
        (one.0 hit)
  | inr miss ↦ found_id token id ts s one.1 (sym (if_false _ _ _ miss) ∙ h)
]

found_counts :
    (p q : Session → Bool) (ss : List Session) (s : Session)
    → find p ss ≡ some s
    → q s ≡ true
    → ¬ (count_where q ss ≡ 0)
unfolding find count_where
found_counts p q [] s h k n = absurd (cc)
found_counts p q (t ∷ ts) s h k n = elim (Bool-cases (p t)) [
  | inl hit ↦ nonzero (q t) _ (ap q (some-injective t s (sym (if_true _ _ _ hit) ∙ h)) ∙ k) n
  | inr miss ↦ found_counts p q ts s (sym (if_false _ _ _ miss) ∙ h) k (tail_zero (q t) _ n)
]
  where
    nonzero : (b : Bool) (n : ℕ) → b ≡ true → ¬ ((if b then suc n else n) ≡ 0)
    nonzero true n e z = omega arith
    nonzero false n e z = absurd (cc)

    tail_zero : (b : Bool) (n : ℕ) → (if b then suc n else n) ≡ 0 → n ≡ 0
    tail_zero true n z = omega arith
    tail_zero false n z = z

module _ (token : String) (e : Env) (d : Db) where
  clear_command-Ok :
      (s : Session) (r : AckResult) (d' : Db)
      → ¬ (count_where (acknowledges s.id token) d.sessions ≡ 0)
      → Ok (clear_command s token) e d r d'
      → (applied (is_terminal_cancel s) ≡ r)
        × (record d {
          sessions =
              update_where
                (acknowledges s.id token)
                (acknowledged (is_terminal_cancel s) e.now)
                d.sessions;
        }
            ≡ d')
  unfolding clear_command update_sessions attempt ◌>>=◌
  clear_command-Ok s r d' some_row h = ground arith

  ack_row-none :
      (w : String) (r : AckResult) (d' : Db)
      → Ok (ack_row w token none) e d r d'
      → (stale_token ≡ r) × (d ≡ d')
  unfolding ack_row
  ack_row-none w r d' h = pure-Ok stale_token r e d d' h

module _ (worker_id token id : String) (e : Env) (d : Db)
    (one : OneSession token id d.sessions) where
  clear-Acked :
      (s : Session) (r : AckResult) (d' : Db)
      → find (has_token token) d.sessions ≡ some s
      → holds worker_id s ≡ true
      → Ok (clear_command s token) e d r d'
      → Acked worker_id token e.now d r d'
  clear-Acked s r d' f held h =
      let mine : acknowledges s.id token s ≡ true =
        rw (str_eq_refl s.id, find-test (has_token token) d.sessions s f) refl in
      let done =
        clear_command-Ok token e d s r d'
          (found_counts (has_token token) (acknowledges s.id token) d.sessions s f mine) h in
      subst (λ (x : AckResult). Acked worker_id token e.now d x d') done.0
        (record {
          row = s;
          found = f;
          held = is_text s.worker_id held;
          terminal_cancel = refl;
          written = done.1;
          gone =
              subst (λ (x : Db). find (has_token token) x.sessions ≡ none) done.1
                (all_gone token s.id (is_terminal_cancel s) e.now d.sessions (
                  subst (λ (i : String). OneSession token i d.sessions)
                    (sym (found_id token id d.sessions s one f)) one));
        })
    where
      is_text : (o : Option String) → is_some_text o worker_id ≡ true → o ≡ some worker_id
      is_text none k = absurd (cc)
      is_text (some t) k = ap some ((str_eq_iff t worker_id).0 k)

  row-Acked :
      (o : Option Session) (r : AckResult) (d' : Db)
      → find (has_token token) d.sessions ≡ o
      → Ok (ack_row worker_id token o) e d r d'
      → Acked worker_id token e.now d r d'
  unfolding ack_row
  row-Acked none r d' f h =
      let k = ack_row-none token e d worker_id r d' h in
      subst (λ (x : AckResult). Acked worker_id token e.now d x d') k.0 (f, k.1)
  row-Acked (some s) r d' f h = elim (if-Ok (holds worker_id s) _ _ r e d d' h) [
    | inl k ↦ clear-Acked s r d' f k.0 k.1
    | inr k ↦
        let q = pure-Ok stale_worker r e d d' k.1 in
        subst (λ (x : AckResult). Acked worker_id token e.now d x d') q.0
          (record { row = s; found = f; not_held = k.0; same = q.1 })
  ]

  find_command-Ok :
      (o : Option Session) (d' : Db)
      → Ok (find_command token) e d o d'
      → (find (has_token token) d.sessions ≡ o) × (d ≡ d')
  unfolding find_command attempt ◌>>=◌
  find_command-Ok o d' h = ground arith

-- An acknowledgement that ends without an error, on all its branches, where the rows that have the
-- token out, if any, are of one session. If no row has it, nothing changes. If the row that has it is held by
-- another worker or by none, nothing changes. Otherwise exactly the rows of that session that have the
-- token lose their command, and no row has the token any longer, so a second acknowledgement is stale;
-- the row is given up, too, and crashed unless it was idle, exactly if the command was to cancel a
-- session with an outcome.
pub process_command_ack-Acked :
    (worker_id token id : String) (e : Env) (d d' : Db) (r : AckResult)
    → OneSession token id d.sessions
    → Ok (process_command_ack_in_tx worker_id token) e d r d'
    → Acked worker_id token e.now d r d'
unfolding process_command_ack_in_tx
process_command_ack-Acked worker_id token id e d d' r one h =
    let b = bind-Ok (find_command token) _ r e d d' h in
    let f = find_command-Ok worker_id token id e d one b.0 b.1 b.2 in
    row-Acked worker_id token id e d one b.0 r d' f.0
      (subst (λ (x : Db). Ok (ack_row worker_id token b.0) e x r d') (sym f.1) b.3)
