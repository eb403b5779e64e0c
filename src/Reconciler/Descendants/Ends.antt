-- ===== src/Reconciler/Descendants/Ends.antt =====
-- The whole cascade: it comes to an end, and it has terminated every descendant.
-- Job
use agentbeacon.Transition.Ratchet.{History-refl}
use agentbeacon.Reconciler.History.{Guarded}
use agentbeacon.Procedures.{World, Machine}
use agentbeacon.Statements.Inverse.{attempt-Ok}
use agentbeacon.Reconciler.History.Cascade.{cascade_children-Kept}
use agentbeacon.Tx.Inverse.{gets-Ok}
use agentbeacon.Statements.{attempt}
use agentbeacon.Reconciler.Descendants.Sets.{Ended, Given, narrow, querying}
use agentbeacon.Reconciler.Descendants.Children.{Lower, Waiting, Descends, Reached, looping}
use agentbeacon.Reconciler.Cascade.{
  cascade_children, is_live, query, cascade_loop, Fault, diverged, scheduler,
}
use agentbeacon.Statements.Work.{get_children, is_child_of}
use agentbeacon.Reconciler.Descendants.{
  Since, And, IsCoherent, Triple, guarded, IsEnded, is_terminate, Triple-bind, terminate,
  Since-stable, bind-Ok, Distinct, Fine, Result, err, ok,
}
use agentbeacon.Reconciler.Tree.{
  Ranked, In, In-filter_where, child, In-after, In-before, In-find, filter_where-In, deeper, Below,
  In-All,
}
use agentbeacon.Base.{
  String, ℕ, List, Option, filter_where, ◌<◌, ◌≡◌, arith, false, suc, true, ap, inl, is_some, subst,
  is_none, sym, ◌∙◌, is_some_text, ◌&&◌, inr, not, some, zero, none, refl, All,
}
use agentbeacon.Tables.{Db, Desired, Session, Outcome, run, stop}

module _ (d0 : Db) (rank : String → ℕ) (ranked : Ranked rank d0.sessions) where
  -- What the query for the children of `top` gives.
  record AreChildren (top : String) (cs : List Session) (d : Db) : Type 0 where
    pub waiting : And d0 (Ended (Waiting cs)) d
    pub lower : (c : Session) → In c cs → rank c.id < rank top
    pub reached : (id : String) → Lower d0 top id → Reached d0 cs id

  by_columns :
      (x : Desired) (o : Option Outcome)
      → is_terminate x ≡ is_some o
      → is_none o && not (is_terminate x) ≡ false
      → x ≡ terminate
  by_columns terminate o h l = refl
  by_columns run none h l = absurd (cc)
  by_columns stop none h l = absurd (cc)
  by_columns run (some o) h l = absurd (cc)
  by_columns stop (some o) h l = absurd (cc)

  not_live : (c : Session) → IsCoherent c → is_live c ≡ false → c.desired ≡ terminate
  not_live c h l = by_columns c.desired c.outcome h.outcome_when_terminated l

  child_In :
      (top : String) (d : Db) (c : Session)
      → Since d0 d
      → In c d0.sessions
      → is_child_of top c ≡ true
      → (t : Session) × In t (filter_where (is_child_of top) d.sessions) × (t.id ≡ c.id)
  child_In top d c h i p =
      let r = In-after c d0.sessions d.sessions h.history.sessions i in
      (
        r.0,
        filter_where-In (is_child_of top) r.0 d.sessions r.1 (
            subst (λ (q : Option String). is_some_text q top ≡ true) (sym r.2.parent_session_id) p),
        r.2.id,
      )

  reaching :
      (top id : String) (d : Db)
      → Since d0 d
      → Lower d0 top id
      → Reached d0 (filter_where (is_child_of top) d.sessions) id
  reaching top id d h (child _ c i p e) =
      let r = child_In top d c h i p in (r.0, r.1, inl (r.2 ∙ e))
  reaching top id d h (deeper _ q c i p e b) =
      let r = child_In top d c h i p in
      (r.0, r.1, inr (subst (λ (x : String). Below d0.sessions id x) (sym (r.2 ∙ e)) b))

  ranking :
      (top : String) (d : Db) (c : Session)
      → Since d0 d
      → In c (filter_where (is_child_of top) d.sessions)
      → rank c.id < rank top
  ranking top d c h i =
      let j = In-filter_where (is_child_of top) c d.sessions i in
      let r = In-before c d0.sessions d.sessions h.history.sessions j.0 in
      subst (λ (x : String). rank x < rank top) (sym r.2.id)
        (ranked r.0 top r.1
          (subst (λ (q : Option String). is_some_text q top ≡ true) r.2.parent_session_id j.1))

  IsEnded-before :
      (top id : String) (d : Db)
      → Since d0 d
      → Waiting (filter_where (is_child_of top) d.sessions) id
      → IsEnded id d
  IsEnded-before top id d h y =
      let i = (In-filter_where (is_child_of top) y.0 d.sessions y.1).0 in
      subst (λ (x : String). IsEnded x d) y.3
        (record {
          row = y.0;
          found = In-find y.0 d.sessions h.distinct i;
          desired = not_live y.0 (In-All IsCoherent y.0 d.sessions h.coherent i) y.2;
        })

  are_children :
      (top : String) (d : Db)
      → Since d0 d
      → AreChildren top (filter_where (is_child_of top) d.sessions) d
  are_children top d h = record {
    waiting = (h, λ id y. IsEnded-before top id d h y);
    lower = λ c i. ranking top d c h i;
    reached = λ id l. reaching top id d h l;
  }

  finding :
      (top : String)
      → Triple guarded (Since d0) (query (get_children top)) (Given d0 (AreChildren top))
  unfolding get_children
  finding top =
      querying d0 (Since d0) (get_children top) (AreChildren top) (Since-stable d0)
        (λ e d d' cs h p.
          let a = bind-Ok (attempt "get children failed") _ cs e d d' p in
          let g = gets-Ok (λ x. filter_where (is_child_of top) x.sessions) cs e a.1 d' a.3 in
          let same = attempt-Ok e d a.1 "get children failed" a.0 a.2 ∙ g.1 in
          subst (λ (ss : List Session). AreChildren top ss d')
            (ap (λ (x : Db). filter_where (is_child_of top) x.sessions) (sym g.1) ∙ g.0)
            (are_children top d' (subst (Since d0) same h)))

  less :
      (s c fresh : Session) (fuel : ℕ)
      → rank c.id < rank s.id
      → fresh.id ≡ c.id
      → rank s.id < suc fuel
      → rank fresh.id < fuel
  less s c fresh fuel k e l = let q = ap rank e in omega arith

  pub descends : (fuel : ℕ) (s : Session) → rank s.id < fuel → Descends d0 (cascade_children fuel) s
  unfolding cascade_children
  descends zero s l = absurd (omega arith)
  descends (suc fuel) s l =
      Triple-bind guarded (Since d0) (query (get_children s.id)) _ (Given d0 (AreChildren s.id)) _
        (finding s.id)
        (λ cs. record {
          at = λ w m o h.
              (narrow d0 _ (Lower d0 s.id) (And d0 (Ended (Waiting cs)))
                  (And d0 (Ended (Waiting cs)))
                  (cascade_loop (cascade_children fuel) s.execution_id cs)
                  (λ id b. inr (h.reached id b)) (λ d k. k)
                  (looping d0 (cascade_children fuel) s.execution_id cs (Waiting cs)
                    (cascade_children-Kept fuel)
                    (λ c fresh i e. descends fuel fresh (less s c fresh fuel (h.lower c i) e l))
                    (λ id y. y))).at
                w m o h.waiting;
        })
        (λ y d h. h)

module _ (rank : String → ℕ) (fuel : ℕ) (s : Session) (w : World) (m : Machine)
    (coherent : All IsCoherent m.db.sessions) (distinct : Distinct m.db.sessions)
    (ranked : Ranked rank m.db.sessions) (enough : rank s.id < fuel)
    (others : (n : ℕ) (d : Db) → Guarded d (w.others n d)) where
  outcome :
      Fine m.db
        (Ended (Lower m.db s.id))
        (cascade_children fuel s w m).0
        (cascade_children fuel s w m).1.db
  outcome =
      (descends m.db rank ranked fuel s enough).at w m others
        (record { coherent = coherent; distinct = distinct; history = History-refl m.db })

  no_fault :
      (r : Result Fault (Unit {0})) (d : Db)
      → Fine m.db (Ended (Lower m.db s.id)) r d
      → ¬ (r ≡ err diverged)
  no_fault (ok a) d h e = absurd (cc)
  no_fault (err (scheduler x)) d h e = absurd (cc)
  no_fault (err diverged) d h e = h refl

  if_fine :
      (r : Result Fault (Unit {0})) (d : Db) (id : String)
      → Fine m.db (Ended (Lower m.db s.id)) r d
      → r ≡ ok tt
      → Below m.db.sessions id s.id
      → IsEnded id d
  if_fine (ok a) d id h e b = h.1 id b
  if_fine (err x) d id h e b = absurd (cc)

  -- A cascade comes to an end by itself. Where the ids are distinct and the columns of the sessions
  -- agree, no session is its own ancestor, and the other transactions keep the history, the fuel is
  -- enough as soon as it exceeds the rank of the session: the result is never `diverged`.
  pub cascade_children-ends : ¬ ((cascade_children fuel s w m).0 ≡ err diverged)
  cascade_children-ends = no_fault _ _ outcome

  -- A cascade that succeeds has terminated every descendant that the session had at its start, the
  -- children of sessions that were terminated before included, whatever the other transactions do
  -- that keep the history, where the ids are distinct, the columns of the sessions agree, no session
  -- is its own ancestor, and the fuel exceeds the rank of the session.
  pub cascade_children-Ended :
      (cascade_children fuel s w m).0 ≡ ok tt
      → (id : String) → Below m.db.sessions id s.id
      → IsEnded id (cascade_children fuel s w m).1.db
  cascade_children-Ended h id b = if_fine _ _ id outcome h b
