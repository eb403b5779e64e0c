-- ===== src/Reconciler/Descendants/Children.antt =====
-- The children that a cascade reads, and its loop over them.
-- Job
use agentbeacon.Reconciler.History.Cascade.{cascade_to-Kept}
use agentbeacon.Reconciler.Descendants.{
  And, Since, Fine, Result, get_session, IsEnded, ok, err, get_session-Ok, find_session-id,
  cascading_to,
}
use agentbeacon.Procedures.Follows.{Follows}
use agentbeacon.Reconciler.History.{guarded}
use agentbeacon.Reconciler.Descendants.Sets.{
  Or, At, Ended, extend, narrow, Given, querying, Ended-stable,
}
use agentbeacon.Procedures.Triples.{Triple, Triple-done, Triple-bind, Triple-given, Triple-weaken}
use agentbeacon.Reconciler.Tree.{Below, In, here, there}
use agentbeacon.Reconciler.Cascade.{cascade_loop, Job, is_live, cascade_to, query, Fault}
use agentbeacon.Tables.{Db, Session}
use agentbeacon.Base.{List, String, ◌∷◌, ◌≡◌, false, inl, ◌⊎◌, inr, subst, sym, [], refl}

abbrev pub Waiting : List Session → String → Type 0
Waiting cs id = (c : Session) × In c cs × (is_live c ≡ false) × (c.id ≡ id)

module _ (d0 : Db) where
  abbrev pub Lower : String → String → Type 0
  Lower top id = Below d0.sessions id top

  -- A session of the list, or below one.
  abbrev pub Reached : List Session → String → Type 0
  Reached cs id = (c : Session) × In c cs × ((c.id ≡ id) ⊎ Lower c.id id)

  -- What the recursive call does.
  abbrev pub Descends : (Session → Job (Unit {0})) → Session → Type 0
  Descends f s = Triple guarded (Since d0) (f s) (Fine d0 (Ended (Lower s.id)))

  rereading :
      (G : String → Type 0) (c : Session)
      → Triple guarded
          (And d0 (Ended G))
          (query (get_session c.id))
          (Given d0 (λ fresh d. And d0 (Ended G) d × (fresh.id ≡ c.id)))
  rereading G c =
      querying d0 (And d0 (Ended G)) (get_session c.id) _ (Ended-stable d0 G) (λ e d d' s h p.
        let r = get_session-Ok e d d' c.id s p in
        (subst (And d0 (Ended G)) r.1 h, find_session-id c.id d.sessions s r.0))

  terminating_child :
      (G : String → Type 0) (x : String) (c : Session)
      → (is_live c ≡ false → G c.id)
      → Triple guarded (And d0 (Ended G)) (cascade_to x c) (Fine d0 (Ended (Or G (At c.id))))
  terminating_child G x c g = extend d0 G (At c.id) (cascade_to x c) (cascade_to-Kept x c) (
      Triple-weaken guarded _ (And d0 (Ended G)) (cascade_to x c) _ _
        (λ d h. (h.0, λ e. h.1 c.id (g e))) (λ r d h. at_child r d h) (cascading_to d0 x c))
    where
      at_child :
          (r : Result Fault (Unit {0})) (d : Db)
          → Fine d0 (IsEnded c.id) r d
          → Fine d0 (Ended (At c.id)) r d
      at_child (ok a) d h = (h.0, λ id e. subst (λ (i : String). IsEnded i d) e h.1)
      at_child (err y) d h = h

  -- One child: it is terminated, read again, and descended to.
  abbrev Child : (String → Type 0) → Session → String → Type 0
  Child G c = Or (Or G (At c.id)) (Lower c.id)

  descending :
      (f : Session → Job (Unit {0})) (G : String → Type 0) (c fresh : Session)
      → ((s : Session) → Follows guarded (f s))
      → Descends f fresh
      → fresh.id ≡ c.id
      → Triple guarded (And d0 (Ended G)) (f fresh) (Fine d0 (Ended (Or G (Lower c.id))))
  descending f G c fresh k t e = extend d0 G (Lower c.id) (f fresh) (k fresh) (
      narrow d0 (Lower fresh.id) (Lower c.id) (Since d0) (And d0 (Ended G)) (f fresh)
        (λ id b. subst (λ (i : String). Below d0.sessions id i) (sym e) b) (λ d h. h.0) t)

  first_then_rest :
      (G : String → Type 0) (c b : Session) (cs : List Session) (id : String)
      → In b (c ∷ cs)
      → (b.id ≡ id) ⊎ Lower b.id id
      → Or (Child G c) (Reached cs) id
  first_then_rest G c b cs id (here _) (inl e) = inl (inl (inr e))
  first_then_rest G c b cs id (here _) (inr l) = inl (inr l)
  first_then_rest G c b cs id (there _ _ i) r = inr (b, i, r)

  gather :
      (G : String → Type 0) (c : Session) (cs : List Session) (id : String)
      → Or G (Reached (c ∷ cs)) id
      → Or (Child G c) (Reached cs) id
  gather G c cs id (inl g) = inl (inl (inl g))
  gather G c cs id (inr (b, i, r)) = first_then_rest G c b cs id i r

  pub looping :
      (f : Session → Job (Unit {0})) (x : String) (cs : List Session) (G : String → Type 0)
      → ((s : Session) → Follows guarded (f s))
      → ((c fresh : Session) → In c cs → fresh.id ≡ c.id → Descends f fresh)
      → ((id : String) → Waiting cs id → G id)
      → Triple guarded
          (And d0 (Ended G))
          (cascade_loop f x cs)
          (Fine d0 (Ended (Or G (Reached cs))))
  unfolding cascade_loop
  looping f x [] G k t g =
      Triple-done guarded _ tt _
        (λ d h. (h.0, λ id i. elim i [ inl y ↦ h.1 id y | inr y ↦ elim y.1 [ ] ]))
  looping f x (c ∷ cs) G k t g =
      Triple-bind guarded _ (cascade_to x c) _ (Fine d0 (Ended (Or G (At c.id)))) _
        (terminating_child G x c (λ e. g c.id (c, here cs, e, refl)))
        (λ u.
          Triple-bind guarded _ (query (get_session c.id)) _
            (Given d0 (λ fresh d. And d0 (Ended (Or G (At c.id))) d × (fresh.id ≡ c.id))) _
            (rereading (Or G (At c.id)) c)
            (λ fresh. Triple-given guarded _ (fresh.id ≡ c.id) _ _ (λ e.
              Triple-bind guarded _ (f fresh) _ (Fine d0 (Ended (Child G c))) _
                (descending f (Or G (At c.id)) c fresh k (t c fresh (here cs) e) e)
                (λ v.
                  narrow d0 _ _ _ _ (cascade_loop f x cs) (gather G c cs) (λ d h. h)
                    (looping f x cs (Child G c) k (λ b r i. t b r (there c cs i))
                      (λ id y. inl (inl (g id (y.0, there c cs y.1, y.2, y.3))))))
                (λ y d h. h)))
            (λ y d h. h))
        (λ y d h. h)
