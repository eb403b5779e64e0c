-- ===== src/Reconciler/Tree.antt =====
-- The sessions as a tree: who stands below whom, and what the history keeps of it.
use agentbeacon.Transition.Ratchet.{SessionKept}
use agentbeacon.Statements.Work.{is_child_of}
use agentbeacon.Statements.{find_session, session_has_id}
use agentbeacon.Tables.{Session}
use mathlib.Core.Option.{some-injective}
use agentbeacon.Base.{
  sym, List, String, filter_where, All, Bool, Pointwise, find, ℕ, ◌∷◌, ◌≡◌, some, true, Bool-cases,
  false, if_true, subst, ◌<◌, [], inl, str_eq_refl, if_false, inr, str_eq, ◌∙◌, ap, refl,
}

pub data In (c : Session) : List Session → Type 0 where
  here : (ss : List Session) → In c (c ∷ ss)
  there : (s : Session) (ss : List Session) → In c ss → In c (s ∷ ss)

-- The ids are a primary key.
abbrev pub Distinct : List Session → Type 0
Distinct [] = Unit
Distinct (s ∷ ss) = All (λ t. session_has_id t.id s ≡ false) ss × Distinct ss

-- `id` is a child of `top`, or a child's descendant.
pub data Below (ss : List Session) (id : String) : String → Type 0 where
  child :
      (top : String) (c : Session)
      → In c ss
      → is_child_of top c ≡ true
      → c.id ≡ id
      → Below ss id top
  deeper :
      (top p : String) (c : Session)
      → In c ss
      → is_child_of top c ≡ true
      → c.id ≡ p
      → Below ss id p
      → Below ss id top

-- No session is its own ancestor: a child ranks below its parent.
abbrev pub Ranked : (String → ℕ) → List Session → Type 0
Ranked rank ss = (c : Session) (p : String) → In c ss → is_child_of p c ≡ true → rank c.id < rank p

pub In-All : (P : Session → Type 0) (c : Session) (ss : List Session) → All P ss → In c ss → P c
In-All P c [] h i = elim i [ ]
In-All P c (s ∷ ss) h (here _) = h.0
In-All P c (s ∷ ss) h (there _ _ i) = In-All P c ss h.1 i

pub In-find :
    (c : Session) (ss : List Session) → Distinct ss → In c ss → find_session c.id ss ≡ some c
unfolding find_session find
In-find c [] d i = elim i [ ]
In-find c (s ∷ ss) d (here _) = if_true _ (some c) _ (str_eq_refl c.id)
In-find c (s ∷ ss) d (there _ _ i) =
    if_false _ (some s) _ (In-All (λ t. session_has_id t.id s ≡ false) c ss d.0 i)
    ∙ In-find c ss d.1 i

pub find-In :
    (id : String) (ss : List Session) (c : Session) → find_session id ss ≡ some c → In c ss
unfolding find_session find
find-In id [] c h = absurd (cc)
find-In id (s ∷ ss) c h = elim (Bool-cases (session_has_id id s)) [
  | inl hit ↦
      subst (λ (x : Session). In x (s ∷ ss)) (some-injective s c (sym (if_true _ _ _ hit) ∙ h))
        (here ss)
  | inr miss ↦ there s ss (find-In id ss c (sym (if_false _ _ _ miss) ∙ h))
]

In-cons :
    (c s : Session) (xs ss : List Session) (P : Type 0)
    → In c (s ∷ xs)
    → (In c xs → In c ss × P)
    → (c ≡ s → P)
    → In c (s ∷ ss) × P
In-cons c s xs ss P (here _) k h = (here ss, h refl)
In-cons c s xs ss P (there _ _ i) k h = let r = k i in (there s ss r.0, r.1)

pub In-filter_where :
    (p : Session → Bool) (c : Session) (ss : List Session)
    → In c (filter_where p ss)
    → In c ss × (p c ≡ true)
unfolding filter_where
In-filter_where p c [] i = elim i [ ]
In-filter_where p c (s ∷ ss) i = elim (Bool-cases (p s)) [
  | inl hit ↦
      In-cons c s (filter_where p ss) ss (p c ≡ true) (subst (In c) (if_true _ _ _ hit) i)
        (In-filter_where p c ss) (λ e. ap p e ∙ hit)
  | inr miss ↦
      let r = In-filter_where p c ss (subst (In c) (if_false _ _ _ miss) i) in (there s ss r.0, r.1)
]

pub filter_where-In :
    (p : Session → Bool) (c : Session) (ss : List Session)
    → In c ss
    → p c ≡ true
    → In c (filter_where p ss)
unfolding filter_where
filter_where-In p c [] i h = elim i [ ]
filter_where-In p c (s ∷ ss) (here _) h =
    subst (In c) (sym (if_true _ _ _ h)) (here (filter_where p ss))
filter_where-In p c (s ∷ ss) (there _ _ i) h = elim (Bool-cases (p s)) [
  | inl hit ↦ subst (In c) (sym (if_true _ _ _ hit)) (there s _ (filter_where-In p c ss i h))
  | inr miss ↦ subst (In c) (sym (if_false _ _ _ miss)) (filter_where-In p c ss i h)
]

-- A row before, and what has become of it; and the other way.
pub In-after :
    (c : Session) (ss ts : List Session)
    → Pointwise SessionKept ss ts
    → In c ss
    → (t : Session) × In t ts × SessionKept c t
In-after c [] ts h i = elim i [ ]
In-after c (s ∷ ss) (t ∷ ts) h (here _) = (t, here ts, h.0)
In-after c (s ∷ ss) (t ∷ ts) h (there _ _ i) =
    let r = In-after c ss ts h.1 i in (r.0, there t ts r.1, r.2)
In-after c (s ∷ ss) [] h i = absurd h

pub In-before :
    (t : Session) (ss ts : List Session)
    → Pointwise SessionKept ss ts
    → In t ts
    → (c : Session) × In c ss × SessionKept c t
In-before t (s ∷ ss) (u ∷ ts) h (here _) = (s, here ss, h.0)
In-before t (s ∷ ss) (u ∷ ts) h (there _ _ i) =
    let r = In-before t ss ts h.1 i in (r.0, there s ss r.1, r.2)
In-before t [] (u ∷ ts) h i = absurd h
In-before t [] [] h i = elim i [ ]
In-before t (s ∷ ss) [] h i = absurd h

Distinct-row :
    (s t : Session) (ss ts : List Session)
    → t.id ≡ s.id
    → Pointwise SessionKept ss ts
    → All (λ x. session_has_id x.id s ≡ false) ss
    → All (λ x. session_has_id x.id t ≡ false) ts
Distinct-row s t [] [] e h a = tt
Distinct-row s t [] (y ∷ ys) e h a = absurd h
Distinct-row s t (x ∷ xs) [] e h a = absurd h
Distinct-row s t (x ∷ xs) (y ∷ ys) e h a = (
  subst (λ (i : String). str_eq i y.id ≡ false) (sym e)
      (subst (λ (i : String). str_eq s.id i ≡ false) (sym h.0.id) a.0),
  Distinct-row s t xs ys e h.1 a.1,
)

pub Distinct-after :
    (ss ts : List Session) → Pointwise SessionKept ss ts → Distinct ss → Distinct ts
Distinct-after [] [] h d = tt
Distinct-after [] (y ∷ ys) h d = absurd h
Distinct-after (x ∷ xs) [] h d = absurd h
Distinct-after (x ∷ xs) (y ∷ ys) h d =
    (Distinct-row x y xs ys h.0.id h.1 d.0, Distinct-after xs ys h.1 d.1)
