-- ===== src/Db/Ensures.antt =====
-- What a run of statements leaves behind: nothing of it is committed, and if it returns, a
-- condition holds of the result and the session.
use adaptive_financial_os.Common.{
  ℕ, ◌+◌, ◌≡◌, ◌∙◌, refl, sym, ap, subst, Bool, true, false, Option, none, some, List, [], ◌++◌,
}
use adaptive_financial_os.Db.{Database, SqlResult, done, raised, balanced_entries}
use adaptive_financial_os.Db.Session.{
  commit_if, query, rollback, commit, Fault, refuse, lose_answer, Faults, Session, Outcome, value,
  throw, Action, pure, ◌>>=◌, under, statement, begin, ended, opened,
}

abbrev pub Ensures : {A : Type 0} → Database → (A → Session → Type 0) → Outcome A × Session → Type 0
Ensures c Q (value a, s) = (s.committed ≡ c) × Q a s
Ensures c Q (throw e, s) = s.committed ≡ c

module _ {A B : Type 0} (c : Database) (Q : A → Session → Type 0) (R : B → Session → Type 0) where
  Ensures-continue :
      (f : A → Action B) (r : Outcome A × Session)
      → Ensures c Q r
      → ((a : A) (s : Session) → s.committed ≡ c → Q a s → Ensures c R (f a s))
      → Ensures c R (elim r.0 [ value a ↦ f a r.1 | throw e ↦ (throw e, r.1) ])
  Ensures-continue f (value a, s) h k = k a s h.0 h.1
  Ensures-continue f (throw e, s) h k = h

  pub Ensures-bind :
      (m : Action A) (f : A → Action B) (s : Session)
      → Ensures c Q (m s)
      → ((a : A) (s' : Session) → s'.committed ≡ c → Q a s' → Ensures c R (f a s'))
      → Ensures c R ((m >>= f) s)
  Ensures-bind m f s h k = Ensures-continue f (m s) h k

-- What the condition says after a statement that was run on `s`.
abbrev pub Ran : {A : Type 0} → SqlResult (A × Database × List ℕ) → Session → A → Session → Type 0
Ran r s a s' = (ids : List ℕ) × (r ≡ done (a, s'.work, ids)) × (s'.touched ≡ s.touched ++ ids)

module _ {A : Type 0} where
  Ensures-under :
      (o : Option Fault) (r : SqlResult (A × Database × List ℕ)) (s : Session)
      → Ensures s.committed (Ran r s) (under o r s)
  Ensures-under none (done (a, db, ids)) s = (refl, (ids, refl, refl))
  Ensures-under none (raised e) s = refl
  Ensures-under (some (refuse e)) r s = refl
  Ensures-under (some (lose_answer e)) (done (a, db, ids)) s = refl
  Ensures-under (some (lose_answer e)) (raised f) s = refl

  pub Ensures-statement :
      (faults : Faults) (f : Database → SqlResult (A × Database × List ℕ)) (s : Session)
      (c : Database)
      → s.committed ≡ c
      → Ensures c (Ran (f s.work) s) (statement faults f s)
  unfolding statement
  Ensures-statement faults f s c e =
      subst (λ d. Ensures d (Ran (f s.work) s) (under (faults s.count) (f s.work) s)) e
        (Ensures-under (faults s.count) (f s.work) s)

pub Ensures-weaken :
    {A : Type 0} (c : Database) (Q R : A → Session → Type 0) (r : Outcome A × Session)
    → Ensures c Q r
    → ((a : A) (s : Session) → Q a s → R a s)
    → Ensures c R r
Ensures-weaken c Q R (value a, s) h k = (h.0, k a s h.1)
Ensures-weaken c Q R (throw e, s) h k = h

-- What a whole transaction leaves committed: `V` if it returns, and `T` if it throws.
abbrev pub Ends :
    {A : Type 0} → (A → Database → Type 0) → (Database → Type 0) → Outcome A × Session → Type 0
Ends V T (value a, s) = V a s.committed
Ends V T (throw e, s) = T s.committed

module _ {A B : Type 0} (c : Database) (Q : A → Session → Type 0) (V : B → Database → Type 0)
    (T : Database → Type 0) (kept : T c) where
  Ends-continue :
      (f : A → Action B) (r : Outcome A × Session)
      → Ensures c Q r
      → ((a : A) (s : Session) → s.committed ≡ c → Q a s → Ends V T (f a s))
      → Ends V T (elim r.0 [ value a ↦ f a r.1 | throw e ↦ (throw e, r.1) ])
  Ends-continue f (value a, s) h k = k a s h.0 h.1
  Ends-continue f (throw e, s) h k = subst T (sym h) kept

  pub Ends-bind :
      (m : Action A) (f : A → Action B) (s : Session)
      → Ensures c Q (m s)
      → ((a : A) (s' : Session) → s'.committed ≡ c → Q a s' → Ends V T (f a s'))
      → Ends V T ((m >>= f) s)
  Ends-bind m f s h k = Ends-continue f (m s) h k

-- The transaction is open and nothing has been done in it.
abbrev pub IsFresh : Database → Session → Type 0
IsFresh c s = (s.work ≡ c) × (s.touched ≡ [])

Ensures-opened :
    (c : Database) (o : Option Fault) (s : Session)
    → s.committed ≡ c
    → Ensures c (λ _ s'. IsFresh c s') (ended o (opened s) (record s { count = s.count + 1 }))
Ensures-opened c none s e = (e, (e, refl))
Ensures-opened c (some (refuse x)) s e = e
Ensures-opened c (some (lose_answer x)) s e = e

pub Ensures-begin :
    (faults : Faults) (s : Session) (c : Database)
    → s.committed ≡ c
    → Ensures c (λ _ s'. IsFresh c s') (begin faults s)
unfolding begin
Ensures-begin faults s c e = Ensures-opened c (faults s.count) s e

pub Ensures-rollback :
    (faults : Faults) (s : Session) (c : Database)
    → s.committed ≡ c
    → Ensures c (λ _ s'. IsFresh c s') (rollback faults s)
unfolding rollback
Ensures-rollback faults s c e = Ensures-opened c (faults s.count) s e

rollback-committed_by :
    (o : Option Fault) (s : Session)
    → (ended o (opened s) (record s { count = s.count + 1 })).1.committed ≡ s.committed
rollback-committed_by none s = refl
rollback-committed_by (some (refuse e)) s = refl
rollback-committed_by (some (lose_answer e)) s = refl

pub rollback-committed :
    (faults : Faults) (s : Session) → (rollback faults s).1.committed ≡ s.committed
unfolding rollback
rollback-committed faults s = rollback-committed_by (faults s.count) s

Ensures-answered :
    {A : Type 0} (o : Option Fault) (a : A) (s : Session)
    → Ensures s.committed (λ b s'. b ≡ a) (under o (done (a, s.work, [])) s)
Ensures-answered none a s = (refl, refl)
Ensures-answered (some (refuse e)) a s = refl
Ensures-answered (some (lose_answer e)) a s = refl

pub Ensures-query :
    {A : Type 0} (faults : Faults) (f : Database → A) (s : Session) (c : Database)
    → s.committed ≡ c
    → Ensures c (λ a s'. a ≡ f c) (query faults f s)
unfolding query
Ensures-query faults f s c e =
    subst
      (λ d.
        Ensures d (λ a s'. a ≡ f d) (under (faults s.count) (done (f s.committed, s.work, [])) s))
      e (Ensures-answered (faults s.count) (f s.committed) s)

-- A commit with no trigger to pass: all of the work is committed, or nothing and the caller hears
-- of it, or all of it and the caller does not.
commit_if-Ends :
    {B : Type 0} (V : B → Database → Type 0) (T : Database → Type 0) (b : B) (o : Option Fault)
    (s : Session)
    → V b s.work
    → T s.work
    → T s.committed
    → Ends V T (elim (commit_if true o s).0 [
      | value a ↦ (value b, (commit_if true o s).1)
      | throw e ↦ (throw e, (commit_if true o s).1)
    ])
commit_if-Ends V T b none s v t k = v
commit_if-Ends V T b (some (refuse e)) s v t k = k
commit_if-Ends V T b (some (lose_answer e)) s v t k = t

commit_if-Ends-true :
    {B : Type 0} (V : B → Database → Type 0) (T : Database → Type 0) (b : B) (o : Option Fault)
    (s : Session) (passes : Bool)
    → passes ≡ true
    → V b s.work
    → T s.work
    → T s.committed
    → Ends V T (elim (commit_if passes o s).0 [
      | value a ↦ (value b, (commit_if passes o s).1)
      | throw e ↦ (throw e, (commit_if passes o s).1)
    ])
commit_if-Ends-true V T b o s true p v t k = commit_if-Ends V T b o s v t k
commit_if-Ends-true V T b o s false p v t k = cc

pub commit-Ends :
    {B : Type 0} (faults : Faults) (V : B → Database → Type 0) (T : Database → Type 0) (b : B)
    (s : Session)
    → s.touched ≡ []
    → V b s.work
    → T s.work
    → T s.committed
    → Ends V T ((commit faults >>= λ _. pure b) s)
unfolding commit
commit-Ends faults V T b s e v t k =
    commit_if-Ends-true V T b (faults s.count) s (balanced_entries s.touched s.work.lines)
      (ap (λ ids. balanced_entries ids s.work.lines) e) v t k

-- A chain whose first action returns goes on with what it returned.
pub bind-value :
    {X Y : Type 0} (act : Action X) (next : X → Action Y) (s s' : Session) (x : X)
    → act s ≡ (value x, s')
    → (act >>= next) s ≡ next x s'
bind-value act next s s' x e =
    ap (λ p. elim p.0 [ value y ↦ next y p.1 | throw t ↦ (throw t, p.1) ]) e

-- The action returns.
abbrev pub Returns : {A : Type 0} → Outcome A × Session → Type 0
Returns {A} r = (a : A) × (s : Session) × (r ≡ (value a, s))

pub Returns-bind :
    {X Y : Type 0} (act : Action X) (next : X → Action Y) (s s' : Session) (x : X)
    → act s ≡ (value x, s')
    → Returns (next x s')
    → Returns ((act >>= next) s)
Returns-bind act next s s' x e (y, t, h) = (y, t, bind-value act next s s' x e ∙ h)
