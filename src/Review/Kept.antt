-- ===== src/Review/Kept.antt =====
-- Actions all of whose runs, failing ones included, stay within a relation of states.
use decision_center.Base.{Bool, true, false, List, [], ◌∷◌}
use decision_center.Review.Store.{
  World, Exec, Exc, Outcome, done, raised, pure, throw, attempt, ◌>>=◌, external, gets, next_fault,
  resume,
}

-- A reflexive and transitive relation that does not look at the faults to come.
pub record StateRelation : Type 1 where
  pub Rel : World → World → Type 0
  pub at_rest : (w : World) → Rel w w
  pub then_rel : (u v w : World) → Rel u v → Rel v w → Rel u w
  pub spends : (w : World) (faults : List Bool) → Rel w (record w { faults = faults })

pub record Keeps (r : StateRelation) {A : Type 0} (m : Exec A) : Type 0 where
  pub from : (w : World) → r.Rel w (m w).1

module _ (r : StateRelation) {A : Type 0} where
  pub Keeps-pure : (a : A) → Keeps r (pure a)
  unfolding pure
  Keeps-pure a = record { from = λ w. r.at_rest w }

  pub Keeps-throw : (e : Exc) → Keeps r (throw {A = A} e)
  unfolding throw
  Keeps-throw e = record { from = λ w. r.at_rest w }

  pub Keeps-gets : (f : World → A) → Keeps r (gets f)
  unfolding gets
  Keeps-gets f = record { from = λ w. r.at_rest w }

  pub Keeps-attempt : (m : Exec A) → Keeps r m → Keeps r (attempt m)
  unfolding attempt
  Keeps-attempt m k = record { from = λ w. k.from w }

module _ (r : StateRelation) where
  next_fault-rel : (faults : List Bool) (w : World) → r.Rel w (next_fault faults w).1
  next_fault-rel [] w = r.at_rest w
  next_fault-rel (true ∷ rest) w = r.spends w rest
  next_fault-rel (false ∷ rest) w = r.spends w rest

  pub Keeps-external : Keeps r external
  unfolding external
  Keeps-external = record { from = λ w. next_fault-rel w.faults w }

module _ (r : StateRelation) {A B : Type 0} where
  resumed :
      (f : A → Exec B)
      → ((a : A) → Keeps r (f a))
      → (w v : World) (o : Outcome A) → r.Rel w v
      → r.Rel w (resume o f v).1
  resumed f k w v (done a) h = r.then_rel w v (f a v).1 h ((k a).from v)
  resumed f k w v (raised e) h = h

  pub Keeps-bind :
      (m : Exec A) (f : A → Exec B) → Keeps r m → ((a : A) → Keeps r (f a)) → Keeps r (m >>= f)
  unfolding ◌>>=◌
  Keeps-bind m f km kf = record { from = λ w. resumed f kf w (m w).1 (m w).0 (km.from w) }
