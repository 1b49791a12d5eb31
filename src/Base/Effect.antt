-- ===== src/Base/Effect.antt =====
-- Code that changes a state and may raise: the state comes back after a raise too.
use mathlib.Core.Path.{◌≡◌, refl, ap}

pub data Result (E A : Type 0) : Type 0 where
  done : A → Result E A
  raised : E → Result E A

abbrev value_or : {E A : Type 0} → A → Result E A → A
value_or d (done a) = a
value_or d (raised e) = d

pub done-injective : {E A : Type 0} {a b : A} → Path (Result E A) (done a) (done b) → a ≡ b
done-injective {a} h = ap (value_or a) h

abbrev pub Effect : Type 0 → Type 0 → Type 0 → Type 0
Effect S E A = S → Result E A × S

module _ {S E A : Type 0} where
  unfoldable pub pure : A → Effect S E A
  pure a w = (done a, w)

  unfoldable pub throw : E → Effect S E A
  throw e w = (raised e, w)

  unfoldable pub gets : (S → A) → Effect S E A
  gets f w = (done (f w), w)

  -- try: ... except Exception: the outcome is handed on as a value
  unfoldable pub attempt : Effect S E A → Effect S E (Result E A)
  attempt m w = let (r, v) = m w in (done r, v)

  abbrev pub or_handle : (E → Effect S E A) → Result E A → S → Result E A × S
  or_handle handler (done a) v = (done a, v)
  or_handle handler (raised e) v = handler e v

  -- try: ... except ... as e: handler
  unfoldable pub try_except : Effect S E A → (E → Effect S E A) → Effect S E A
  try_except m handler w = let (r, v) = m w in or_handle handler r v

module _ {S E : Type 0} where
  unfoldable pub modify : (S → S) → Effect S E Unit
  modify f w = (done tt, f w)

module _ {S E A B : Type 0} where
  abbrev pub resume : Result E A → (A → Effect S E B) → Effect S E B
  resume (done a) f v = f a v
  resume (raised e) f v = (raised e, v)

  infixl 10 ◌>>=◌ ◌>>◌
  unfoldable pub ◌>>=◌ : Effect S E A → (A → Effect S E B) → Effect S E B
  ◌>>=◌ m f w = let (r, v) = m w in resume r f v

  abbrev pub ◌>>◌ : Effect S E A → Effect S E B → Effect S E B
  m >> n = m >>= λ _. n

-- Where the code returns, the postcondition holds of its value and of the state it leaves.
abbrev pub Returns : {S E A : Type 0} → Effect S E A → S → (A → S → Type 0) → Type 0
Returns {A} m w post = (a : A) → (m w).0 ≡ done a → post a (m w).1

module _ {S E A B : Type 0} where
  resume-Returns :
      (r : Result E A) (f : A → Effect S E B) (v : S) (mid : A → S → Type 0) (post : B → S → Type 0)
      → ((a : A) → r ≡ done a → mid a v)
      → ((a : A) (u : S) → mid a u → Returns (f a) u post)
      → (b : B) → (resume r f v).0 ≡ done b
      → post b (resume r f v).1
  resume-Returns (done a) f v mid post k kf b h = kf a v (k a refl) b h
  resume-Returns (raised e) f v mid post k kf b h = cc

  pub bind-Returns :
      (m : Effect S E A) (f : A → Effect S E B) (w : S) (mid : A → S → Type 0)
      (post : B → S → Type 0)
      → Returns m w mid
      → ((a : A) (u : S) → mid a u → Returns (f a) u post)
      → Returns (m >>= f) w post
  unfolding ◌>>=◌
  bind-Returns m f w mid post k kf b h = resume-Returns (m w).0 f (m w).1 mid post k kf b h

-- Code under which a property of the state stays, whatever comes of the code.
abbrev pub Stays : {S E A : Type 0} → (S → Type 0) → Effect S E A → Type 0
Stays {S} P m = (w : S) → P w → P (m w).1

module _ {S E : Type 0} (P : S → Type 0) where
  resume-Stays :
      {A B : Type 0} (r : Result E A) (f : A → Effect S E B) (w : S)
      → ((a : A) → Stays P (f a))
      → P w
      → P (resume r f w).1
  resume-Stays (done a) f w k h = k a w h
  resume-Stays (raised e) f w k h = h

  pub bind-Stays :
      {A B : Type 0} (m : Effect S E A) (f : A → Effect S E B)
      → Stays P m
      → ((a : A) → Stays P (f a))
      → Stays P (m >>= f)
  unfolding ◌>>=◌
  bind-Stays m f k kf w h = resume-Stays (m w).0 f (m w).1 kf (k w h)

  or_handle-Stays :
      {A : Type 0} (handler : E → Effect S E A) (r : Result E A) (w : S)
      → ((e : E) → Stays P (handler e))
      → P w
      → P (or_handle handler r w).1
  or_handle-Stays handler (done a) w k h = h
  or_handle-Stays handler (raised e) w k h = k e w h

  pub try-Stays :
      {A : Type 0} (m : Effect S E A) (handler : E → Effect S E A)
      → Stays P m
      → ((e : E) → Stays P (handler e))
      → Stays P (try_except m handler)
  unfolding try_except
  try-Stays m handler k kh w h = or_handle-Stays handler (m w).0 (m w).1 kh (k w h)
