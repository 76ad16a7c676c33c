-- ===== src/Base/Stateful.antt =====
-- A function that writes to a state on its way to a result: the result, and the state it leaves.
use mathlib.Core.Path.{◌≡◌, refl, ap, subst, sym, ◌∙◌}
use amcache.Base.Outcome.{Result, ok, err, ok_injective, ok-ne-err, err_injective}
use amcache.Base.Outcome as Outcome

abbrev pub Stateful : Type 0 → Type 0 → Type 0 → Type 0
Stateful S E A = S → Result E A × S

module _ {S E : Type 0} where
  -- A result that leaves the state as it is.
  abbrev pub pure : {A : Type 0} → Result E A → Stateful S E A
  pure r s = (r, s)

  abbrev pub after : {A B : Type 0} → Result E A × S → (A → Stateful S E B) → Result E B × S
  after (ok a, s) f = f a s
  after (err e, s) f = (err e, s)

  infixl 5 ◌>>=◌
  unfoldable pub ◌>>=◌ : {A B : Type 0} → Stateful S E A → (A → Stateful S E B) → Stateful S E B
  (m >>= f) s = after (m s) f

  -- The function gives this result, whatever the state.
  abbrev pub Gives : {A : Type 0} → Stateful S E A → Result E A → Type 0
  Gives m r = (s : S) → (m s).0 ≡ r

  -- The function leads from a state with the property to one with it.
  abbrev pub Keeps : {A : Type 0} → (S → Type 0) → Stateful S E A → Type 0
  Keeps P m = (s : S) → P s → P (m s).1

  -- The function leads to a state with the property from every one.
  abbrev pub Reaches : {A : Type 0} → (S → Type 0) → Stateful S E A → Type 0
  Reaches P m = (s : S) → P (m s).1

module _ {S E A B : Type 0} where
  after_result :
      (o : Result E A × S) (f : A → Stateful S E B) (g : A → Result E B)
      → ((a : A) → Gives (f a) (g a))
      → (after o f).0 ≡ Outcome.◌>>=◌ o.0 g
  after_result (ok a, s) f g h = h a s
  after_result (err e, s) f g h = refl

  after-ok :
      (o : Result E A × S) (f : A → Stateful S E B) (r : Result E B) (a : A)
      → o.0 ≡ ok a
      → Gives (f a) r
      → (after o f).0 ≡ r
  after-ok (ok b, s) f r a h k = ap (λ c. (f c s).0) (ok_injective h) ∙ k s
  after-ok (err e, s) f r a h k = absurd (ok-ne-err a e (sym h))

  -- A chain gives what the chain of the results gives.
  pub >>=-Gives :
      (m : Stateful S E A) (r : Result E A) (f : A → Stateful S E B) (g : A → Result E B)
      → Gives m r
      → ((a : A) → Gives (f a) (g a))
      → Gives (m >>= f) (Outcome.◌>>=◌ r g)
  unfolding ◌>>=◌
  >>=-Gives m r f g h k s = after_result (m s) f g k ∙ ap (λ x. Outcome.◌>>=◌ x g) (h s)

  branch_result :
      (o : Result E A × S) (f : A → Stateful S E B) (g : A → Result E B)
      → ((a : A) → Gives (f a) (g a))
      → (after o f).0 ≡ (elim o.0 [ ok a ↦ g a | err e ↦ err e ])
  branch_result (ok a, s) f g h = h a s
  branch_result (err e, s) f g h = refl

  -- The same with the chain of the results written out.
  pub >>=-Gives_elim :
      (m : Stateful S E A) (r : Result E A) (f : A → Stateful S E B) (g : A → Result E B)
      → Gives m r
      → ((a : A) → Gives (f a) (g a))
      → Gives (m >>= f) (elim r [ ok a ↦ g a | err e ↦ err e ])
  unfolding ◌>>=◌
  >>=-Gives_elim m r f g h k s =
      branch_result (m s) f g k
      ∙ ap (λ (x : Result E A). elim x [ ok a ↦ g a | err e ↦ err e ]) (h s)

  -- A chain whose first function always gives `a`.
  pub >>=-Gives_ok :
      (m : Stateful S E A) (a : A) (f : A → Stateful S E B) (r : Result E B)
      → Gives m (ok a)
      → Gives (f a) r
      → Gives (m >>= f) r
  unfolding ◌>>=◌
  >>=-Gives_ok m a f r h k s = after-ok (m s) f r a (h s) k

  after-err :
      (o : Result E A × S) (f : A → Stateful S E B) (e : E) → o.0 ≡ err e → (after o f).0 ≡ err e
  after-err (ok a, s) f e h = absurd (ok-ne-err a e h)
  after-err (err d, s) f e h = ap err (err_injective h)

  -- A chain whose first function always gives an error.
  pub >>=-Gives_err :
      (m : Stateful S E A) (e : E) (f : A → Stateful S E B)
      → Gives m (err e)
      → Gives (m >>= f) (err e)
  unfolding ◌>>=◌
  >>=-Gives_err m e f h s = after-err (m s) f e (h s)

  after_keeps :
      (P : S → Type 0) (o : Result E A × S) (f : A → Stateful S E B)
      → P o.1
      → ((a : A) → Keeps P (f a))
      → P (after o f).1
  after_keeps P (ok a, s) f h k = k a s h
  after_keeps P (err e, s) f h k = h

  pub >>=-Keeps :
      (P : S → Type 0) (m : Stateful S E A) (f : A → Stateful S E B)
      → Keeps P m
      → ((a : A) → Keeps P (f a))
      → Keeps P (m >>= f)
  unfolding ◌>>=◌
  >>=-Keeps P m f h k s p = after_keeps P (m s) f (h s p) k

  -- What the first function reaches is kept by the rest.
  pub >>=-Reaches_first :
      (P : S → Type 0) (m : Stateful S E A) (f : A → Stateful S E B)
      → Reaches P m
      → ((a : A) → Keeps P (f a))
      → Reaches P (m >>= f)
  unfolding ◌>>=◌
  >>=-Reaches_first P m f h k s = after_keeps P (m s) f (h s) k

  after_reaches :
      (P : S → Type 0) (o : Result E A × S) (a : A) (f : A → Stateful S E B)
      → o.0 ≡ ok a
      → Reaches P (f a)
      → P (after o f).1
  after_reaches P (ok b, s) a f h k = subst (λ c. P (f c s).1) (sym (ok_injective h)) (k s)
  after_reaches P (err e, s) a f h k = absurd (ok-ne-err a e (sym h))

  -- What the rest reaches, where the first function always gives `a`.
  pub >>=-Reaches_next :
      (P : S → Type 0) (m : Stateful S E A) (a : A) (f : A → Stateful S E B)
      → Gives m (ok a)
      → Reaches P (f a)
      → Reaches P (m >>= f)
  unfolding ◌>>=◌
  >>=-Reaches_next P m a f h k s = after_reaches P (m s) a f (h s) k
