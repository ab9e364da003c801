-- ===== src/Server/Action/Rules.antt =====
-- One rule for each step of a handler: what has to hold before it for how the rest ends.
use go_hauk.Prelude.{if◌then◌else◌, ◌≡◌, refl, sym, subst, Bool, true, false, Option, none, some}
use go_hauk.Server.Action.{
  Action, Outcome, done, reply, ◌>>=◌, ◌>>◌, pure, gets, modify, reply_if, or_reply, of_outcome,
  Ends, ends, replies,
}

module _ {S R A B : Type 0} {E : R → S → Type 0} {Q : B → S → Type 0} where
  pub bind-Ends :
      (m : Action S R A) (f : A → Action S R B) (s : S)
      → Ends E (λ a t. Ends E Q (f a t)) (m s)
      → Ends E Q ((m >>= f) s)
  unfolding ◌>>=◌
  bind-Ends m f s h = go (m s) h
    where
      go :
          (r : Outcome R A × S)
          → Ends E (λ a t. Ends E Q (f a t)) r
          → Ends E Q (elim r.0 [ done a ↦ f a r.1 | reply x ↦ (reply x, r.1) ])
      go _ (ends a t h) = h
      go _ (replies x t h) = replies x t h

  -- A call that does not change the state.
  pub reads-Ends :
      (P : A → Type 0) (m : Action S R A) (f : A → Action S R B) (s : S)
      → Ends (λ _ t. t ≡ s) (λ a t. P a × (t ≡ s)) (m s)
      → ((x : R) → E x s)
      → ((a : A) → P a → Ends E Q (f a s))
      → Ends E Q ((m >>= f) s)
  reads-Ends P m f s h e k = bind-Ends m f s (go (m s) h)
    where
      go :
          (r : Outcome R A × S)
          → Ends (λ _ t. t ≡ s) (λ a t. P a × (t ≡ s)) r
          → Ends E (λ a t. Ends E Q (f a t)) r
      go _ (ends a t p) = ends a t (subst (λ u. Ends E Q (f a u)) (sym p.1) (k a p.0))
      go _ (replies x t p) = replies x t (subst (E x) (sym p) (e x))

  pub gets-Ends :
      (g : S → A) (f : A → Action S R B) (s : S)
      → Ends E Q (f (g s) s)
      → Ends E Q ((gets g >>= f) s)
  unfolding ◌>>=◌ gets
  gets-Ends g f s h = h

  pub or_reply-Ends :
      (o : Option A) (x : R) (f : A → Action S R B) (s : S)
      → E x s
      → ((a : A) → o ≡ some a → Ends E Q (f a s))
      → Ends E Q ((or_reply o x >>= f) s)
  unfolding ◌>>=◌ or_reply
  or_reply-Ends none x f s e h = replies x s e
  or_reply-Ends (some a) x f s e h = h a refl

  -- A value that is there.
  pub given-Ends :
      (a : A) (x : R) (f : A → Action S R B) (s : S)
      → Ends E Q (f a s)
      → Ends E Q ((or_reply (some a) x >>= f) s)
  unfolding ◌>>=◌ or_reply
  given-Ends a x f s h = h

  pub known-Ends :
      (o : Option A) (a : A) (x : R) (f : A → Action S R B) (s : S)
      → o ≡ some a
      → Ends E Q (f a s)
      → Ends E Q ((or_reply o x >>= f) s)
  known-Ends o a x f s e h =
      subst (λ o. Ends E Q ((or_reply o x >>= f) s)) (sym e) (given-Ends a x f s h)

  pub missing-Ends :
      (x : R) (f : A → Action S R B) (s : S) → E x s → Ends E Q ((or_reply none x >>= f) s)
  unfolding ◌>>=◌ or_reply
  missing-Ends x f s e = replies x s e

  pub of_outcome-Ends :
      (o : Outcome R A) (f : A → Action S R B) (s : S)
      → ((x : R) → o ≡ reply x → E x s)
      → ((a : A) → o ≡ done a → Ends E Q (f a s))
      → Ends E Q ((of_outcome o >>= f) s)
  unfolding ◌>>=◌ of_outcome
  of_outcome-Ends (reply x) f s e h = replies x s (e x refl)
  of_outcome-Ends (done a) f s e h = h a refl

module _ {S R B : Type 0} {E : R → S → Type 0} {Q : B → S → Type 0} where
  pub then-Ends :
      {A : Type 0} (m : Action S R A) (k : Action S R B) (s : S)
      → Ends E (λ _ t. Ends E Q (k t)) (m s)
      → Ends E Q ((m >> k) s)
  unfolding ◌>>◌
  then-Ends m k s h = bind-Ends m (λ _. k) s h

  pub met-Ends :
      (x : R) (k : Action S R B) (s : S) → Ends E Q (k s) → Ends E Q ((reply_if false x >> k) s)
  unfolding ◌>>◌ reply_if
  met-Ends x k s h = h

  pub refused-Ends :
      (x : R) (k : Action S R B) (s : S) → E x s → Ends E Q ((reply_if true x >> k) s)
  unfolding ◌>>◌ reply_if
  refused-Ends x k s h = replies x s h

  pub modify-Ends :
      (g : S → S) (k : Action S R B) (s : S) → Ends E Q (k (g s)) → Ends E Q ((modify g >> k) s)
  unfolding ◌>>◌ modify
  modify-Ends g k s h = h

  pub tested-Ends :
      (b : Bool) (x : R) (k : Action S R B) (s : S)
      → (b ≡ true → E x s)
      → (b ≡ false → Ends E Q (k s))
      → Ends E Q ((reply_if b x >> k) s)
  unfolding ◌>>◌ reply_if
  tested-Ends true x k s e h = replies x s (e refl)
  tested-Ends false x k s e h = h refl

  pub reply_if-Ends :
      (b : Bool) (x : R) (k : Action S R B) (s : S)
      → E x s
      → (b ≡ false → Ends E Q (k s))
      → Ends E Q ((reply_if b x >> k) s)
  reply_if-Ends b x k s e h = tested-Ends b x k s (λ _. e) h

  -- One call or another, by a test.
  pub if-Ends :
      (b : Bool) (m n : Action S R B) (s : S)
      → (b ≡ true → Ends E Q (m s))
      → (b ≡ false → Ends E Q (n s))
      → Ends E Q ((if b then m else n) s)
  if-Ends true m n s h k = h refl
  if-Ends false m n s h k = k refl

  pub pure-Ends : (b : B) (s : S) → Q b s → Ends E Q (pure b s)
  unfolding pure
  pure-Ends b s h = ends b s h

-- A property that holds however a call ends holds of its state.
pub Ends-state :
    {S R A : Type 0} {I : S → Type 0} {r : Outcome R A × S} → Ends (λ _. I) (λ _. I) r → I r.1
Ends-state (ends a s h) = h
Ends-state (replies x s h) = h

-- What is known of an end may be weakened.
pub map-Ends :
    {S R A : Type 0} {E G : R → S → Type 0} {P Q : A → S → Type 0} {r : Outcome R A × S}
    → ((x : R) (s : S) → E x s → G x s)
    → ((a : A) (s : S) → P a s → Q a s)
    → Ends E P r
    → Ends G Q r
map-Ends f g (ends a s h) = ends a s (g a s h)
map-Ends f g (replies x s h) = replies x s (f x s h)
