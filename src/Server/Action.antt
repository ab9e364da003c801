-- ===== src/Server/Action.antt =====
-- A handler of the server: a call that changes a state and may end early with a reply. The state comes
-- back in either case, since what was stored stays stored.
pub mod Rules
use go_hauk.Prelude.{if◌then◌else◌, Bool, Option, none, some}

pub data Outcome (R : Type 0) (A : Type 0) : Type 0 where
  done : A → Outcome R A
  reply : R → Outcome R A

abbrev pub Action : Type 0 → Type 0 → Type 0 → Type 0
Action S R A = S → Outcome R A × S

module _ {S R : Type 0} where
  infixl 5 ◌>>=◌ ◌>>◌
  unfoldable pub ◌>>=◌ : {A B : Type 0} → Action S R A → (A → Action S R B) → Action S R B
  ◌>>=◌ m f s = let (r, t) = m s in elim r [ done a ↦ f a t | reply x ↦ (reply x, t) ]

  unfoldable pub ◌>>◌ : {A B : Type 0} → Action S R A → Action S R B → Action S R B
  unfolding ◌>>=◌
  m >> k = m >>= λ _. k

  unfoldable pub pure : {A : Type 0} → A → Action S R A
  pure a s = (done a, s)

  unfoldable pub gets : {A : Type 0} → (S → A) → Action S R A
  gets f s = (done (f s), s)

  unfoldable pub modify : (S → S) → Action S R (Unit {0})
  modify f s = (done tt, f s)

  -- `if … { …; return }`
  unfoldable pub reply_if : Bool → R → Action S R (Unit {0})
  reply_if b x s = (if b then reply x else done tt, s)

  -- `if err != nil { …; return }`
  unfoldable pub or_reply : {A : Type 0} → Option A → R → Action S R A
  or_reply none x s = (reply x, s)
  or_reply (some a) x s = (done a, s)

  unfoldable pub of_outcome : {A : Type 0} → Outcome R A → Action S R A
  of_outcome o s = (o, s)

  -- How a call ends: with `Q` of the value and the state, or with `E` of the reply and the state.
  pub data Ends {A : Type 0} (E : R → S → Type 0) (Q : A → S → Type 0)
      : Outcome R A × S → Type 0 where
    ends : (a : A) (s : S) → Q a s → Ends E Q (done a, s)
    replies : (x : R) (s : S) → E x s → Ends E Q (reply x, s)
