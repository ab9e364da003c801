-- ===== src/Server/Store/Refined.antt =====
-- The store as a function from keys to values, and the operations on it.
use go_hauk.Prelude.{
  ltb, if◌then◌else◌, Text, text_eq, lookup, ℕ, ◌+◌, ◌≡◌, refl, ap, ◌∙◌, Bool, true, false, Option,
  none, some, List, [], ◌∷◌,
}
use go_hauk.Server.Store.{Entry, Memory, empty, get, put, put_ttl, delete, unless_gone}
use go_hauk.Server.Store.Laws.{lookup-put, lookup-delete}

-- The writes, each at a time.
pub data Write (V : Type 0) : Type 0 where
  set_key : Text → V → ℕ → Write V
  set_key_ttl : ℕ → Text → V → ℕ → Write V
  delete_key : Text → Write V
  clear_all : Write V

-- What the store promises: the last write to a key, until its time has passed.
abbrev pub Promise : Type 0 → Type 0
Promise V = Text → Option (V × ℕ)

module _ {V : Type 0} where
  unfoldable pub write : Write V → Memory V → Memory V
  unfolding put put_ttl delete
  write (set_key key v t) m = put key v t m
  write (set_key_ttl now key v ttl) m = put_ttl now key v ttl m
  write (delete_key key) m = delete key m
  write clear_all m = empty

  unfoldable pub writes : List (Write V) → Memory V → Memory V
  unfolding write
  writes [] m = m
  writes (w ∷ ws) m = writes ws (write w m)

  abbrev update : Text → Option (V × ℕ) → Promise V → Promise V
  update key o p j = if text_eq key j then o else p j

  unfoldable pub promise : Write V → Promise V → Promise V
  promise (set_key key v t) p = update key (some (v, t)) p
  promise (set_key_ttl now key v ttl) p = update key (some (v, now + ttl)) p
  promise (delete_key key) p = update key none p
  promise clear_all p = λ j. none

  unfoldable pub promises : List (Write V) → Promise V → Promise V
  unfolding promise
  promises [] p = p
  promises (w ∷ ws) p = promises ws (promise w p)

  abbrev pub kept : ℕ → Option (V × ℕ) → Option V
  kept now none = none
  kept now (some (v, t)) = if ltb t now then none else some v

  abbrev as_pair : Option (Entry V) → Option (V × ℕ)
  as_pair none = none
  as_pair (some e) = some (e.value, e.expire_at)

  -- The memory does what the promise says.
  abbrev Keeps : Memory V → Promise V → Type 0
  Keeps m p = (j : Text) → as_pair (lookup j m) ≡ p j

  as_pair-if :
      (b : Bool) (o q : Option (Entry V)) (u w : Option (V × ℕ))
      → as_pair o ≡ u
      → as_pair q ≡ w
      → as_pair (if b then o else q) ≡ (if b then u else w)
  as_pair-if true o q u w h k = h
  as_pair-if false o q u w h k = k

  put-Keeps :
      (key : Text) (v : V) (t : ℕ) (m : Memory V) (p : Promise V)
      → Keeps m p
      → Keeps (put key v t m) (update key (some (v, t)) p)
  put-Keeps key v t m p h j =
      ap as_pair (lookup-put key j v t m)
      ∙ as_pair-if (text_eq key j) (some (record { value = v; expire_at = t })) (lookup j m)
          (some (v, t)) (p j) refl (h j)

  write-Keeps :
      (w : Write V) (m : Memory V) (p : Promise V) → Keeps m p → Keeps (write w m) (promise w p)
  unfolding write promise put_ttl lookup
  write-Keeps (set_key key v t) m p h j = put-Keeps key v t m p h j
  write-Keeps (set_key_ttl now key v ttl) m p h j = put-Keeps key v (now + ttl) m p h j
  write-Keeps (delete_key key) m p h j =
      ap as_pair (lookup-delete key j m)
      ∙ as_pair-if (text_eq key j) none (lookup j m) none (p j) refl (h j)
  write-Keeps clear_all m p h j = refl

  writes-Keeps :
      (ws : List (Write V)) (m : Memory V) (p : Promise V)
      → Keeps m p
      → Keeps (writes ws m) (promises ws p)
  unfolding writes promises
  writes-Keeps [] m p h = h
  writes-Keeps (w ∷ ws) m p h = writes-Keeps ws (write w m) (promise w p) (write-Keeps w m p h)

  get-kept : (now : ℕ) (o : Option (Entry V)) → unless_gone now o ≡ kept now (as_pair o)
  get-kept now none = refl
  get-kept now (some e) = refl

  -- After any writes to a new store, `Get` finds at every time what was last written under the key, if
  -- it was not removed since and its time has not passed.
  pub writes-promises :
      (ws : List (Write V)) (now : ℕ) (key : Text)
      → get now key (writes ws empty) ≡ kept now (promises ws (λ j. none) key)
  unfolding get lookup
  writes-promises ws now key =
      get-kept now (lookup key (writes ws empty))
      ∙ ap (kept now) (writes-Keeps ws empty (λ j. none) (λ j. refl) key)
