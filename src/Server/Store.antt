-- ===== src/Server/Store.antt =====
-- The store of store/memory.go: values by key, each with the time from which on it is gone. Values stand
-- for the JSON that is kept of them, and times are in nanoseconds.
pub mod Laws
pub mod Refined
mod Tests
use go_hauk.Prelude.{
  ltb, if◌then◌else◌, Text, text_eq, Dict, lookup, insert, ℕ, ◌+◌, Bool, true, false, Option, none,
  some, [], ◌∷◌,
}

pub record Entry (V : Type 0) : Type 0 where
  pub value : V
  pub expire_at : ℕ

abbrev pub Memory : Type 0 → Type 0
Memory V = Dict (Entry V)

module _ {V : Type 0} where
  -- `time.Now().After(e.expireAt)`; no time that is set here is the zero time.
  abbrev pub is_gone : ℕ → Entry V → Bool
  is_gone now e = ltb e.expire_at now

  abbrev pub unless_gone : ℕ → Option (Entry V) → Option V
  unless_gone now none = none
  unless_gone now (some e) = if is_gone now e then none else some e.value

  -- `NewMemory`, and `Clear`
  abbrev pub empty : Memory V
  empty = []

  -- `Get`; `none` is `ErrNotFound`.
  unfoldable pub get : ℕ → Text → Memory V → Option V
  get now key m = unless_gone now (lookup key m)

  -- `Set`, for a value that has a JSON.
  unfoldable pub put : Text → V → ℕ → Memory V → Memory V
  put key v expire_at m = insert key (record { value = v; expire_at = expire_at }) m

  -- `SetTTL` at the time `now`.
  unfoldable pub put_ttl : ℕ → Text → V → ℕ → Memory V → Memory V
  unfolding put
  put_ttl now key v ttl m = put key v (now + ttl) m

  -- `delete(m.data, key)`
  unfoldable pub delete : Text → Memory V → Memory V
  delete key [] = []
  delete key ((k, e) ∷ m) = let rest = delete key m in if text_eq k key then rest else (k, e) ∷ rest

  abbrev is_some : Option V → Bool
  is_some none = false
  is_some (some v) = true

  -- `Exists`
  unfoldable pub is_stored : ℕ → Text → Memory V → Bool
  unfolding get
  is_stored now key m = is_some (get now key m)
