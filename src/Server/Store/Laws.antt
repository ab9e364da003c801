-- ===== src/Server/Store/Laws.antt =====
-- What a key holds after each operation.
use go_hauk.Prelude.{
  ltb, if◌then◌else◌, Text, text_eq, text_eq_iff, lookup, lookup-insert, ℕ, ◌≡◌, false, Option,
  none, some, [], ◌∷◌, arith,
}
use go_hauk.Server.Store.{Entry, Memory, unless_gone, get, put, delete}

module _ {V : Type 0} where
  pub lookup-put :
      (k j : Text) (v : V) (t : ℕ) (m : Memory V)
      → lookup j (put k v t m)
        ≡ (if text_eq k j then some (record { value = v; expire_at = t }) else lookup j m)
  unfolding put
  lookup-put k j v t m = lookup-insert k j (record { value = v; expire_at = t }) m

  pub lookup-delete :
      (k j : Text) (m : Memory V)
      → lookup j (delete k m) ≡ (if text_eq k j then none else lookup j m)
  unfolding lookup delete
  lookup-delete k j [] = ground arith
  lookup-delete k j ((i, e) ∷ m) =
      ground (arith, text_eq_iff k j, text_eq_iff i k, text_eq_iff i j, lookup-delete k j m)

  -- A value that is found is stored, and not gone.
  pub get-some :
      (now : ℕ) (key : Text) (m : Memory V) (v : V)
      → get now key m ≡ some v
      → (t : ℕ) × (lookup key m ≡ some (record { value = v; expire_at = t })) × (ltb t now ≡ false)
  unfolding get
  get-some now key m v e = go (lookup key m) e
    where
      go :
          (o : Option (Entry V))
          → unless_gone now o ≡ some v
          → (t : ℕ) × (o ≡ some (record { value = v; expire_at = t })) × (ltb t now ≡ false)
      go none e = absurd (ground (arith))
      go (some r) e = (r.expire_at, ground (arith), ground (arith))
