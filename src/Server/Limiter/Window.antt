-- ===== src/Server/Limiter/Window.antt =====
-- How many requests of one key a window lets through.
use mathlib.Core.Option.{some-injective}
use go_hauk.Prelude.{
  ltb, leb, if◌then◌else◌, Bool-cases, length, Text, text_eq, text_eq_iff, Dict, lookup,
  lookup-insert, ℕ, suc, ◌-◌, ◌*◌, ◌≤◌, ◌<◌, ◌≡◌, refl, inl, inr, Bool, true, false, ◌&&◌, ◌||◌,
  Option, none, some, List, [], ◌∷◌, arith,
}
use go_hauk.Server.Limiter.{
  Entry, Limiter, max_entries, is_over, sweep, clean_up, by_entry, start_window, allow,
}

-- Requests in their order: the time and the key.
abbrev pub Requests : Type 0
Requests = List (ℕ × Text)

abbrev add_if : Bool → ℕ → ℕ
add_if b n = if b then suc n else n

-- How many requests of the key are let through.
unfoldable pub admitted : Text → Requests → Limiter → ℕ
admitted key [] l = 0
admitted key ((now, k) ∷ rs) l =
    let (m, ok) = allow now k l in add_if (text_eq k key && ok) (admitted key rs m)

-- How many requests there are of the key.
unfoldable pub requested : Text → Requests → ℕ
requested key [] = 0
requested key ((now, k) ∷ rs) = add_if (text_eq k key) (requested key rs)

abbrev pub lesser : ℕ → ℕ → ℕ
lesser a b = if leb a b then a else b

-- All come at a time or before.
abbrev pub Within : ℕ → Requests → Type 0
Within end [] = Unit
Within end ((now, k) ∷ rs) = (now ≤ end) × Within end rs

lookup-sweep :
    (now : ℕ) (key : Text) (e : Entry) (d : Dict Entry)
    → now ≤ e.reset_at
    → lookup key d ≡ some e
    → lookup key (sweep now d) ≡ some e
unfolding lookup sweep
lookup-sweep now key e [] h found = cc
lookup-sweep now key e ((k, f) ∷ d) h found = elim (Bool-cases (text_eq k key)) [
  | inl same ↦
      let it : f ≡ e = some-injective _ _ (rw same at found) in
      let stays : is_over now f ≡ false = rw it (ground arith) in rw (stays, same, it) refl
  | inr other ↦ elim (Bool-cases (is_over now f)) [
    | inl over ↦ rw over (lookup-sweep now key e d h (rw other at found))
    | inr stays ↦ rw (stays, other) (lookup-sweep now key e d h (rw other at found))
  ]
]

-- A limiter that is on, with an entry of the key.
pub record Holds (key : Text) (e : Entry) (limit : ℕ) (l : Limiter) : Type 0 where
  pub on : 1 ≤ limit
  pub same : l.limit ≡ limit
  pub entry : lookup key l.entries ≡ some e

module _ (key : Text) (limit : ℕ) where
  clean_up-Holds :
      (now : ℕ) (e : Entry) (l : Limiter)
      → now ≤ e.reset_at
      → Holds key e limit l
      → Holds key e limit (clean_up now l)
  unfolding clean_up
  clean_up-Holds now e l h k =
      elim (Bool-cases
        (ltb (l.window * 2) (now - l.last_sweep) || leb max_entries (length l.entries))) [
          | inl due ↦ rw due (record {
            on = k.on;
            same = k.same;
            entry = lookup-sweep now key e l.entries h k.entry;
          })
          | inr fresh ↦ rw fresh k
        ]

  start_window-Holds :
      (now : ℕ) (k : Text) (e : Entry) (l : Limiter)
      → text_eq k key ≡ false
      → Holds key e limit l
      → Holds key e limit (start_window now k l).0
  start_window-Holds now k e l other h = elim (Bool-cases (leb max_entries (length l.entries))) [
    | inl full ↦ rw full h
    | inr room ↦ rw room (record {
      on = h.on;
      same = h.same;
      entry = rw (lookup-insert k key _ l.entries, other) h.entry;
    })
  ]

  by_entry-Holds :
      (now : ℕ) (k : Text) (o : Option Entry) (e : Entry) (l : Limiter)
      → text_eq k key ≡ false
      → Holds key e limit l
      → Holds key e limit (by_entry now k o l).0
  by_entry-Holds now k none e l other h = start_window-Holds now k e l other h
  by_entry-Holds now k (some f) e l other h = elim (Bool-cases (is_over now f)) [
    | inl over ↦ rw over (start_window-Holds now k e l other h)
    | inr running ↦ elim (Bool-cases (leb l.limit f.count)) [
      | inl full ↦ rw (running, full) h
      | inr room ↦
          rw (running, room)
            (record {
              on = h.on;
              same = h.same;
              entry = rw (lookup-insert k key _ l.entries, other) h.entry;
            })
    ]
  ]

  is_on : (e : Entry) (l : Limiter) → Holds key e limit l → leb l.limit 0 ≡ false
  is_on e l h = rw h.same (ground (arith, h.on))

  -- A request of another key leaves the entry alone.
  allow-other :
      (now : ℕ) (k : Text) (e : Entry) (l : Limiter)
      → now ≤ e.reset_at
      → text_eq k key ≡ false
      → Holds key e limit l
      → Holds key e limit (allow now k l).0
  unfolding allow
  allow-other now k e l early other h =
      rw (is_on e l h)
        (by_entry-Holds now k _ e (clean_up now l) other (clean_up-Holds now e l early h))

  -- A request of the key, at or below the limit.
  allow-full :
      (now : ℕ) (e : Entry) (l : Limiter)
      → now ≤ e.reset_at
      → limit ≤ e.count
      → Holds key e limit l
      → ((allow now key l).1 ≡ false) × Holds key e limit (allow now key l).0
  unfolding allow
  allow-full now e l early full h =
      let c = clean_up-Holds now e l early h in
      let running : is_over now e ≡ false = ground arith in
      let refused : leb (clean_up now l).limit e.count ≡ true = rw c.same (ground arith) in
      rw (is_on e l h, c.entry, running, refused) (refl, c)

  allow-room :
      (now : ℕ) (e : Entry) (l : Limiter)
      → now ≤ e.reset_at
      → e.count < limit
      → Holds key e limit l
      → ((allow now key l).1 ≡ true)
        × Holds key (record e { count = suc e.count }) limit (allow now key l).0
  unfolding allow
  allow-room now e l early room h =
      let c = clean_up-Holds now e l early h in
      let running : is_over now e ≡ false = ground arith in
      let passed : leb (clean_up now l).limit e.count ≡ false = rw c.same (ground arith) in
      let same : text_eq key key ≡ true = (text_eq_iff key key).1 refl in
      rw (is_on e l h, c.entry, running, passed)
        (
          refl,
          record {
            on = c.on;
            same = c.same;
            entry = rw (lookup-insert key key _ (clean_up now l).entries, same) refl;
          },
        )

  -- While the entry of a key in a limiter that is on is not over, of the requests of that key
  -- exactly those up to the limit are let through, whatever other keys ask in between and whenever
  -- old entries are deleted.
  pub admitted-lesser :
      (rs : Requests) (e : Entry) (l : Limiter)
      → Holds key e limit l
      → Within e.reset_at rs
      → admitted key rs l ≡ lesser (requested key rs) (limit - e.count)
  unfolding admitted requested
  admitted-lesser [] e l h w = ground arith
  admitted-lesser ((now, k) ∷ rs) e l h w = elim (Bool-cases (text_eq k key)) [
    | inr other ↦
        rw other (admitted-lesser rs e (allow now k l).0 (allow-other now k e l w.0 other h) w.1)
    | inl same ↦
        let it : k ≡ key = (text_eq_iff k key).0 same in
        rw (same, it)
          (elim (Bool-cases (leb limit e.count)) [
            | inl full ↦
                let a = allow-full now e l w.0 (ground arith) h in
                let later = admitted-lesser rs e (allow now key l).0 a.1 w.1 in
                rw (a.0, later) (ground arith)
            | inr room ↦
                let a = allow-room now e l w.0 (ground arith) h in
                let later =
                  admitted-lesser rs (record e { count = suc e.count }) (allow now key l).0 a.1
                    w.1 in
                rw (a.0, later) (ground arith)
          ])
  ]
