-- ===== src/Server/Limiter/Capacity.antt =====
-- The limiter never keeps more than its cap of entries.
use go_hauk.Prelude.{
  leb, Bool-cases, length, Text, text_eq, Dict, lookup, insert, ℕ, suc, ◌+◌, ◌≤◌, ◌≡◌, refl, ap,
  inl, inr, Option, none, some, [], ◌∷◌, arith,
}
use go_hauk.Server.Limiter.{
  Entry, Limiter, max_entries, new, is_over, sweep, clean_up, by_entry, start_window, count_request,
  allow,
}

-- The limiters that a new one becomes.
pub data Reach (l : Limiter) : Limiter → Type 0 where
  here : Reach l l
  next : {m : Limiter} (now : ℕ) (key : Text) → Reach l m → Reach l (allow now key m).0

length-sweep : (now : ℕ) (d : Dict Entry) → length (sweep now d) ≤ length d
unfolding sweep
length-sweep now [] = omega arith
length-sweep now ((key, e) ∷ d) = ground (arith, length-sweep now d)

-- A new key makes a dictionary longer by one, a known one leaves its length.
length-insert : (key : Text) (e : Entry) (d : Dict Entry) → length (insert key e d) ≤ suc (length d)
unfolding insert
length-insert key e [] = omega arith
length-insert key e ((k, f) ∷ d) = ground (arith, length-insert key e d)

length-insert_known :
    (key : Text) (e f : Entry) (d : Dict Entry)
    → lookup key d ≡ some f
    → length (insert key e d) ≡ length d
unfolding insert lookup
length-insert_known key e f [] h = cc
length-insert_known key e f ((k, g) ∷ d) h = elim (Bool-cases (text_eq k key)) [
  | inl same ↦ rw same refl
  | inr other ↦ rw other (ap suc (length-insert_known key e f d (rw other at h)))
]

abbrev Fits : Limiter → Type 0
Fits l = length l.entries ≤ max_entries

clean_up-Fits : (now : ℕ) (l : Limiter) → Fits l → Fits (clean_up now l)
unfolding clean_up
clean_up-Fits now l h = ground (arith, length-sweep now l.entries)

start_window-Fits : (now : ℕ) (key : Text) (l : Limiter) → Fits l → Fits (start_window now key l).0
start_window-Fits now key l h =
    ground (arith, length-insert key (record { count = 1; reset_at = now + l.window }) l.entries)

count_request-Fits :
    (key : Text) (e : Entry) (l : Limiter)
    → lookup key l.entries ≡ some e
    → Fits l
    → Fits (count_request key e l).0
count_request-Fits key e l known h =
    ground (arith, length-insert_known key (record e { count = suc e.count }) e l.entries known)

by_entry-Fits :
    (now : ℕ) (key : Text) (o : Option Entry) (l : Limiter)
    → lookup key l.entries ≡ o
    → Fits l
    → Fits (by_entry now key o l).0
by_entry-Fits now key none l e h = start_window-Fits now key l h
by_entry-Fits now key (some f) l e h = elim (Bool-cases (is_over now f)) [
  | inl over ↦ rw over (start_window-Fits now key l h)
  | inr running ↦ rw running (count_request-Fits key f l e h)
]

allow-Fits : (now : ℕ) (key : Text) (l : Limiter) → Fits l → Fits (allow now key l).0
unfolding allow
allow-Fits now key l h = elim (Bool-cases (leb l.limit 0)) [
  | inl off ↦ rw off h
  | inr on ↦ rw on (
      by_entry-Fits now key (lookup key (clean_up now l).entries) (clean_up now l) refl
        (clean_up-Fits now l h))
]

-- Whatever requests a new limiter has seen, it keeps at most `max_entries` entries.
pub new-Fits :
    (now limit window : ℕ) {l : Limiter}
    → Reach (new now limit window) l
    → length l.entries ≤ max_entries
new-Fits now limit window here = omega arith
new-Fits now limit window (next {m} t key r) = allow-Fits t key m (new-Fits now limit window r)
