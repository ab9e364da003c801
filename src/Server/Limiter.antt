-- ===== src/Server/Limiter.antt =====
-- The rate limiter of ratelimit/ratelimit.go. `Allow` holds a lock, so that calls are steps one after
-- another; times are natural numbers, of a clock that does not go back.
pub mod Window
pub mod Capacity
pub mod Client
mod Tests
use go_hauk.Prelude.{
  ltb, leb, if◌then◌else◌, length, Text, Dict, lookup, insert, ℕ, suc, ◌+◌, ◌-◌, ◌*◌, Bool, true,
  false, ◌||◌, Option, none, some, [], ◌∷◌,
}

-- `maxEntries`
abbrev pub max_entries : ℕ
max_entries = 10000

pub record Entry : Type 0 where
  pub count : ℕ
  pub reset_at : ℕ

-- `Limiter`; a limit below 1, which turns it off, is 0.
pub record Limiter : Type 0 where
  pub entries : Dict Entry
  pub limit : ℕ
  pub window : ℕ
  pub last_sweep : ℕ

-- `New` at the time `now`.
abbrev pub new : ℕ → ℕ → ℕ → Limiter
new now limit window = record { entries = []; limit = limit; window = window; last_sweep = now }

-- `now.After(e.resetAt)`
abbrev pub is_over : ℕ → Entry → Bool
is_over now e = ltb e.reset_at now

-- The loop that deletes entries that are over.
unfoldable pub sweep : ℕ → Dict Entry → Dict Entry
sweep now [] = []
sweep now ((key, e) ∷ d) = let rest = sweep now d in if is_over now e then rest else (key, e) ∷ rest

-- "cleanup stale entries periodically or when approaching cap"
unfoldable pub clean_up : ℕ → Limiter → Limiter
clean_up now l =
    if ltb (l.window * 2) (now - l.last_sweep) || leb max_entries (length l.entries)
    then record l { entries = sweep now l.entries; last_sweep = now }
    else l

-- "new entry - check cap first"
abbrev start_window : ℕ → Text → Limiter → Limiter × Bool
start_window now key l = if leb max_entries (length l.entries) then (l, false) else (
  record l { entries = insert key (record { count = 1; reset_at = now + l.window }) l.entries },
  true,
)

abbrev count_request : Text → Entry → Limiter → Limiter × Bool
count_request key e l =
    if leb l.limit e.count
    then (l, false)
    else (record l { entries = insert key (record e { count = suc e.count }) l.entries }, true)

abbrev by_entry : ℕ → Text → Option Entry → Limiter → Limiter × Bool
by_entry now key none l = start_window now key l
by_entry now key (some e) l =
    if is_over now e then start_window now key l else count_request key e l

-- `Allow` at the time `now`.
unfoldable pub allow : ℕ → Text → Limiter → Limiter × Bool
unfolding clean_up
allow now key l =
    let c = clean_up now l in
    if leb l.limit 0 then (l, true) else by_entry now key (lookup key c.entries) c
