-- ===== src/Frontend/Polling.antt =====
-- The timers of `setNewInterval` in frontend/main.js: the countdown, the incremental fetches, and what
-- stops or replaces them. Times are those of Countdown.antt.
pub mod Owned
pub mod Renewal
mod Tests
use go_hauk.Prelude.{
  ◌==◌, if◌then◌else◌, Text, codes, ℕ, suc, ◌≡◌, Bool, true, false, not, ◌||◌, Option, none, some,
  List, [], ◌∷◌, ◌++◌,
}
use go_hauk.Frontend.Number.{Float}
use go_hauk.Frontend.Link.{fetch_url}
use go_hauk.Frontend.Countdown.{clock_text, seconds_left, is_expired}

-- The address of an incremental fetch, for the text of `getOldestPointTime()`.
unfoldable pub poll_url : Text → Text → Text
poll_url id since = fetch_url id ++ (codes "&since=" ++ since)

module _ (F : Float) where
  -- An interval timer with what its function closes over: `expire`, `interval`, and the times that
  -- make `timeOffset`.
  pub record Timer : Type 0 where
    pub timer_id : ℕ
    pub expire : ℕ
    pub interval : F.Num
    pub load : ℕ
    pub server : ℕ

  -- `expire`, `interval` and `serverTime` of an answer.
  pub record Schedule : Type 0 where
    pub expire : ℕ
    pub interval : F.Num
    pub server_time : ℕ

  -- The countdown timers and the fetch timers that run, `countIntv`, `fetchIntv`, the text of the
  -- countdown, the dialog that the share has expired, the fetches that are not answered, and the next
  -- timer's id.
  pub record Timers : Type 0 where
    pub counting : List Timer
    pub fetching : List Timer
    pub count_intv : Option ℕ
    pub fetch_intv : Option ℕ
    pub countdown : Text
    pub expired_dialog : Bool
    pub requests : List Timer
    pub next_id : ℕ

  -- `clearInterval`
  abbrev pub clear_interval : Option ℕ → List Timer → List Timer
  clear_interval none ts = ts
  clear_interval (some i) [] = []
  clear_interval (some i) (t ∷ ts) =
      let rest = clear_interval (some i) ts in if t.timer_id == i then rest else t ∷ rest

  -- Both `clearInterval` calls.
  unfoldable pub clear_both : Timers → Timers
  clear_both s = record s {
    counting = clear_interval s.count_intv s.counting;
    fetching = clear_interval s.fetch_intv s.fetching;
  }

  -- `setNewInterval` at the time `now`.
  unfoldable pub set_new_interval : Schedule → ℕ → Timers → Timers
  set_new_interval d now s =
      let t : Timer = record {
        timer_id = s.next_id;
        expire = d.expire;
        interval = d.interval;
        load = now;
        server = d.server_time;
      } in
      record s {
        counting = t ∷ s.counting;
        fetching = record t { timer_id = suc s.next_id } ∷ s.fetching;
        count_intv = some s.next_id;
        fetch_intv = some (suc s.next_id);
        next_id = suc (suc s.next_id);
      }

  abbrev count_down : Option ℕ → Timers → Timers
  count_down none s = record s { counting = clear_interval s.count_intv s.counting }
  count_down (some n) s = record s { countdown = clock_text n }

  -- A tick of a countdown timer.
  unfoldable pub on_count : ℕ → Timer → Timers → Timers
  on_count now t s = count_down (seconds_left t.expire now t.load t.server) s

  -- What the script does at the end of a share: `expired_text` is `LANG["status_expired"]`.
  unfoldable pub end_share : Text → Timers → Timers
  unfolding clear_both
  end_share expired_text s = record (clear_both s) {
    countdown = expired_text;
    expired_dialog = true;
  }

  -- A tick of a fetch timer: at the end the timers stop, but the fetch is made in any case.
  unfoldable pub on_fetch : Text → ℕ → Timer → Timers → Timers
  unfolding end_share
  on_fetch expired_text now t s =
      let u = if is_expired t.expire now t.load t.server then end_share expired_text s else s in
      record u { requests = u.requests ++ t ∷ [] }

  -- "Recreate the interval timers if the interval or expiration change."
  abbrev pub is_changed : Timer → Schedule → Bool
  is_changed t d = not (d.expire == t.expire) || not (F.eq d.interval t.interval)

  -- An answer to a fetch that the timer `t` made; `processUpdate` follows.
  unfoldable pub on_answer : Timer → Schedule → ℕ → Timers → Timers
  unfolding clear_both set_new_interval
  on_answer t d now s = if is_changed t d then set_new_interval d now (clear_both s) else s

  -- The script before the first answer.
  abbrev pub idle : Timers
  idle = record {
    counting = [];
    fetching = [];
    count_intv = none;
    fetch_intv = none;
    countdown = [];
    expired_dialog = false;
    requests = [];
    next_id = 0;
  }

  -- What can happen once the timers run: a tick, and an answer or its failure, at any time.
  pub data Step (expired_text : Text) (s : Timers) : Timers → Type 0 where
    count : (now : ℕ) (t : Timer) → Step expired_text s (on_count now t s)
    fetch : (now : ℕ) (t : Timer) → Step expired_text s (on_fetch expired_text now t s)
    answer : (t : Timer) (d : Schedule) (now : ℕ) → Step expired_text s (on_answer t d now s)
    failure : Step expired_text s (end_share expired_text s)

  -- What the script comes to. `init` is true for one answer of a share in the clear, the one that `init`
  -- asked for. An answer of a sealed share is drawn with `init`, whatever timers run, after each password
  -- for which it was asked; before it is asked again, the timers that the variables hold are stopped.
  pub data Reach (expired_text : Text) (is_sealed : Bool) : Timers → Type 0 where
    waiting : Reach expired_text is_sealed idle
    first : (d : Schedule) (now : ℕ) → Reach expired_text is_sealed (set_new_interval d now idle)
    next :
        {t u : Timers}
        → Reach expired_text is_sealed t
        → Step expired_text t u
        → Reach expired_text is_sealed u
    dropped :
        {t : Timers}
        → is_sealed ≡ true
        → Reach expired_text is_sealed t
        → Reach expired_text is_sealed (clear_both t)
    unlocked :
        {t : Timers} (d : Schedule) (now : ℕ)
        → is_sealed ≡ true
        → Reach expired_text is_sealed t
        → Reach expired_text is_sealed (set_new_interval d now t)
