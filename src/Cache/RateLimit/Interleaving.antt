-- ===== src/Cache/RateLimit/Interleaving.antt =====
-- Calls of src/cache/rate_limit.py that run at the same time: a call reads the clock in one step, its
-- pipeline runs in a later one, as Redis runs it, and the removal of a refused entry in another;
-- other calls come between, so the pipelines may run in another order than the clock was read.
pub mod Safety
use legal_viet_namese.Base.{
  ℕ, ◌+◌, ◌-◌, ◌*◌, ◌<◌, ◌≤◌, ◌≡◌, true, false, List, [], ◌∷◌, ◌++◌, leb, Text,
}
use legal_viet_namese.Cache.SortedSet.{SortedSets, Entry}
use legal_viet_namese.Cache.RateLimit.{Request, second, rate_key, pipeline}

module _ (redis : SortedSets) (member : ℕ → Text → Text) (user_id bucket : Text)
    (limit window_s lag : ℕ) where
  open redis use {
    Store, zrange, zcard, zremrangebyscore, zadd, expire, zcard-count, count-zremrangebyscore,
    count-zadd, zrange-expire,
  }

  abbrev pub key : Text
  key = rate_key user_id bucket

  abbrev pub window : ℕ
  window = window_s * second

  -- The store, the calls that have read the clock and whose pipeline has not run yet, the accepted
  -- requests, the times of the refused ones whose entry is not removed yet, and the last reading.
  pub record Limiter : Type 0 where
    pub store : Store
    pub waiting : List Request
    pub accepted : List Entry
    pub refused : List ℕ
    pub clock : ℕ

  abbrev pub asked : ℕ → Text → Limiter → ℕ × Store
  asked now hex l = pipeline redis member key window_s (now, hex) l.store

  -- The readings of the clock grow. A pipeline runs while its own reading is at most `lag` behind the
  -- last one.
  pub data Step (l : Limiter) : Limiter → Type 0 where
    read :
        (now : ℕ) (hex : Text)
        → l.clock < now
        → Step l (record {
          store = l.store;
          waiting = (now, hex) ∷ l.waiting;
          accepted = l.accepted;
          refused = l.refused;
          clock = now;
        })
    accept :
        (before after : List Request) (now : ℕ) (hex : Text)
        → l.waiting ≡ before ++ ((now, hex) ∷ after)
        → l.clock ≤ now + lag
        → leb limit (asked now hex l).0 ≡ false
        → Step l (record {
          store = (asked now hex l).1;
          waiting = before ++ after;
          accepted = (now, member now hex) ∷ l.accepted;
          refused = l.refused;
          clock = l.clock;
        })
    refuse :
        (before after : List Request) (now : ℕ) (hex : Text)
        → l.waiting ≡ before ++ ((now, hex) ∷ after)
        → l.clock ≤ now + lag
        → leb limit (asked now hex l).0 ≡ true
        → Step l (record {
          store = (asked now hex l).1;
          waiting = before ++ after;
          accepted = l.accepted;
          refused = now ∷ l.refused;
          clock = l.clock;
        })
    undo :
        (before after : List ℕ) (now : ℕ)
        → l.refused ≡ before ++ (now ∷ after)
        → Step l (record {
          store = zremrangebyscore key now now l.store;
          waiting = l.waiting;
          accepted = l.accepted;
          refused = before ++ after;
          clock = l.clock;
        })

  pub data Reach (s : Store) (start : ℕ) : Limiter → Type 0 where
    begin :
        Reach s start
          (record { store = s; waiting = []; accepted = []; refused = []; clock = start })
    next : {l m : Limiter} → Reach s start l → Step l m → Reach s start m
