-- ===== src/Cache/RateLimit.antt =====
-- src/cache/rate_limit.py: the sliding-window limiter. Times are microseconds; the window, in
-- seconds in the source, is `window_s * second`. `member` is the f-string `{now}-{uuid4().hex[:8]}`.
pub mod Spec
pub mod Window
pub mod Interleaving
use legal_viet_namese.Base.{
  ℕ, ◌+◌, ◌-◌, ◌*◌, Bool, true, List, [], ◌∷◌, ◌++◌, Option, none, some, leb, Text, chars, max,
  if◌then◌else◌, Result, ok, err, Exec,
}
use legal_viet_namese.Cache.SortedSet.{SortedSets, Entry}

abbrev pub second : ℕ
second = 1000000

-- the exception, with the microseconds to wait
pub data RateLimitExceeded : Type 0 where
  rate_limit_exceeded : ℕ → RateLimitExceeded

-- what one call gets: its time and the random part of its member name
abbrev pub Request : Type 0
Request = ℕ × Text

unfoldable pub rate_key : Text → Text → Text
rate_key user_id bucket = chars "rl:" ++ (bucket ++ (chars ":" ++ user_id))

-- `oldest[0]`: the first entry, if there is one
abbrev pub oldest : List Entry → Option ℕ
oldest [] = none
oldest (e ∷ es) = some e.0

-- `window_s - (now - oldest[0][1]) if oldest else float(window_s)`
abbrev pub retry_after : ℕ → ℕ → Option ℕ → ℕ
retry_after window now none = window
retry_after window now (some t) = window - (now - t)

module _ (redis : SortedSets) (member : ℕ → Text → Text) where
  open redis use {Store, zrange, zcard, zremrangebyscore, zadd, expire}

  -- The pipeline: drop the old entries, count, add this request, refresh the expiry. The count is
  -- what the caller reads.
  unfoldable pub pipeline : Text → ℕ → Request → Store → ℕ × Store
  pipeline key window_s (now, hex) s =
      let s1 = zremrangebyscore key 0 (now - window_s * second) s in
      let s2 = zadd key (member now hex) now s1 in (zcard s1 key, expire key (window_s + 5) s2)

  unfoldable pub allow_request :
      Text → Text → ℕ → ℕ → Request → Exec Store RateLimitExceeded (Bool × ℕ)
  allow_request user_id bucket limit window_s (now, hex) s =
      let key = rate_key user_id bucket in
      let (count, s3) = pipeline key window_s (now, hex) s in
      let wait = retry_after (window_s * second) now (oldest (zrange s3 key)) in
      if leb limit count
      then (err (rate_limit_exceeded (max 100000 wait)), zremrangebyscore key now now s3)
      else (ok (true, limit - count - 1), s3)
