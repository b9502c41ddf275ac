-- ===== src/Cache/SortedSet.antt =====
-- The Redis sorted sets that src/cache/rate_limit.py uses. Redis is not part of the repository, so
-- the commands are parameters with their documented behaviour, stated by how many entries of a key
-- pass a test.
use legal_viet_namese.Base.{
  ℕ, ◌+◌, ◌≡◌, Bool, true, false, not, ◌&&◌, List, leb, count, Text, text_eq, if◌then◌else◌,
}

-- A member with its score, a time in microseconds.
abbrev pub Entry : Type 0
Entry = ℕ × Text

pub record SortedSets : Type 1 where
  pub Store : Type 0
  -- ZRANGE key 0 -1 WITHSCORES: the entries by rising score
  pub zrange : Store → Text → List Entry
  -- ZCARD key
  pub zcard : Store → Text → ℕ
  -- ZREMRANGEBYSCORE key lo hi
  pub zremrangebyscore : Text → ℕ → ℕ → Store → Store
  -- ZADD key {member: score}
  pub zadd : Text → Text → ℕ → Store → Store
  -- EXPIRE key seconds
  pub expire : Text → ℕ → Store → Store
  pub zcard-count : (s : Store) (key : Text) → zcard s key ≡ count (λ e. true) (zrange s key)
  pub count-zremrangebyscore :
      (key : Text) (lo hi : ℕ) (s : Store) (p : Entry → Bool)
      → count p (zrange (zremrangebyscore key lo hi s) key)
        ≡ count (λ e. p e && not (leb lo e.0 && leb e.0 hi)) (zrange s key)
  -- for a member that the key does not hold yet
  pub count-zadd :
      (key member : Text) (t : ℕ) (s : Store) (p : Entry → Bool)
      → count (λ e. text_eq e.1 member) (zrange s key) ≡ 0
      → count p (zrange (zadd key member t s) key)
        ≡ (if p (t, member) then 1 else 0) + count p (zrange s key)
  -- a command leaves the other keys alone, and EXPIRE the entries of its own
  pub zremrangebyscore_other :
      (key j : Text) (lo hi : ℕ) (s : Store)
      → text_eq key j ≡ false
      → zrange (zremrangebyscore key lo hi s) j ≡ zrange s j
  pub zadd_other :
      (key j member : Text) (t : ℕ) (s : Store)
      → text_eq key j ≡ false
      → zrange (zadd key member t s) j ≡ zrange s j
  pub zrange-expire : (key j : Text) (n : ℕ) (s : Store) → zrange (expire key n s) j ≡ zrange s j
