-- ===== src/Cache/RateLimit/Window.antt =====
-- The limiter of src/cache/rate_limit.py beside a log of the accepted requests.
use legal_viet_namese.Base.{
  ℕ, ◌+◌, ◌-◌, ◌*◌, ◌≤◌, ◌<◌, ◌≡◌, refl, Bool, true, false, not, ◌&&◌, List, [], ◌∷◌, ◌∙◌, leb, ltb,
  Text, text_eq, arith, count, count-congr, count-congr-All, count_none, All, Bool-cases,
  text_eq_sound, sym, ap, inl, inr, if◌then◌else◌, Result, ok, err, max,
}
use legal_viet_namese.Cache.SortedSet.{SortedSets, Entry}
use legal_viet_namese.Cache.RateLimit.{
  Request, second, rate_key, pipeline, allow_request, retry_after, oldest, rate_limit_exceeded,
}
use legal_viet_namese.Cache.RateLimit.Spec.{recent, ideal, Increasing, ideal-Bounded}

abbrev pub accepted : {E A : Type 0} → Result E A → Bool
accepted (ok a) = true
accepted (err e) = false

module _ (redis : SortedSets) (member : ℕ → Text → Text) (user_id bucket : Text)
    (limit window_s : ℕ) where
  open redis use {
    Store, zrange, zcard, zcard-count, count-zremrangebyscore, count-zadd, zrange-expire,
  }

  -- what the code does with a sequence of requests: the log of those that it lets through
  pub served : Store → List Entry → List Request → List Entry
  served s log [] = log
  served s log ((now, hex) ∷ rest) =
      let (r, s') = allow_request redis member user_id bucket limit window_s (now, hex) s in
      served s' (if accepted r then (now, member now hex) ∷ log else log) rest

  abbrev key : Text
  key = rate_key user_id bucket

  abbrev window : ℕ
  window = window_s * second

  -- The set holds the accepted requests of the window before the last call.
  record Holds (s : Store) (log : List Entry) (last : ℕ) : Type 0 where
    entries :
        (p : Entry → Bool)
        → count p (zrange s key) ≡ count (λ e. p e && ltb (last - window) e.0) log
    named : All (λ e. (e.0 ≤ last) × ((u : Text) × (e.1 ≡ member e.0 u))) log

  module _ (now last : ℕ) (hex : Text) (s : Store) (log : List Entry) (later : last < now)
      (some_window : 0 < window) (early : window ≤ now)
      (inj : (t u : Text) (a b : ℕ) → member a t ≡ member b u → a ≡ b) (h : Holds s log last) where
    open redis use {zremrangebyscore, zadd, expire}

    abbrev s1 : Store
    s1 = zremrangebyscore key 0 (now - window) s

    abbrev s3 : Store
    s3 = expire key (window_s + 5) (zadd key (member now hex) now s1)

    pruned :
        (p : Entry → Bool)
        → count p (zrange s1 key) ≡ count (λ e. p e && ltb (now - window) e.0) log
    pruned p =
        count-zremrangebyscore key 0 (now - window) s p
        ∙ h.entries (λ e. p e && not (leb 0 e.0 && leb e.0 (now - window)))
        ∙ count-congr
            (λ e. (p e && not (leb 0 e.0 && leb e.0 (now - window))) && ltb (last - window) e.0)
            (λ e. p e && ltb (now - window) e.0) log (λ e. ground arith)

    not_named :
        (e : Entry)
        → (e.0 ≤ last) × ((u : Text) × (e.1 ≡ member e.0 u))
        → (text_eq e.1 (member now hex) && ltb (now - window) e.0) ≡ false
    not_named e n = elim (Bool-cases (text_eq e.1 (member now hex))) [
      | inl same ↦ absurd (
          let same_time : e.0 ≡ now =
            inj n.1.0 hex e.0 now (sym n.1.1 ∙ text_eq_sound e.1 (member now hex) same) in
          omega arith)
      | inr other ↦ rw other refl
    ]

    -- the member is new, since its time is
    unnamed : count (λ e. text_eq e.1 (member now hex)) (zrange s1 key) ≡ 0
    unnamed =
        pruned (λ e. text_eq e.1 (member now hex))
        ∙ count-congr-All (λ e. (e.0 ≤ last) × ((u : Text) × (e.1 ≡ member e.0 u)))
            (λ e. text_eq e.1 (member now hex) && ltb (now - window) e.0) (λ e. false) log h.named
            not_named
        ∙ count_none log

    added :
        (p : Entry → Bool)
        → count p (zrange s3 key)
          ≡ (if p (now, member now hex) then 1 else 0)
            + count (λ e. p e && ltb (now - window) e.0) log
    added p =
        ap (count p) (zrange-expire key key (window_s + 5) _)
        ∙ count-zadd key (member now hex) now s1 p unnamed
        ∙ ap (λ n. (if p (now, member now hex) then 1 else 0) + n) (pruned p)

    weaker :
        (l : List Entry)
        → All (λ e. (e.0 ≤ last) × ((u : Text) × (e.1 ≡ member e.0 u))) l
        → All (λ e. (e.0 ≤ now) × ((u : Text) × (e.1 ≡ member e.0 u))) l
    weaker [] n = tt
    weaker (e ∷ l) n = ((omega arith, n.0.1), weaker l n.1)

    counted : zcard s1 key ≡ recent window now log
    counted = zcard-count s1 key ∙ pruned (λ e. true)

    inside :
        (b : Bool) → ◌≡◌ {A = ℕ} (if b then 1 else 0) (if b && ltb (now - window) now then 1 else 0)
    inside b = ground arith

    outside : (b : Bool) → ◌≡◌ {A = ℕ} (if b && not (leb now now && leb now now) then 1 else 0) 0
    outside b = ground arith

    undone :
        (p : Entry → Bool)
        → count (λ e. (p e && not (leb now e.0 && leb e.0 now)) && ltb (now - window) e.0) log
          ≡ count (λ e. p e && ltb (now - window) e.0) log
    undone p =
        count-congr-All (λ e. (e.0 ≤ last) × ((u : Text) × (e.1 ≡ member e.0 u))) _ _ log h.named
          (λ e n. ground arith)

    accept-Holds : Holds s3 ((now, member now hex) ∷ log) now
    accept-Holds = record {
      entries = λ p.
          added p
          ∙ ap (λ n. n + count (λ e. p e && ltb (now - window) e.0) log)
              (inside (p (now, member now hex)));
      named = ((omega arith, (hex, refl)), weaker log h.named);
    }

    reject-Holds : Holds (zremrangebyscore key now now s3) log now
    reject-Holds = record {
      entries = λ p.
          count-zremrangebyscore key now now s3 p
          ∙ added (λ e. p e && not (leb now e.0 && leb e.0 now))
          ∙ ap
              (λ n.
                n
                + count (λ e. (p e && not (leb now e.0 && leb e.0 now)) && ltb (now - window) e.0)
                    log)
              (outside (p (now, member now hex)))
          ∙ omega (arith, undone p);
      named = weaker log h.named;
    }

    -- the wait that a refusal reports
    wait : ℕ
    wait = max 100000 (retry_after window now (oldest (zrange s3 key)))

    allows :
        ltb (recent window now log) limit ≡ true
        → allow_request redis member user_id bucket limit window_s (now, hex) s
          ≡ (ok (true, limit - recent window now log - 1), s3)
    unfolding allow_request pipeline
    allows room =
        let open_slot : leb limit (recent window now log) ≡ false = ground arith in
        rw (counted, open_slot)

    refuses :
        ltb (recent window now log) limit ≡ false
        → allow_request redis member user_id bucket limit window_s (now, hex) s
          ≡ (err (rate_limit_exceeded wait), zremrangebyscore key now now s3)
    unfolding allow_request pipeline wait
    refuses full =
        let no_slot : leb limit (recent window now log) ≡ true = ground arith in
        rw (counted, no_slot)

  served-Holds :
      ((t u : Text) (a b : ℕ) → member a t ≡ member b u → a ≡ b)
      → 0 < window_s
      → (reqs : List Request) (last : ℕ) (s : Store) (log : List Entry) → Increasing last reqs
      → window ≤ last
      → Holds s log last
      → served s log reqs ≡ ideal limit window member log reqs
  unfolding served ideal
  served-Holds inj pos [] last s log up early h = refl
  served-Holds inj pos ((now, hex) ∷ rest) last s log up early h =
      elim (Bool-cases (ltb (recent window now log) limit)) [
        | inl room ↦
            rw (allows now last hex s log up.0 (omega arith) (omega arith) inj h room, room)
              (served-Holds inj pos rest now _ _ up.1 (omega arith)
                (accept-Holds now last hex s log up.0 (omega arith) (omega arith) inj h))
        | inr full ↦
            rw (refuses now last hex s log up.0 (omega arith) (omega arith) inj h full, full)
              (served-Holds inj pos rest now _ _ up.1 (omega arith)
                (reject-Holds now last hex s log up.0 (omega arith) (omega arith) inj h))
      ]

  -- Over a key that is empty, a window that is not, and requests at growing times later than one
  -- window, whose members tell the times apart, the code lets through exactly the requests that the
  -- specification accepts: those that find fewer than `limit` accepted ones in the window before
  -- them.
  pub served-eq-ideal :
      ((t u : Text) (a b : ℕ) → member a t ≡ member b u → a ≡ b)
      → 0 < window_s
      → (reqs : List Request) (last : ℕ) (s : Store) → Increasing last reqs
      → window ≤ last
      → zrange s key ≡ []
      → served s [] reqs ≡ ideal limit window member [] reqs
  served-eq-ideal inj pos reqs last s up early empty =
      served-Holds inj pos reqs last s [] up early
        (record { entries = λ p. ap (count p) empty; named = tt })

  -- Over a key that is empty, a window that is not, and requests at growing times later than one
  -- window, whose members tell the times apart, no window of `window_s` seconds, wherever it ends,
  -- contains more than `limit` accepted requests.
  pub served-bounded :
      ((t u : Text) (a b : ℕ) → member a t ≡ member b u → a ≡ b)
      → 0 < window_s
      → (reqs : List Request) (last : ℕ) (s : Store) (t : ℕ) → Increasing last reqs
      → window ≤ last
      → zrange s key ≡ []
      → count (λ e. ltb (t - window) e.0 && leb e.0 t) (served s [] reqs) ≤ limit
  served-bounded inj pos reqs last s t up early empty =
      rw (served-eq-ideal inj pos reqs last s up early empty)
        (ideal-Bounded limit window member reqs t)
