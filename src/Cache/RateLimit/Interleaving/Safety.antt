-- ===== src/Cache/RateLimit/Interleaving/Safety.antt =====
-- How many requests src/cache/rate_limit.py accepts when its calls run at the same time.
use legal_viet_namese.Base.{
  ℕ, ◌+◌, ◌-◌, ◌*◌, ◌≤◌, ◌<◌, ◌≡◌, refl, ap, ◌∙◌, Bool, true, false, not, ◌&&◌, ◌==◌, List, [], ◌∷◌,
  ◌++◌, leb, ltb, Text, text_eq, text_eq_sound, arith, count, count_mono, count-congr, Bool-cases,
  inl, inr, if◌then◌else◌,
}
use legal_viet_namese.Cache.SortedSet.{SortedSets, Entry}
use legal_viet_namese.Cache.RateLimit.{Request, second, rate_key, pipeline}
use legal_viet_namese.Cache.RateLimit.Interleaving.{
  Limiter, Step, read, accept, refuse, undo, Reach, begin, next, asked,
}

count-middle :
    {A : Type 0} (p : A → Bool) (before : List A) (x : A) (after : List A)
    → count p (before ++ (x ∷ after)) ≡ (if p x then 1 else 0) + count p (before ++ after)
count-middle p [] x after = ground arith
count-middle p (b ∷ before) x after = ground (arith, count-middle p before x after)

-- What passes one test passes one of two others.
count_split :
    {A : Type 0} (p q r : A → Bool) (xs : List A)
    → ((x : A) → ◌≤◌ (if p x then 1 else 0) ((if q x then 1 else 0) + (if r x then 1 else 0)))
    → count p xs ≤ count q xs + count r xs
count_split p q r [] h = omega arith
count_split p q r (x ∷ xs) h = ground (arith, h x, count_split p q r xs h)

module _ (redis : SortedSets) (member : ℕ → Text → Text) (user_id bucket : Text)
    (limit window_s lag : ℕ) where
  open redis use {
    Store, zrange, zcard, zremrangebyscore, zcard-count, count-zremrangebyscore, count-zadd,
    zrange-expire,
  }

  abbrev key : Text
  key = rate_key user_id bucket

  abbrev window : ℕ
  window = window_s * second

  abbrev L : Type 0
  L = Limiter redis member user_id bucket limit window_s lag

  abbrev Stepped : L → L → Type 0
  Stepped = Step redis member user_id bucket limit window_s lag

  abbrev Reached : Store → ℕ → L → Type 0
  Reached = Reach redis member user_id bucket limit window_s lag

  abbrev ask : ℕ → Text → L → ℕ × Store
  ask = asked redis member user_id bucket limit window_s lag

  -- 1 for a moment that the clock has not shown yet
  abbrev ahead : ℕ → ℕ → ℕ
  ahead t clock = if leb t clock then 0 else 1

  abbrev waits : ℕ → List Request → ℕ
  waits t ws = count (λ w. w.0 == t) ws

  abbrev named : ℕ → Text → Entry → Bool
  named t hex e = text_eq e.1 (member t hex)

  -- The set holds the accepted requests of the window before the last reading, perhaps with refused
  -- ones, and a reading belongs to one call.
  record IsSafe (l : L) : Type 0 where
    kept :
        (p : Entry → Bool)
        → count (λ e. p e && ltb (l.clock - window) e.0) l.accepted ≤ count p (zrange l.store key)
    fresh :
        (t : ℕ) (hex : Text)
        → 1 ≤ waits t l.waiting + ahead t l.clock
        → count (named t hex) (zrange l.store key) ≡ 0
    once :
        (t : ℕ)
        → (waits t l.waiting + count (λ e. e.0 == t) l.accepted)
            + count (λ r. r == t) l.refused
            + ahead t l.clock
          ≤ 1
    bounded : (t : ℕ) → count (λ e. ltb (t + lag - window) e.0 && leb e.0 t) l.accepted ≤ limit

  module _ (inj : (t u : Text) (a b : ℕ) → member a t ≡ member b u → a ≡ b) where
    read-IsSafe :
        (l : L)
        → IsSafe l
        → (now : ℕ) (hex : Text) → l.clock < now
        → IsSafe (record {
          store = l.store;
          waiting = (now, hex) ∷ l.waiting;
          accepted = l.accepted;
          refused = l.refused;
          clock = now;
        })
    read-IsSafe l h now hex later = record {
      kept = λ p. omega (
        arith,
        h.kept p,
        count_mono (λ e. p e && ltb (now - window) e.0) (λ e. p e && ltb (l.clock - window) e.0)
            l.accepted (λ e k. ground arith),
      );
      fresh = λ t hex' k. h.fresh t hex' (ground arith);
      once = λ t. ground (arith, h.once t);
      bounded = h.bounded;
    }

    module _ (l : L) (h : IsSafe l) (before after : List Request) (now : ℕ) (hex : Text)
        (turn : l.waiting ≡ before ++ ((now, hex) ∷ after)) where
      waits-turn :
          (t : ℕ) → waits t l.waiting ≡ (if now == t then 1 else 0) + waits t (before ++ after)
      waits-turn t =
          ap (waits t) turn ∙ count-middle (λ (w : Request). w.0 == t) before (now, hex) after

      past : now ≤ l.clock
      past = ground (arith, h.once now, waits-turn now)

      abbrev pruned : Store
      pruned = zremrangebyscore key 0 (now - window) l.store

      abbrev outside : (Entry → Bool) → Entry → Bool
      outside p e = p e && not (leb 0 e.0 && leb e.0 (now - window))

      outside-eq :
          (p : Entry → Bool) (e : Entry)
          → now ≤ l.clock
          → (outside p e && ltb (l.clock - window) e.0) ≡ (p e && ltb (l.clock - window) e.0)
      outside-eq p e before_ = ground arith

      pruned-kept :
          (p : Entry → Bool)
          → count (λ e. p e && ltb (l.clock - window) e.0) l.accepted ≤ count p (zrange pruned key)
      pruned-kept p = omega (
        arith,
        count-zremrangebyscore key 0 (now - window) l.store p,
        h.kept (outside p),
        count-congr (λ e. outside p e && ltb (l.clock - window) e.0)
            (λ e. p e && ltb (l.clock - window) e.0) l.accepted (λ e. outside-eq p e past),
      )

      pruned-few : (p : Entry → Bool) → count p (zrange pruned key) ≤ count p (zrange l.store key)
      pruned-few p = omega (
        arith,
        count-zremrangebyscore key 0 (now - window) l.store p,
        count_mono (outside p) p (zrange l.store key) (λ e k. ground arith),
      )

      unnamed : count (named now hex) (zrange l.store key) ≡ 0
      unnamed = h.fresh now hex (ground (arith, waits-turn now))

      added :
          (p : Entry → Bool)
          → count p (zrange (ask now hex l).1 key)
            ≡ (if p (now, member now hex) then 1 else 0) + count p (zrange pruned key)
      unfolding pipeline
      added p =
          ap (count p) (zrange-expire key key (window_s + 5) _)
          ∙ count-zadd key (member now hex) now pruned p
              (omega (arith, pruned-few (named now hex), unnamed))

      counted : count (λ e. true && ltb (l.clock - window) e.0) l.accepted ≤ (ask now hex l).0
      unfolding pipeline
      counted = omega (arith, zcard-count pruned key, pruned-kept (λ e. true))

      other_name :
          (t : ℕ) (hex' : Text)
          → (now == t) ≡ false
          → text_eq (member now hex) (member t hex') ≡ false
      other_name t hex' apart = elim (Bool-cases (text_eq (member now hex) (member t hex'))) [
        | inl same ↦
            absurd (
              let same_time : now ≡ t = inj hex hex' now t (text_eq_sound _ _ same) in ground arith)
        | inr other ↦ other
      ]

      still_fresh :
          (t : ℕ) (hex' : Text)
          → 1 ≤ waits t (before ++ after) + ahead t l.clock
          → count (named t hex') (zrange (ask now hex l).1 key) ≡ 0
      still_fresh t hex' k =
          let apart : (now == t) ≡ false = ground (arith, h.once t, waits-turn t) in
          let none_new : ◌≡◌ {A = ℕ} (if named t hex' (now, member now hex) then 1 else 0) 0 =
            rw (other_name t hex' apart) refl in
          omega (
            arith,
            added (named t hex'),
            none_new,
            pruned-few (named t hex'),
            h.fresh t hex' (omega (arith, waits-turn t)),
          )

      abbrev in_window : ℕ → Entry → Bool
      in_window t e = ltb (t + lag - window) e.0 && leb e.0 t

      window-accept :
          (t : ℕ)
          → l.clock ≤ now + lag
          → leb limit (ask now hex l).0 ≡ false
          → count (in_window t) ((now, member now hex) ∷ l.accepted) ≤ limit
      window-accept t near room = elim (Bool-cases (leb now t)) [
        | inl within ↦ ground (
          arith,
          counted,
          count_mono (in_window t) (λ e. true && ltb (l.clock - window) e.0) l.accepted
              (λ e k. ground arith),
        )
        | inr later ↦ ground (arith, h.bounded t)
      ]

      accept-IsSafe :
          l.clock ≤ now + lag
          → leb limit (ask now hex l).0 ≡ false
          → IsSafe (record {
            store = (ask now hex l).1;
            waiting = before ++ after;
            accepted = (now, member now hex) ∷ l.accepted;
            refused = l.refused;
            clock = l.clock;
          })
      accept-IsSafe near room = record {
        kept = λ p. ground (arith, added p, pruned-kept p);
        fresh = still_fresh;
        once = λ t. ground (arith, h.once t, waits-turn t);
        bounded = λ t. window-accept t near room;
      }

      refuse-IsSafe : IsSafe (record {
        store = (ask now hex l).1;
        waiting = before ++ after;
        accepted = l.accepted;
        refused = now ∷ l.refused;
        clock = l.clock;
      })
      refuse-IsSafe = record {
        kept = λ p. omega (arith, added p, pruned-kept p);
        fresh = still_fresh;
        once = λ t. ground (arith, h.once t, waits-turn t);
        bounded = h.bounded;
      }

    undo-IsSafe :
        (l : L)
        → IsSafe l
        → (before after : List ℕ) (now : ℕ) → l.refused ≡ before ++ (now ∷ after)
        → IsSafe (record {
          store = zremrangebyscore key now now l.store;
          waiting = l.waiting;
          accepted = l.accepted;
          refused = before ++ after;
          clock = l.clock;
        })
    undo-IsSafe l h before after now e =
        let there = λ (t : ℕ).
          ap (count (λ (r : ℕ). r == t)) e ∙ count-middle (λ (r : ℕ). r == t) before now after in
        let other : count (λ e. e.0 == now) l.accepted ≡ 0 =
          ground (arith, h.once now, there now) in
        record {
          kept = λ p. omega (
            arith,
            other,
            count-zremrangebyscore key now now l.store p,
            h.kept (λ e. p e && not (leb now e.0 && leb e.0 now)),
            count_split (λ e. p e && ltb (l.clock - window) e.0)
                (λ e. (p e && not (leb now e.0 && leb e.0 now)) && ltb (l.clock - window) e.0)
                (λ e. e.0 == now) l.accepted (λ e. ground arith),
          );
          fresh = λ t hex k. omega (
            arith,
            count-zremrangebyscore key now now l.store (named t hex),
            count_mono (λ e. named t hex e && not (leb now e.0 && leb e.0 now)) (named t hex)
                (zrange l.store key) (λ e k. ground arith),
            h.fresh t hex k,
          );
          once = λ t. ground (arith, h.once t, there t);
          bounded = h.bounded;
        }

    Step-IsSafe : (l m : L) → Stepped l m → IsSafe l → IsSafe m
    Step-IsSafe l _ (read now hex later) h = read-IsSafe l h now hex later
    Step-IsSafe l _ (accept before after now hex turn near room) h =
        accept-IsSafe l h before after now hex turn near room
    Step-IsSafe l _ (refuse before after now hex turn near full) h =
        refuse-IsSafe l h before after now hex turn
    Step-IsSafe l _ (undo before after now e) h = undo-IsSafe l h before after now e

    Reach-IsSafe :
        (s : Store) (start : ℕ) (l : L) → zrange s key ≡ [] → Reached s start l → IsSafe l
    Reach-IsSafe s start _ empty begin = record {
      kept = λ p. omega arith;
      fresh = λ t hex k. ap (count (named t hex)) empty;
      once = λ t. ground arith;
      bounded = λ t. omega arith;
    }
    Reach-IsSafe s start _ empty (next {l} {m} r st) =
        Step-IsSafe l m st (Reach-IsSafe s start l empty r)

    -- However the readings of the clock, the pipelines of calls and the removals of refused entries
    -- interleave, over a key that is empty at first, readings that grow, members that tell the times
    -- apart, and pipelines that run, in any order, while their own reading is at most `lag` behind
    -- the last one, no span of `window_s` seconds less `lag`, wherever it ends, contains more than
    -- `limit` accepted requests.
    pub Reach-Bounded :
        (s : Store) (start : ℕ) (l : L) (t : ℕ)
        → zrange s key ≡ []
        → Reached s start l
        → count (λ e. ltb (t + lag - window) e.0 && leb e.0 t) l.accepted ≤ limit
    Reach-Bounded s start l t empty r = (Reach-IsSafe s start l empty r).bounded t
