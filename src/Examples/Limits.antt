-- ===== src/Examples/Limits.antt =====
-- The limiter at one request a second: the second of three requests is refused.
use legal_viet_namese.Base.{
  ◌+◌, ℕ, ◌≡◌, ◌≤◌, refl, List, [], ◌∷◌, Text, chars, arith, count, ltb, leb, ◌&&◌, ◌-◌, ◌*◌, ap,
}
use legal_viet_namese.Cache.SortedSet.{Entry}
use legal_viet_namese.Cache.RateLimit.{Request, second, rate_key, pipeline}
use legal_viet_namese.Cache.RateLimit.Interleaving.{
  Limiter, read, accept, refuse, undo, Reach, begin, next,
}
use legal_viet_namese.Cache.RateLimit.Interleaving.Safety.{Reach-Bounded}
use legal_viet_namese.Cache.RateLimit.Spec.{ideal, Increasing}
use legal_viet_namese.Cache.RateLimit.Window.{served, served-eq-ideal, served-bounded}
use legal_viet_namese.Examples.Stores.{sorted_sets}

abbrev member : ℕ → Text → Text
member now hex = now ∷ hex

abbrev time_of : Text → ℕ
time_of [] = 0
time_of (now ∷ hex) = now

abbrev reqs : List Request
reqs = (2000000, []) ∷ (2500000, []) ∷ (3200000, []) ∷ []

abbrev growing : Increasing 1500000 reqs
growing = (omega arith, (omega arith, (omega arith, tt)))

served-eq-ideal_example :
    served sorted_sets member (chars "u") (chars "chat") 1 1 (λ k. []) [] reqs
    ≡ ideal 1 (1 * second) member [] reqs
served-eq-ideal_example =
    served-eq-ideal sorted_sets member (chars "u") (chars "chat") 1 1 (λ t u a b e. ap time_of e)
      (omega arith) reqs 1500000 (λ k. []) growing (omega arith) refl

served-bounded_example :
    count
      (λ e. ltb (2600000 - 1 * second) e.0 && leb e.0 2600000)
      (served sorted_sets member (chars "u") (chars "chat") 1 1 (λ k. []) [] reqs)
    ≤ 1
served-bounded_example =
    served-bounded sorted_sets member (chars "u") (chars "chat") 1 1 (λ t u a b e. ap time_of e)
      (omega arith) reqs 1500000 (λ k. []) 2600000 growing (omega arith) refl

log_example :
    ideal 1 (1 * second) member [] reqs ≡ (3200000, 3200000 ∷ []) ∷ (2000000, 2000000 ∷ []) ∷ []
unfolding ideal
log_example = refl

-- Pipelines run while their reading is at most 0.6 seconds behind.
abbrev Crowd : Type 0
Crowd = Limiter sorted_sets member (chars "u") (chars "chat") 1 1 600000

abbrev asking : ℕ → Crowd → ℕ × (Text → List Entry)
asking now l = pipeline sorted_sets member (rate_key (chars "u") (chars "chat")) 1 (now, []) l.store

-- Two calls have read the clock. The later one runs first and is let in; the earlier one is refused
-- and taken back.
abbrev two_wait : Crowd
two_wait = record {
  store = λ k. [];
  waiting = (2500000, []) ∷ (2000000, []) ∷ [];
  accepted = [];
  refused = [];
  clock = 2500000;
}

abbrev one_in : Crowd
one_in = record two_wait {
  store = (asking 2500000 two_wait).1;
  waiting = (2000000, []) ∷ [];
  accepted = (2500000, 2500000 ∷ []) ∷ [];
}

abbrev one_out : Crowd
one_out = record one_in { store = (asking 2000000 one_in).1; waiting = []; refused = 2000000 ∷ [] }

abbrev taken_back : Crowd
taken_back = record one_out {
  store =
      sorted_sets.zremrangebyscore (rate_key (chars "u") (chars "chat")) 2000000 2000000
        one_out.store;
  refused = [];
}

ran : Reach sorted_sets member (chars "u") (chars "chat") 1 1 600000 (λ k. []) 1500000 taken_back
unfolding pipeline rate_key
ran =
    next
      (next
        (next (next (next begin (read 2000000 [] (omega arith))) (read 2500000 [] (omega arith)))
          (accept [] ((2000000, []) ∷ []) 2500000 [] refl (omega arith) refl))
        (refuse [] [] 2000000 [] refl (omega arith) refl))
      (undo [] [] 2000000 refl)

Reach-Bounded_example :
    count (λ e. ltb (2600000 + 600000 - 1 * second) e.0 && leb e.0 2600000) taken_back.accepted ≤ 1
Reach-Bounded_example =
    Reach-Bounded sorted_sets member (chars "u") (chars "chat") 1 1 600000
      (λ t u a b e. ap time_of e) (λ k. []) 1500000 taken_back 2600000 refl ran
