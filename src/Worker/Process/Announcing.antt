-- ===== src/Worker/Process/Announcing.antt =====
-- The events that a part of the job of src/worker/tasks/ingestion.py adds to the channel, and how the
-- stream of src/api/routes/files.py reads them.
pub mod Closing
use legal_viet_namese.Base.{
  ◌≡◌, refl, sym, ap, ◌∙◌, Bool, true, false, List, [], ◌∷◌, ◌++◌, append-nil, append_assoc, map,
  All, All-append, some, Text, chars, Result, ok, err, ◌>>=◌, ◌>>◌, raise_if, continue,
}
use legal_viet_namese.Db.Session.{Exception}
use legal_viet_namese.Worker.Process.{World, Progress, Outcome}
use legal_viet_namese.Worker.Process.Steps.{Step}
use legal_viet_namese.Api.Files.Events.{
  PubSubMessage, payload, dict, FileEvent, closed, waiting, is_last, status_text, listen,
}

-- `_publish`, seen by a subscriber; `json` is the JSON of the data
abbrev pub message_of : (Progress → Text) → Progress → PubSubMessage
message_of json p = payload (some (chars "status")) (dict (json p) (some (status_text p.status)))

abbrev pub event_of : (Progress → Text) → Progress → FileEvent
event_of json p = record { event = chars "status"; «data» = json p }

abbrev pub Calm : Progress → Type 0
Calm p = is_last (some (status_text p.status)) ≡ false

abbrev pub Last : Progress → Type 0
Last p = is_last (some (status_text p.status)) ≡ true

pub listen-closed :
    (json : Progress → Text) (ps : List Progress) (p : Progress)
    → All Calm ps
    → Last p
    → listen (map (message_of json) (ps ++ (p ∷ [])))
      ≡ (map (event_of json) (ps ++ (p ∷ [])), closed)
unfolding listen
listen-closed json [] p a h = rw h refl
listen-closed json (q ∷ ps) p a h =
    rw (a.0) (ap (λ y. (event_of json q ∷ y.0, y.1)) (listen-closed json ps p a.1 h))

pub listen-open :
    (json : Progress → Text) (ps : List Progress)
    → All Calm ps
    → listen (map (message_of json) ps) ≡ (map (event_of json) ps, waiting)
unfolding listen
listen-open json [] a = refl
listen-open json (q ∷ ps) a =
    rw (a.0) (ap (λ y. (event_of json q ∷ y.0, y.1)) (listen-open json ps a.1))

module _ {Store : Type 0} where
  -- only calm events are added
  pub record Murmurs (w w' : World Store) : Type 0 where
    pub told : List Progress
    pub calm : All Calm told
    pub same : w'.published ≡ w.published ++ told

  -- calm events, and then the last one
  pub record Ends (w w' : World Store) : Type 0 where
    pub told : List Progress
    pub calm : All Calm told
    pub end : Progress
    pub its : Last end
    pub same : w'.published ≡ w.published ++ (told ++ (end ∷ []))

  pub Murmurs-none : (w w' : World Store) → w'.published ≡ w.published → Murmurs w w'
  Murmurs-none w w' e = record { told = []; calm = tt; same = e ∙ sym (append-nil w.published) }

  pub Murmurs-trans : (w v u : World Store) → Murmurs w v → Murmurs v u → Murmurs w u
  Murmurs-trans w v u h k = record {
    told = h.told ++ k.told;
    calm = All-append Calm h.told k.told h.calm k.calm;
    same = k.same ∙ (ap (λ ps. ps ++ k.told) h.same ∙ append_assoc w.published h.told k.told);
  }

  pub Ends-behind : (w v u : World Store) → Murmurs w v → Ends v u → Ends w u
  Ends-behind w v u h k = record {
    told = h.told ++ k.told;
    calm = All-append Calm h.told k.told h.calm k.calm;
    end = k.end;
    its = k.its;
    same =
        k.same
        ∙ (ap (λ ps. ps ++ (k.told ++ (k.end ∷ []))) h.same
            ∙ (append_assoc w.published h.told (k.told ++ (k.end ∷ []))
                ∙ ap (λ ps. w.published ++ ps) (sym (append_assoc h.told k.told (k.end ∷ [])))));
  }

  pub record Quiet {A : Type 0} (m : Step Store A) : Type 0 where
    pub at : (w : World Store) → Murmurs w (m w).1

  -- a success has told the end, an exception has not
  abbrev pub Told : World Store → Result Exception Outcome × World Store → Type 0
  Told w (ok o, w') = Ends w w'
  Told w (err e, w') = Murmurs w w'

  pub record Loud (m : Step Store Outcome) : Type 0 where
    pub at : (w : World Store) → Told w (m w)

  pub Told-behind :
      (w v : World Store) (y : Result Exception Outcome × World Store)
      → Murmurs w v
      → Told v y
      → Told w y
  Told-behind w v (ok o, u) h k = Ends-behind w v u h k
  Told-behind w v (err e, u) h k = Murmurs-trans w v u h k

  pub Loud-bind :
      {A : Type 0} (m : Step Store A) (f : A → Step Store Outcome)
      → Quiet m
      → ((a : A) → Loud (f a))
      → Loud (m >>= f)
  Loud-bind {A} m f h k = record { at = λ w. go w (m w) (h.at w) }
    where
      go :
          (w : World Store) (x : Result Exception A × World Store)
          → Murmurs w x.1
          → Told w (continue x.0 f x.1)
      go w (ok a, v) q = Told-behind w v (f a v) q ((k a).at v)
      go w (err e, v) q = q

  pub raise_if-Quiet : (b : Bool) (e : Exception) → Quiet {A = Unit {0}} (raise_if b e)
  raise_if-Quiet true e = record { at = λ w. Murmurs-none w w refl }
  raise_if-Quiet false e = record { at = λ w. Murmurs-none w w refl }
