-- ===== src/Memory/ShortTerm/Window.antt =====
-- The buffer of src/memory/short_term.py beside the list of the messages.
use legal_viet_namese.Base.{
  drop-drop, ℕ, zero, suc, ◌-◌, ◌≡◌, ◌≤◌, ◌<◌, refl, sym, ap, ◌∙◌, List, [], ◌∷◌, ◌++◌, map, Text,
  take_last, length, drop, arith, ◌==◌, false, length-append, length-drop,
}
use mathlib.Core.List.{append_assoc, append-nil}
use legal_viet_namese.Core.Redis.{Codec}
use legal_viet_namese.Db.Models.{Uuid}
use legal_viet_namese.Memory.ShortTerm.{
  RedisLists, Line, BufferSettings, last_items, append_message, get_buffer, push_all,
  warmup_from_db,
}

module _ {A : Type 0} where
  pub drop-append : (n : ℕ) (xs ys : List A) → n ≤ length xs → drop n (xs ++ ys) ≡ drop n xs ++ ys
  drop-append zero xs ys h = refl
  drop-append (suc n) [] ys h = absurd (omega arith)
  drop-append (suc n) (x ∷ xs) ys h = drop-append n xs ys (omega arith)

  -- the last n of the last n with more behind them
  take_last-append :
      (n : ℕ) (xs ys : List A) → take_last n (take_last n xs ++ ys) ≡ take_last n (xs ++ ys)
  take_last-append n xs ys =
      let k = length xs - n in
      let joined = drop-append k xs ys (omega arith) in
      ap (λ zs. drop (length zs - n) zs) (sym joined)
      ∙ drop-drop (length (drop k (xs ++ ys)) - n) k (xs ++ ys)
      ∙ ap (λ i. drop i (xs ++ ys)) (omega (arith, length-drop k (xs ++ ys), length-append xs ys))

  length-take_last-le : (n : ℕ) (xs : List A) → length (take_last n xs) ≤ n
  length-take_last-le n xs = omega (arith, length-drop (length xs - n) xs)

  take_last-all : (n : ℕ) (xs : List A) → length xs ≤ n → take_last n xs ≡ xs
  take_last-all n xs h =
      let none_dropped : ◌≡◌ {A = ℕ} (length xs - n) 0 = omega arith in
      ap (λ i. drop i xs) none_dropped

module _ {A B : Type 0} (f : A → B) where
  map-drop : (n : ℕ) (xs : List A) → map f (drop n xs) ≡ drop n (map f xs)
  map-drop zero xs = refl
  map-drop (suc n) [] = refl
  map-drop (suc n) (x ∷ xs) = map-drop n xs

  length-mapped : (xs : List A) → length (map f xs) ≡ length xs
  length-mapped [] = refl
  length-mapped (x ∷ xs) = ap suc (length-mapped xs)

  map-take_last : (n : ℕ) (xs : List A) → map f (take_last n xs) ≡ take_last n (map f xs)
  map-take_last n xs =
      map-drop (length xs - n) xs ∙ ap (λ k. drop (k - n) (map f xs)) (sym (length-mapped xs))

  map-snoc : (xs : List A) (x : A) → map f (xs ++ (x ∷ [])) ≡ map f xs ++ (f x ∷ [])
  map-snoc [] x = refl
  map-snoc (y ∷ xs) x = ap (◌∷◌ (f y)) (map-snoc xs x)

module _ (redis : RedisLists) (json : Codec Line) (buffer_key : Uuid → Text)
    (settings : BufferSettings) (conv_id : Uuid) where
  open redis use {
    Store, lrange, rpush, ltrim_last, expire, delete, lrange-rpush, lrange-ltrim, lrange-expire,
    lrange-delete,
  }

  abbrev size : ℕ
  size = settings.short_term_buffer_size

  abbrev key : Text
  key = buffer_key conv_id

  abbrev buffer : Store → List Line
  buffer = get_buffer redis json buffer_key settings conv_id

  -- the messages, one after the other
  pub appends : List Line → Store → Store
  appends [] s = s
  appends (m ∷ ms) s = appends ms (append_message redis json buffer_key settings conv_id m s)

  pub append-buffer :
      (m : Line) (s : Store)
      → 0 < size
      → buffer (append_message redis json buffer_key settings conv_id m s)
        ≡ take_last size (buffer s ++ (m ∷ []))
  unfolding append_message get_buffer
  append-buffer m s pos =
      let some_size : (size == 0) ≡ false = ground arith in
      let trimmed : lrange (ltrim_last key size (rpush key (json.dumps m) s)) key
          ≡ take_last size (lrange (rpush key (json.dumps m) s) key) =
        rw (lrange-ltrim key size (rpush key (json.dumps m) s), some_size) refl in
      ap (map json.loads)
        (lrange-expire key _ _ ∙ trimmed ∙ ap (take_last size) (lrange-rpush key (json.dumps m) s))
      ∙ map-take_last json.loads size _
      ∙ ap (take_last size) (
          map-snoc json.loads (lrange s key) (json.dumps m)
          ∙ ap (λ x. map json.loads (lrange s key) ++ (x ∷ [])) (json.loads-dumps m))

  -- A buffer of a positive size that is not over it holds, after any messages, the last `size` of what it held
  -- and of the messages.
  pub buffer-appends :
      (ms : List Line) (s : Store)
      → 0 < size
      → length (buffer s) ≤ size
      → buffer (appends ms s) ≡ take_last size (buffer s ++ ms)
  unfolding appends
  buffer-appends [] s pos few =
      sym (
        take_last-all size (buffer s ++ []) (rw (append-nil (buffer s)) few)
        ∙ append-nil (buffer s))
  buffer-appends (m ∷ ms) s pos few =
      let now = append-buffer m s pos in
      let short = length-take_last-le size (buffer s ++ (m ∷ [])) in
      buffer-appends ms _ pos (rw now short)
      ∙ ap (λ b. take_last size (b ++ ms)) now
      ∙ take_last-append size (buffer s ++ (m ∷ [])) ms
      ∙ ap (take_last size) (append_assoc (buffer s) (m ∷ []) ms)

  lrange-push_all :
      (ms : List Line) (s : Store)
      → lrange (push_all redis json buffer_key settings key ms s) key
        ≡ lrange s key ++ map json.dumps ms
  lrange-push_all [] s = sym (append-nil (lrange s key))
  lrange-push_all (m ∷ ms) s =
      lrange-push_all ms (rpush key (json.dumps m) s)
      ∙ ap (λ xs. xs ++ map json.dumps ms) (lrange-rpush key (json.dumps m) s)
      ∙ append_assoc (lrange s key) (json.dumps m ∷ []) (map json.dumps ms)

  loads-dumps-all : (ms : List Line) → map json.loads (map json.dumps ms) ≡ ms
  loads-dumps-all [] = refl
  loads-dumps-all (m ∷ ms) = rw (json.loads-dumps m, loads-dumps-all ms) refl

  -- For a positive size, a warm-up by some messages leaves the buffer that appending the messages to an empty one would leave, whatever
  -- the buffer held.
  pub warmup-appends :
      (m : Line) (ms : List Line) (s empty : Store)
      → 0 < size
      → buffer empty ≡ []
      → buffer (warmup_from_db redis json buffer_key settings conv_id (m ∷ ms) s)
        ≡ buffer (appends (m ∷ ms) empty)
  unfolding warmup_from_db get_buffer
  warmup-appends m ms s empty pos bare =
      let some_size : (size == 0) ≡ false = ground arith in
      let kept = last_items size (m ∷ ms) in
      let none_held : length (buffer empty) ≤ size = rw bare (omega arith) in
      ap (map json.loads) (
        lrange-expire key _ _
        ∙ lrange-push_all kept (delete key s)
        ∙ ap (λ xs. xs ++ map json.dumps kept) (lrange-delete key s))
      ∙ loads-dumps-all kept
      ∙ rw some_size refl
      ∙ sym (
          buffer-appends (m ∷ ms) empty pos none_held
          ∙ ap (λ b. take_last size (b ++ (m ∷ ms))) bare)
