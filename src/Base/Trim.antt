-- ===== src/Base/Trim.antt =====
-- `str.strip`, `str.endswith` and the first line of a text.
use Prim.Native.Nat.{ℕ}
use mathlib.Core.Bool.{Bool, ◌&&◌, ◌||◌}
use mathlib.Core.List.{[], ◌∷◌}
use legal_viet_namese.Base.Tests.{leb, ◌==◌, if◌then◌else◌}
use legal_viet_namese.Base.Lists.{length, take_last}
use legal_viet_namese.Base.Strings.{Text, text_eq}

abbrev pub between : ℕ → ℕ → ℕ → Bool
between lo hi c = leb lo c && leb c hi

-- the code points that `str.isspace` accepts
unfoldable pub is_space : ℕ → Bool
is_space c =
    between 9 13 c
    || (between 28 32 c
        || (c == 133
            || (c == 160
                || (c == 5760
                    || (between 8192 8202 c
                        || (between 8232 8233 c || (c == 8239 || (c == 8287 || c == 12288))))))))

unfoldable pub lstrip : Text → Text
lstrip [] = []
lstrip (c ∷ cs) = if is_space c then lstrip cs else c ∷ cs

-- `c` in front of a text that is stripped on the right
abbrev pub rpush : ℕ → Text → Text
rpush c [] = if is_space c then [] else c ∷ []
rpush c (d ∷ ds) = c ∷ d ∷ ds

unfoldable pub rstrip : Text → Text
rstrip [] = []
rstrip (c ∷ cs) = rpush c (rstrip cs)

unfoldable pub strip : Text → Text
strip t = rstrip (lstrip t)

-- `text.endswith(suffix)`
unfoldable pub ends_with : Text → Text → Bool
ends_with suffix text = text_eq (take_last (length suffix) text) suffix

-- `text.partition("\n")`: the first line, and what stands behind its end
abbrev pub to_line : ℕ → Text × Text → Text × Text
to_line c (line, rest) = (c ∷ line, rest)

unfoldable pub partition_line : Text → Text × Text
partition_line [] = ([], [])
partition_line (c ∷ cs) = if c == 10 then ([], cs) else to_line c (partition_line cs)
