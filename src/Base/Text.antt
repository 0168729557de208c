-- ===== src/Base/Text.antt =====
-- The methods of `str` that the program calls, character by character.
use Prim.Native.Char.{Char, code}
use Prim.Native.Nat.{ℕ}
use Prim.Native.String.{String, ◌++◌ as ◌<>◌}
use mathlib.Core.Bool.{Bool, true, false, ◌&&◌, ◌||◌}
use mathlib.Core.Option.{Option, none, some}
use mathlib.Core.List.{List, [], ◌∷◌}
use package.kubernetes_identity_fede.Base.Tests.{if◌then◌else◌, leb, nat_eq}

-- `str::is_empty`
abbrev pub is_empty : String → Bool
is_empty String.[] = true
is_empty (String.◌∷◌ c s) = false

-- `str::strip_prefix`: the rest of the text, if it starts with the prefix.
unfoldable pub strip_prefix : String → String → Option String
strip_prefix String.[] s = some s
strip_prefix (String.◌∷◌ p ps) String.[] = none
strip_prefix (String.◌∷◌ p ps) (String.◌∷◌ c s) =
    if nat_eq (code p) (code c) then strip_prefix ps s else none

-- `char::is_whitespace`: the Unicode property White_Space.
unfoldable pub is_whitespace : Char → Bool
is_whitespace ch =
    let c = code ch in
    (leb 0x9 c && leb c 0xd)
    || (nat_eq c 0x20
        || (nat_eq c 0x85
            || (nat_eq c 0xa0
                || (nat_eq c 0x1680
                    || ((leb 0x2000 c && leb c 0x200a)
                        || (nat_eq c 0x2028
                            || (nat_eq c 0x2029
                                || (nat_eq c 0x202f || (nat_eq c 0x205f || nat_eq c 0x3000)))))))))

module _ (p : Char → Bool) where
  -- `str::trim_start_matches`
  unfoldable pub trim_start_matches : String → String
  trim_start_matches String.[] = String.[]
  trim_start_matches (String.◌∷◌ c s) =
      let rest = trim_start_matches s in if p c then rest else String.◌∷◌ c s

  -- `str::trim_end_matches`
  unfoldable pub trim_end_matches : String → String
  trim_end_matches String.[] = String.[]
  trim_end_matches (String.◌∷◌ c s) =
      let rest = trim_end_matches s in if is_empty rest && p c then String.[] else String.◌∷◌ c rest

-- `str::trim`
unfoldable pub trim : String → String
unfolding trim_start_matches trim_end_matches is_whitespace
trim s = trim_end_matches is_whitespace (trim_start_matches is_whitespace s)

-- `str::split` at a character: the first part, and the parts that follow.
unfoldable pub split_first : ℕ → String → String × List String
split_first sep String.[] = (String.[], [])
split_first sep (String.◌∷◌ c s) =
    let (part, parts) = split_first sep s in
    if nat_eq (code c) sep then (String.[], part ∷ parts) else (String.◌∷◌ c part, parts)

unfoldable pub split : ℕ → String → List String
unfolding split_first
split sep s = let (part, parts) = split_first sep s in part ∷ parts

-- `join`
unfoldable pub join : String → List String → String
join sep [] = ""
join sep (s ∷ []) = s
join sep (s ∷ t ∷ ts) = s <> (sep <> join sep (t ∷ ts))

-- `strip_suffix("\r")`, or the text itself
unfoldable pub strip_cr : String → String
strip_cr String.[] = String.[]
strip_cr (String.◌∷◌ c String.[]) =
    if nat_eq (code c) 0xd then String.[] else String.◌∷◌ c String.[]
strip_cr (String.◌∷◌ c (String.◌∷◌ d s)) = String.◌∷◌ c (strip_cr (String.◌∷◌ d s))

-- The parts between line feeds: what stands behind the last one is a line unless it is empty.
abbrev last_line : String → List String
last_line s = if is_empty s then [] else s ∷ []

unfoldable pub lines_of : List String → List String
unfolding strip_cr
lines_of [] = []
lines_of (s ∷ []) = last_line s
lines_of (s ∷ t ∷ ts) = strip_cr s ∷ lines_of (t ∷ ts)

-- `str::lines`
unfoldable pub lines : String → List String
unfolding split lines_of
lines s = lines_of (split b'\n' s)
