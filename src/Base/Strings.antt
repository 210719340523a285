-- ===== src/Base/Strings.antt =====
-- Whitespace, `str.strip`, `str.lower` for the letters of ASCII, and `in` between texts.
use Prim.Native.Nat.{ℕ, zero, suc, ◌+◌}
use Prim.Native.Char.{Char, code}
use Prim.Native.String.{String, [], ◌∷◌}
use mathlib.Core.Bool.{Bool, true, false, ◌&&◌, ◌||◌}
use mathlib.Core.List.{List}
use mathlib.Core.Option.{Option, none, some}
use text.Mathlib.Text.{◌==◌}
use runtime_assistant_agent.Base.Tests.{leb, nat_beq, if◌then◌else◌}
use runtime_assistant_agent.Base.Lists.{any}

abbrev pub between : ℕ → ℕ → ℕ → Bool
between low high c = leb low c && leb c high

-- `str.isspace` of one character
unfoldable pub is_space : ℕ → Bool
is_space c =
    between 9 13 c
    || between 28 32 c
    || nat_beq c 133
    || nat_beq c 160
    || nat_beq c 5760
    || between 8192 8202 c
    || between 8232 8233 c
    || nat_beq c 8239
    || nat_beq c 8287
    || nat_beq c 12288

-- `not text.strip()`
abbrev pub is_blank : String → Bool
is_blank [] = true
is_blank (c ∷ s) = is_space (code c) && is_blank s

-- `text.lstrip()`
abbrev pub skip_start : String → String
skip_start [] = []
skip_start (c ∷ s) = let rest = skip_start s in if is_space (code c) then rest else c ∷ s

abbrev skip_end : String → String
skip_end [] = []
skip_end (c ∷ s) = let rest = skip_end s in if is_space (code c) && is_blank s then [] else c ∷ rest

-- `text.strip()`
abbrev pub strip_text : String → String
strip_text s = skip_end (skip_start s)

abbrev same_code : ℕ → ℕ
same_code c = c

-- `text.lower()` of one character of ASCII
abbrev pub lower_code : ℕ → ℕ
lower_code c = if between 65 90 c then c + 32 else c

abbrev begins_with : (ℕ → ℕ) → String → String → Bool
begins_with f [] t = true
begins_with f (m ∷ ms) [] = false
begins_with f (m ∷ ms) (c ∷ t) = nat_beq (code m) (f (code c)) && begins_with f ms t

abbrev occurs_in : (ℕ → ℕ) → String → String → Bool
occurs_in f m [] = begins_with f m []
occurs_in f m (c ∷ t) = begins_with f m (c ∷ t) || occurs_in f m t

-- `marker in text`
abbrev pub is_in : String → String → Bool
is_in marker text = occurs_in same_code marker text

-- `marker in text.lower()`
abbrev pub is_in_lower : String → String → Bool
is_in_lower marker text = occurs_in lower_code marker text

-- `any(marker in text for marker in markers)`
abbrev pub has_marker : List String → String → Bool
has_marker markers text = any (λ m. is_in m text) markers

-- what is left of a text behind a prefix
abbrev pub after : String → String → Option String
after [] s = some s
after (p ∷ ps) [] = none
after (p ∷ ps) (c ∷ s) = let rest = after ps s in if nat_beq (code p) (code c) then rest else none

-- a text with another in front of it
abbrev pub prefixed : String → String → String
prefixed [] s = s
prefixed (p ∷ ps) s = p ∷ prefixed ps s

-- `text.startswith(prefix)`
abbrev pub starts_with : String → String → Bool
starts_with text prefix = begins_with same_code prefix text

-- `text.endswith(suffix)`
abbrev pub ends_with : String → String → Bool
ends_with [] suffix = suffix == ""
ends_with (c ∷ s) suffix = (c ∷ s) == suffix || ends_with s suffix

abbrev replace_char : String → String → Char → Char
replace_char (p ∷ ps) (q ∷ qs) c =
    let other = replace_char ps qs c in if nat_beq (code p) (code c) then q else other
replace_char _ _ c = c

-- `text.lower()` for the letters of ASCII
abbrev pub lower : String → String
lower [] = []
lower (c ∷ s) = replace_char "ABCDEFGHIJKLMNOPQRSTUVWXYZ" "abcdefghijklmnopqrstuvwxyz" c ∷ lower s

-- each run of characters that pass a test is replaced by a text; the flag tells that a run is open
abbrev pub collapse : (ℕ → Bool) → String → Bool → String → String
collapse p sep in_run [] = []
collapse p sep in_run (c ∷ s) =
    let inside = p (code c) in
    let rest = collapse p sep inside s in
    if inside then if in_run then rest else prefixed sep rest else c ∷ rest

abbrev pub strip_start_of : (ℕ → Bool) → String → String
strip_start_of p [] = []
strip_start_of p (c ∷ s) = let rest = strip_start_of p s in if p (code c) then rest else c ∷ s

abbrev pub all_chars : (ℕ → Bool) → String → Bool
all_chars p [] = true
all_chars p (c ∷ s) = p (code c) && all_chars p s

abbrev pub strip_end_of : (ℕ → Bool) → String → String
strip_end_of p [] = []
strip_end_of p (c ∷ s) =
    let rest = strip_end_of p s in if p (code c) && all_chars p s then [] else c ∷ rest

-- `len(text)`
abbrev pub text_length : String → ℕ
text_length [] = zero
text_length (c ∷ s) = suc (text_length s)

-- `text[:n]`
abbrev pub text_take : String → ℕ → String
text_take [] n = []
text_take (c ∷ s) zero = []
text_take (c ∷ s) (suc n) = c ∷ text_take s n
