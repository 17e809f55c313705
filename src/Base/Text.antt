-- ===== src/Base/Text.antt =====
-- Go strings as lists of bytes, with the tests of package strings that the program uses.
use Prim.Native.Nat.{ℕ, ◌+◌, ◌-◌}
use Prim.Native.Char.{code}
use Prim.Native.String.{String}
use mathlib.Core.Path.{◌≡◌, refl}
use mathlib.Core.Logic.{◌↔◌}
use mathlib.Core.Bool.{Bool, true, false, ◌&&◌, ◌||◌}
use mathlib.Core.List.{List, [], ◌∷◌, ◌++◌, map}
use native.Mathlib.Omega.{arith}
use mgate_agent.Base.Tests.{leb, ◌==◌, if◌then◌else◌}

abbrev pub Text : Type 0
Text = List ℕ

-- The bytes of an ASCII literal. `String` has its own `[]` and `∷`.
abbrev pub codes : String → Text
codes String.[] = []
codes (String.◌∷◌ c s) = code c ∷ codes s

-- s == t
unfoldable pub text_eq : Text → Text → Bool
text_eq [] [] = true
text_eq [] (y ∷ ys) = false
text_eq (x ∷ xs) [] = false
text_eq (x ∷ xs) (y ∷ ys) = (x == y) && text_eq xs ys

pub text_eq→eq : (s t : Text) → text_eq s t ≡ true → s ≡ t
unfolding text_eq
text_eq→eq [] [] h = refl
text_eq→eq [] (y ∷ ys) h = cc
text_eq→eq (x ∷ xs) [] h = cc
text_eq→eq (x ∷ xs) (y ∷ ys) h = ground (arith, text_eq→eq xs ys)

pub text_eq_refl : (s : Text) → text_eq s s ≡ true
unfolding text_eq
text_eq_refl [] = refl
text_eq_refl (x ∷ xs) = ground (arith, text_eq_refl xs)

pub text_eq_iff : (s t : Text) → (text_eq s t ≡ true) ↔ (s ≡ t)
text_eq_iff s t = (text_eq→eq s t, λ e. rw e (text_eq_refl t))

-- strings.HasPrefix
unfoldable pub has_prefix : Text → Text → Bool
has_prefix s [] = true
has_prefix [] (p ∷ ps) = false
has_prefix (c ∷ s) (p ∷ ps) = (c == p) && has_prefix s ps

-- strings.Contains
unfoldable pub contains : Text → Text → Bool
unfolding has_prefix
contains [] word = has_prefix [] word
contains (c ∷ s) word = has_prefix (c ∷ s) word || contains s word

-- strings.HasSuffix
unfoldable pub has_suffix : Text → Text → Bool
unfolding text_eq
has_suffix [] suffix = text_eq [] suffix
has_suffix (c ∷ s) suffix = text_eq (c ∷ s) suffix || has_suffix s suffix

-- does the byte stand in the list?
unfoldable pub member : ℕ → Text → Bool
member c [] = false
member c (d ∷ ds) = (c == d) || member c ds

-- strings.ContainsAny
unfoldable pub contains_any : Text → Text → Bool
unfolding member
contains_any [] chars = false
contains_any (c ∷ s) chars = member c chars || contains_any s chars

-- strings.ToLower and strings.ToUpper on ASCII
unfoldable pub lower : ℕ → ℕ
lower c = if leb b'A' c && leb c b'Z' then c + 32 else c

unfoldable pub upper : ℕ → ℕ
upper c = if leb b'a' c && leb c b'z' then c - 32 else c

-- A byte before a text in lower case. U+0130 and U+212A, two and three bytes of UTF-8, are the letters
-- beyond ASCII that have a lower case in ASCII, `i` and `k`.
unfoldable pub lower_before : ℕ → Text → Text
unfolding lower
lower_before c [] = lower c ∷ []
lower_before c (d ∷ []) = if c == 196 && d == 176 then b'i' ∷ [] else lower c ∷ d ∷ []
lower_before c (d ∷ e ∷ s) =
    if c == 196 && d == 176
    then b'i' ∷ e ∷ s
    else if c == 226 && d == 132 && e == 170
    then b'k' ∷ s
    else lower c ∷ d ∷ e ∷ s

-- strings.ToLower, as far as ASCII can tell: the program compares its result with ASCII words only,
-- so the letters whose lower case is beyond ASCII stay
unfoldable pub to_lower : Text → Text
unfolding lower_before
to_lower [] = []
to_lower (c ∷ s) = lower_before c (to_lower s)

unfoldable pub to_upper : Text → Text
unfolding upper
to_upper = map upper

-- the characters of unicode.IsSpace, in UTF-8
abbrev pub spaces : List Text
spaces =
    (9 ∷ [])
    ∷ (10 ∷ [])
    ∷ (11 ∷ [])
    ∷ (12 ∷ [])
    ∷ (13 ∷ [])
    ∷ (32 ∷ [])
    ∷ (194 ∷ 133 ∷ [])
    ∷ (194 ∷ 160 ∷ [])
    ∷ (225 ∷ 154 ∷ 128 ∷ [])
    ∷ (226 ∷ 128 ∷ 128 ∷ [])
    ∷ (226 ∷ 128 ∷ 129 ∷ [])
    ∷ (226 ∷ 128 ∷ 130 ∷ [])
    ∷ (226 ∷ 128 ∷ 131 ∷ [])
    ∷ (226 ∷ 128 ∷ 132 ∷ [])
    ∷ (226 ∷ 128 ∷ 133 ∷ [])
    ∷ (226 ∷ 128 ∷ 134 ∷ [])
    ∷ (226 ∷ 128 ∷ 135 ∷ [])
    ∷ (226 ∷ 128 ∷ 136 ∷ [])
    ∷ (226 ∷ 128 ∷ 137 ∷ [])
    ∷ (226 ∷ 128 ∷ 138 ∷ [])
    ∷ (226 ∷ 128 ∷ 168 ∷ [])
    ∷ (226 ∷ 128 ∷ 169 ∷ [])
    ∷ (226 ∷ 128 ∷ 175 ∷ [])
    ∷ (226 ∷ 129 ∷ 159 ∷ [])
    ∷ (227 ∷ 128 ∷ 128 ∷ [])
    ∷ []

-- whether a space is the text, or begins with it
unfoldable pub is_space : List Text → Text → Bool
unfolding text_eq
is_space [] s = false
is_space (w ∷ ws) s = text_eq w s || is_space ws s

unfoldable pub begins_space : List Text → Text → Bool
unfolding has_prefix
begins_space [] s = false
begins_space (w ∷ ws) s = has_prefix w s || begins_space ws s

-- whether a text is spaces, after the bytes of one that has begun
unfoldable pub blank_after : Text → Text → Bool
unfolding is_space begins_space text_eq
blank_after begun [] = text_eq begun []
blank_after begun (c ∷ s) =
    let now = begun ++ c ∷ [] in
    elim (is_space spaces now) [
      | true ↦ blank_after [] s
      | false ↦ elim (begins_space spaces now) [ true ↦ blank_after now s | false ↦ false ]
    ]

-- strings.TrimSpace(s) == ""
unfoldable pub is_blank : Text → Bool
unfolding blank_after
is_blank = blank_after []
