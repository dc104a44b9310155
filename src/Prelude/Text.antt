-- ===== src/Prelude/Text.antt =====
-- The methods of strings that the source calls, and the regular expression of a SHA-256 digest in
-- lower-case hex.
use Prim.Native.Nat.{ℕ, suc, ◌+◌, ◌*◌, ◌-◌}
use Prim.Native.Char.{Char, code}
use Prim.Native.String.{String, [], ◌∷◌, ◌++◌ as append_text}
use mathlib.Core.Path.{◌≡◌, refl, subst}
use text.Mathlib.TextLemmas.{cons-append}
use text.Mathlib.TextEquality.{eq_iff}
use mathlib.Core.Bool.{Bool, true, false, not, ◌&&◌, ◌||◌}
use mathlib.Core.Logic.{inl, inr}
use text.Mathlib.Text.{◌==◌ as str_eq}
use native.Mathlib.Omega.{arith}
use civitas.Prelude.Tests.{leb, ◌==◌, if◌then◌else◌, Bool-cases}

-- ECMAScript's white space and line terminators.
pub is_space : ℕ → Bool
is_space c =
    (leb 9 c && leb c 13)
    || c == 32
    || c == 160
    || c == 0x1680
    || (leb 0x2000 c && leb c 0x200a)
    || c == 0x2028
    || c == 0x2029
    || c == 0x202f
    || c == 0x205f
    || c == 0x3000
    || c == 0xfeff

abbrev pub is_empty : String → Bool
is_empty [] = true
is_empty (c ∷ s) = false

trim_start : String → String
unfolding is_space
trim_start [] = []
trim_start (c ∷ s) = if is_space (code c) then trim_start s else c ∷ s

trim_end : String → String
unfolding is_space
trim_end [] = []
trim_end (c ∷ s) =
    let rest = trim_end s in if is_space (code c) && is_empty rest then [] else c ∷ rest

unfoldable pub trim : String → String
unfolding trim_start trim_end
trim s = trim_end (trim_start s)

-- `/^[a-f0-9]{64}$/`
pub all_hex : String → Bool
all_hex [] = true
all_hex (c ∷ s) =
    let d = code c in ((leb b'0' d && leb d b'9') || (leb b'a' d && leb d b'f')) && all_hex s

pub count_chars : String → ℕ
count_chars [] = 0
count_chars (c ∷ s) = suc (count_chars s)

unfoldable pub is_sha256_hex : String → Bool
unfolding all_hex count_chars
is_sha256_hex s = all_hex s && count_chars s == 64

-- What `trim` gives is trimmed.
trim_end_idem : (s : String) → trim_end (trim_end s) ≡ trim_end s
unfolding trim_end
trim_end_idem [] = refl
trim_end_idem (c ∷ s) = elim (Bool-cases (is_space (code c) && is_empty (trim_end s))) [
  | inl e ↦ rw e
  | inr e ↦ rw e (rw (trim_end_idem s) (rw e))
]

trim_start-solid : (c : Char) (s : String) → is_space (code c) ≡ false → trim_start (c ∷ s) ≡ c ∷ s
unfolding trim_start
trim_start-solid c s e = rw e

trim_end-solid :
    (c : Char) (s : String) → is_space (code c) ≡ false → trim_end (c ∷ s) ≡ c ∷ trim_end s
unfolding trim_end
trim_end-solid c s e = rw e

trim_start-blank :
    (c : Char) (s : String) → is_space (code c) ≡ true → trim_start (c ∷ s) ≡ trim_start s
unfolding trim_start
trim_start-blank c s e = rw e

trim_start-trim_end_idem :
    (s : String) → trim_start (trim_end (trim_start s)) ≡ trim_end (trim_start s)
trim_start-trim_end_idem [] = unfold trim_start trim_end in refl
trim_start-trim_end_idem (c ∷ s) = elim (Bool-cases (is_space (code c))) [
  | inl e ↦ rw (trim_start-blank c s e) (trim_start-trim_end_idem s)
  | inr e ↦ rw (trim_start-solid c s e, trim_end-solid c s e, trim_start-solid c (trim_end s) e)
]

pub trim_idem : (s : String) → trim (trim s) ≡ trim s
unfolding trim
trim_idem s = rw trim_start-trim_end_idem (trim_end_idem (trim_start s))

-- `String.prototype.endsWith`.
unfoldable pub ends_with : String → String → Bool
ends_with [] t = is_empty t
ends_with (c ∷ s) t = str_eq (c ∷ s) t || ends_with s t

-- The code of a character of the ASCII alphabet in lower case, and of any other character.
abbrev pub lower_code : ℕ → ℕ
lower_code c = if leb b'A' c && leb c b'Z' then c + 32 else c

-- `s.toLowerCase() === t`, for a `t` whose letters are ASCII in lower case other than i and k.
unfoldable pub equals_lowered : String → String → Bool
equals_lowered [] t = is_empty t
equals_lowered (c ∷ s) [] = false
equals_lowered (c ∷ s) (d ∷ t) = lower_code (code c) == code d && equals_lowered s t

-- `String.prototype.startsWith`.
unfoldable pub starts_with : String → String → Bool
starts_with s [] = true
starts_with [] (d ∷ t) = false
starts_with (c ∷ s) (d ∷ t) = code c == code d && starts_with s t

pub starts_with-append : (p s : String) → starts_with (append_text p s) p ≡ true
unfolding starts_with
starts_with-append [] s = refl
starts_with-append (c ∷ p) s = rw (cons-append c p s) (ground (arith, starts_with-append p s))

-- A text that starts with another differs from one that does not.
pub append-differs : (p s t : String) → starts_with t p ≡ false → str_eq (append_text p s) t ≡ false
append-differs p s t h = elim (Bool-cases (str_eq (append_text p s) t)) [
  | inl e ↦
      let same = (eq_iff (append_text p s) t).0 e in
      let yes = subst (λ u. starts_with u p ≡ true) same (starts_with-append p s) in cc
  | inr e ↦ e
]

-- `String.prototype.includes`.
unfoldable pub includes : String → String → Bool
unfolding starts_with
includes [] t = is_empty t
includes (c ∷ s) t = starts_with (c ∷ s) t || includes s t

-- `s.replace(/\/+$/, "")`.
unfoldable pub strip_slashes : String → String
strip_slashes [] = []
strip_slashes (c ∷ s) =
    let rest = strip_slashes s in if code c == b'/' && is_empty rest then [] else c ∷ rest

-- /^\d+$/, and the number that such a text stands for.
abbrev is_digit : Char → Bool
is_digit c = leb b'0' (code c) && leb (code c) b'9'

unfoldable pub is_digits : String → Bool
is_digits [] = false
is_digits (c ∷ s) = let rest = is_digits s in is_digit c && (is_empty s || rest)

digits_from : ℕ → String → ℕ
digits_from n [] = n
digits_from n (c ∷ s) = digits_from (n * 10 + (code c - b'0')) s

unfoldable pub digits_value : String → ℕ
unfolding digits_from
digits_value s = digits_from 0 s

-- A prefix, and after it at least one of the characters A-Z, 0-9 and _, and no other.
abbrev is_capital : Char → Bool
is_capital c = leb b'A' (code c) && leb (code c) b'Z' || is_digit c || code c == b'_'

all_capital : String → Bool
all_capital [] = true
all_capital (c ∷ s) = is_capital c && all_capital s

unfoldable pub capital_rest : String → String → Bool
unfolding all_capital
capital_rest [] s = not (is_empty s) && all_capital s
capital_rest (d ∷ p) [] = false
capital_rest (d ∷ p) (c ∷ s) = code c == code d && capital_rest p s

-- A search for a word in lower-case ASCII that does not heed the case of the text.
starts_lowered : String → String → Bool
starts_lowered s [] = true
starts_lowered [] (d ∷ t) = false
starts_lowered (c ∷ s) (d ∷ t) = lower_code (code c) == code d && starts_lowered s t

unfoldable pub includes_lowered : String → String → Bool
unfolding starts_lowered
includes_lowered [] t = is_empty t
includes_lowered (c ∷ s) t = starts_lowered (c ∷ s) t || includes_lowered s t

-- The letters a-z, the digits and the underscore.
abbrev is_lower : Char → Bool
is_lower c = leb b'a' (code c) && leb (code c) b'z'

abbrev is_word : Char → Bool
is_word c = is_lower c || is_digit c || code c == b'_'

-- /^[a-z0-9][a-z0-9_-]*$/
all_slug : String → Bool
all_slug [] = true
all_slug (c ∷ s) = (is_word c || code c == b'-') && all_slug s

unfoldable pub is_slug : String → Bool
unfolding all_slug
is_slug [] = false
is_slug (c ∷ s) = (is_lower c || is_digit c) && all_slug s

-- /^[a-z][a-z0-9_]*(\.[a-z][a-z0-9_]*)+$/, from the start of a part or from within it, and whether a
-- dot has been passed.
dotted_from : Bool → Bool → String → Bool
dotted_from true dots [] = false
dotted_from false dots [] = dots
dotted_from true dots (c ∷ s) = is_lower c && dotted_from false dots s
dotted_from false dots (c ∷ s) =
    let next = dotted_from (code c == b'.') (dots || code c == b'.') s in
    (is_word c || code c == b'.') && next

unfoldable pub is_dotted_key : String → Bool
unfolding dotted_from
is_dotted_key s = dotted_from true false s
