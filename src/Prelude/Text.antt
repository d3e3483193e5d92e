-- ===== src/Prelude/Text.antt =====
-- Go strings and byte slices as lists of bytes.
use Prim.Native.Nat.{ℕ, ◌+◌}
use Prim.Native.Char.{code}
use Prim.Native.String.{String}
use mathlib.Core.Path.{◌≡◌, refl}
use mathlib.Core.Bool.{Bool, true, false, ◌&&◌, ◌||◌}
use mathlib.Core.List.{List, [], ◌∷◌}
use native.Mathlib.Omega.{arith}
use cubesql_go_driver.Prelude.Tests.{leb, ◌==◌, if◌then◌else◌}

abbrev pub Bytes : Type 0
Bytes = List ℕ

-- The bytes of an ASCII literal of the source.
abbrev pub ascii : String → Bytes
ascii String.[] = []
ascii (String.◌∷◌ c s) = code c ∷ ascii s

abbrev pub is_empty {ℓ} : {A : Type ℓ} → List A → Bool
is_empty [] = true
is_empty (x ∷ xs) = false

-- `strings.IndexByte(s, 0) >= 0`
abbrev pub has_nul : Bytes → Bool
has_nul [] = false
has_nul (b ∷ s) = b == 0 || has_nul s

-- What C reads of `C.CString(s)`, and Go of a `char *`: the bytes before the first NUL.
abbrev pub c_string : Bytes → Bytes
c_string [] = []
c_string (b ∷ s) = let rest = c_string s in if b == 0 then [] else b ∷ rest

-- A text without NUL crosses the boundary whole.
pub c_string-of_no_nul : (s : Bytes) → has_nul s ≡ false → c_string s ≡ s
c_string-of_no_nul [] h = refl
c_string-of_no_nul (b ∷ s) h = ground (arith, c_string-of_no_nul s)

abbrev pub bytes_eq : Bytes → Bytes → Bool
bytes_eq [] [] = true
bytes_eq [] (c ∷ t) = false
bytes_eq (b ∷ s) [] = false
bytes_eq (b ∷ s) (c ∷ t) = b == c && bytes_eq s t

-- `strings.HasPrefix(s, prefix)`
abbrev pub has_prefix : Bytes → Bytes → Bool
has_prefix s [] = true
has_prefix [] (c ∷ t) = false
has_prefix (b ∷ s) (c ∷ t) = b == c && has_prefix s t

-- `strings.Contains(s, substr)`
abbrev pub contains : Bytes → Bytes → Bool
contains [] t = has_prefix [] t
contains (b ∷ s) t = has_prefix (b ∷ s) t || contains s t

-- A byte that is an ASCII letter, in lower case.
abbrev lower_byte : ℕ → ℕ
lower_byte b = if leb b'A' b && leb b b'Z' then b + 32 else b

-- The byte before a text in lower case. Of the runes that are not ASCII only two have an ASCII lower
-- case: U+0130 (bytes 196 176), an i, and U+212A (bytes 226 132 170), a k.
abbrev lower_onto : ℕ → Bytes → Bytes
lower_onto b [] = lower_byte b ∷ []
lower_onto b (c ∷ []) = if b == 196 && c == 176 then b'i' ∷ [] else lower_byte b ∷ c ∷ []
lower_onto b (c ∷ d ∷ s) =
    if b == 196 && c == 176
    then b'i' ∷ d ∷ s
    else if b == 226 && c == 132 && d == 170
    then b'k' ∷ s
    else lower_byte b ∷ c ∷ d ∷ s

-- `strings.ToLower`, for a search of ASCII texts: runes whose lower case is not ASCII stay as they
-- are, since no such text has a byte of one.
abbrev pub to_lower : Bytes → Bytes
to_lower [] = []
to_lower (b ∷ s) = lower_onto b (to_lower s)
