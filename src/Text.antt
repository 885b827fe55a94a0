-- ===== src/Text.antt =====
-- The functions of Go's package strings that the operator calls. A text is a native `String`: on
-- valid UTF-8 these functions give the same answer by characters as by bytes.
pub mod Laws
pub mod Split
use Prim.Native.Char.{code, Char}
use Prim.Native.String.{String, [], ◌∷◌}
use mathlib.Core.List
use Prim.Native.String.{◌++◌}
use s3_operator.Prelude.{ℕ, Bool, true, false, ◌&&◌, ◌||◌, ◌==◌, ◌=ℕ◌, leb, List, if◌then◌else◌}

unfoldable pub has_prefix : String → String → Bool
has_prefix s [] = true
has_prefix [] (c ∷ p) = false
has_prefix (d ∷ s) (c ∷ p) = (code d =ℕ code c) && has_prefix s p

unfoldable pub has_suffix : String → String → Bool
has_suffix [] p = [] == p
has_suffix (c ∷ s) p = (c ∷ s) == p || has_suffix s p

-- `strings.Contains`
unfoldable pub has_infix : String → String → Bool
unfolding has_prefix
has_infix [] p = has_prefix [] p
has_infix (c ∷ s) p = has_prefix (c ∷ s) p || has_infix s p

drop_prefix : String → String → String
drop_prefix s [] = s
drop_prefix [] (c ∷ p) = []
drop_prefix (d ∷ s) (c ∷ p) = drop_prefix s p

unfoldable pub trim_prefix : String → String → String
unfolding has_prefix drop_prefix
trim_prefix s p = if has_prefix s p then drop_prefix s p else s

unfoldable pub trim_suffix : String → String → String
trim_suffix [] p = []
trim_suffix (c ∷ s) p = if (c ∷ s) == p then [] else c ∷ trim_suffix s p

abbrev push : Char → List String → List String
push c List.[] = List.◌∷◌ (c ∷ []) List.[]
push c (List.◌∷◌ x xs) = List.◌∷◌ (c ∷ x) xs

-- `strings.Split` at a separator of one character, given by its code. The result is never empty.
unfoldable pub split : String → ℕ → List String
split [] sep = List.◌∷◌ [] List.[]
split (c ∷ s) sep =
    let rest = split s sep in if code c =ℕ sep then List.◌∷◌ [] rest else push c rest

-- `unicode.IsSpace`, of a code point.
unfoldable pub is_space : ℕ → Bool
is_space n =
    (leb 9 n && leb n 13)
    || n =ℕ 32
    || n =ℕ 133
    || n =ℕ 160
    || n =ℕ 5760
    || (leb 8192 n && leb n 8202)
    || n =ℕ 8232
    || n =ℕ 8233
    || n =ℕ 8239
    || n =ℕ 8287
    || n =ℕ 12288

unfoldable pub trim_left_space : String → String
trim_left_space [] = []
trim_left_space (c ∷ s) = let rest = trim_left_space s in if is_space (code c) then rest else c ∷ s

unfoldable pub trim_right_space : String → String
trim_right_space [] = []
trim_right_space (c ∷ s) =
    let rest = trim_right_space s in if is_space (code c) && rest == [] then [] else c ∷ rest

-- `strings.TrimSpace`
unfoldable pub trim_space : String → String
trim_space s = trim_left_space (trim_right_space s)

-- `strings.Join`
unfoldable pub join : List String → String → String
join List.[] sep = []
join (List.◌∷◌ s List.[]) sep = s
join (List.◌∷◌ s (List.◌∷◌ t rest)) sep = s ++ (sep ++ join (List.◌∷◌ t rest) sep)
