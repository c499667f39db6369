-- ===== src/Text.antt =====
-- What the program uses of Go's `strings` and of an optional JSON text (`jsontext.Value`).
use Prim.Native.Char.{code, Char}
use unreal_agent.Base.{
  ℕ, String, Bool, true, ◌&&◌, ◌||◌, Option, none, some, leb, ◌==◌, nat_eq, if◌then◌else◌,
}

-- `unicode.IsSpace`
pub is_space : ℕ → Bool
is_space c =
    (leb 9 c && leb c 13)
    || c == 0x20
    || c == 0x85
    || c == 0xa0
    || c == 0x1680
    || (leb 0x2000 c && leb c 0x200a)
    || c == 0x2028
    || c == 0x2029
    || c == 0x202f
    || c == 0x205f
    || c == 0x3000

-- `strings.TrimSpace(s) == ""`
unfoldable pub is_blank : String → Bool
unfolding is_space
is_blank String.[] = true
is_blank (String.◌∷◌ c s) = is_space (code c) && is_blank s

-- The bytes of a `jsontext.Value`; `nil` has none.
abbrev pub raw : Option String → String
raw none = ""
raw (some s) = s

trim_left : String → String
unfolding is_space
trim_left String.[] = String.[]
trim_left (String.◌∷◌ c s) =
    let rest = trim_left s in if is_space (code c) then rest else String.◌∷◌ c s

abbrev cons_unless_blank : Char → String → String
cons_unless_blank c String.[] = if is_space (code c) then String.[] else String.◌∷◌ c String.[]
cons_unless_blank c s = String.◌∷◌ c s

trim_right : String → String
unfolding is_space
trim_right String.[] = String.[]
trim_right (String.◌∷◌ c s) = cons_unless_blank c (trim_right s)

-- `strings.TrimSpace`
unfoldable pub trim_space : String → String
unfolding trim_left trim_right
trim_space s = trim_right (trim_left s)
