-- ===== src/Store/Lines.antt =====
-- What harness/sessionstore/localfile/codec.go uses of package bytes, on a log of lines.
use mathlib.Core.List.{append_assoc}
use unreal_agent.Base.{
  ℕ, suc, ◌+◌, ◌-◌, ◌≡◌, refl, ap, sym, ◌∙◌, Bool, true, false, Option, none, some, List, [], ◌∷◌,
  ◌++◌, arith, length, length-append, take, All, ◌==◌, nat_eq, if◌then◌else◌, Bool-cases, inl, inr,
}

abbrev pub Bytes : Type 0
Bytes = List ℕ

abbrev pub newline : ℕ
newline = 10

abbrev later_or : Option ℕ → Option ℕ → Option ℕ
later_or (some i) first = some (suc i)
later_or none first = first

-- `bytes.LastIndexByte`
abbrev pub last_index_byte : Bytes → ℕ → Option ℕ
last_index_byte [] b = none
last_index_byte (c ∷ cs) b = later_or (last_index_byte cs b) (if c == b then some 0 else none)

-- `bytes.IndexByte(s, b) >= 0`
abbrev pub has_byte : Bytes → ℕ → Bool
has_byte [] b = false
has_byte (c ∷ cs) b = let rest = has_byte cs b in if c == b then true else rest

abbrev cons_to_first : ℕ → List Bytes → List Bytes
cons_to_first c [] = (c ∷ []) ∷ []
cons_to_first c (line ∷ lines) = (c ∷ line) ∷ lines

-- `bytes.Split` at a separator of one byte.
abbrev pub split : Bytes → ℕ → List Bytes
split [] b = [] ∷ []
split (c ∷ cs) b = let rest = split cs b in if c == b then [] ∷ rest else cons_to_first c rest

-- A file of these lines, each with its newline.
abbrev pub join : List Bytes → Bytes
join [] = []
join (line ∷ lines) = line ++ newline ∷ join lines

abbrev pub IsLine : Bytes → Type 0
IsLine line = has_byte line newline ≡ false

IsLine-cons : (c : ℕ) (cs : Bytes) → IsLine (c ∷ cs) → (c == newline ≡ false) × IsLine cs
IsLine-cons c cs h = elim (Bool-cases (c == newline)) [
  | inl same ↦ cc
  | inr other ↦ (other, ground arith)
]

pub split-line :
    (line rest : Bytes)
    → IsLine line
    → split (line ++ newline ∷ rest) newline ≡ line ∷ split rest newline
split-line [] rest h = refl
split-line (c ∷ cs) rest h =
    let (other, later) = IsLine-cons c cs h in rw (split-line cs rest later, other) refl

split-join : (lines : List Bytes) → All IsLine lines → split (join lines) newline ≡ lines ++ [] ∷ []
split-join [] h = refl
split-join (line ∷ lines) h =
    split-line line (join lines) h.0 ∙ ap (◌∷◌ line) (split-join lines h.1)

pub take-append {ℓ} : {A : Type ℓ} (xs ys : List A) → take (length xs) (xs ++ ys) ≡ xs
take-append [] ys = refl
take-append (x ∷ xs) ys = ap (◌∷◌ x) (take-append xs ys)

abbrev pub drop_last {ℓ} : {A : Type ℓ} → List A → List A
drop_last xs = take (length xs - 1) xs

drop_last-append_one {ℓ} : {A : Type ℓ} (xs : List A) (x : A) → drop_last (xs ++ x ∷ []) ≡ xs
drop_last-append_one xs x =
    let e : length (xs ++ x ∷ []) - 1 ≡ length xs = omega (arith, length-append xs (x ∷ [])) in
    rw e (take-append xs (x ∷ []))

-- The lines of a file that ends with a newline, as `decodeLog` splits it.
pub split-lines :
    (lines : List Bytes) → All IsLine lines → drop_last (split (join lines) newline) ≡ lines
split-lines lines h = rw (split-join lines h) (drop_last-append_one lines [])

pub last_index_byte-torn : (torn : Bytes) → IsLine torn → last_index_byte torn newline ≡ none
last_index_byte-torn [] h = refl
last_index_byte-torn (c ∷ cs) h =
    let (other, later) = IsLine-cons c cs h in rw (last_index_byte-torn cs later, other) refl

last_index_byte-append :
    (xs ys : Bytes) (b i : ℕ)
    → last_index_byte ys b ≡ some i
    → last_index_byte (xs ++ ys) b ≡ some (length xs + i)
last_index_byte-append [] ys b i h = h ∙ ap some (omega arith)
last_index_byte-append (x ∷ xs) ys b i h =
    rw (last_index_byte-append xs ys b i h) (ap some (omega arith))

-- The last newline of a file is the one that ends its last line, whatever is torn behind it.
pub last_index_byte-join :
    (line : Bytes) (lines : List Bytes) (torn : Bytes)
    → IsLine torn
    → (i : ℕ) × (last_index_byte (join (line ∷ lines) ++ torn) newline ≡ some i)
      × (suc i ≡ length (join (line ∷ lines)))
last_index_byte-join line [] torn h = (
  length line + 0,
  ap (λ s. last_index_byte s newline) (append_assoc line (newline ∷ []) torn)
      ∙ last_index_byte-append line (newline ∷ torn) newline 0
          (rw (last_index_byte-torn torn h) refl),
  omega (arith, length-append line (newline ∷ [])),
)
last_index_byte-join line (next ∷ lines) torn h =
    let (i, found, count) = last_index_byte-join next lines torn h in
    (
      length line + suc i,
      ap (λ s. last_index_byte s newline) (append_assoc line (newline ∷ join (next ∷ lines)) torn)
          ∙ last_index_byte-append line (newline ∷ (join (next ∷ lines) ++ torn)) newline (suc i)
              (rw found refl),
      omega (arith, length-append line (newline ∷ join (next ∷ lines))),
    )

pub join-append_one :
    (lines : List Bytes) (line : Bytes)
    → join (lines ++ line ∷ []) ≡ join lines ++ (line ++ newline ∷ [])
join-append_one [] line = refl
join-append_one (first ∷ lines) line =
    ap (λ s. first ++ newline ∷ s) (join-append_one lines line)
    ∙ sym (append_assoc first (newline ∷ join lines) (line ++ newline ∷ []))

pub All-append_one {ℓ κ} :
    {A : Type ℓ} (P : A → Type κ) (xs : List A) (x : A) → All P xs → P x → All P (xs ++ x ∷ [])
All-append_one P [] x h p = (p, tt)
All-append_one P (y ∷ xs) x h p = (h.0, All-append_one P xs x h.1 p)
