-- ===== src/Context/Cutoff.antt =====
-- Where `compactionCutoff` of harness/contextbuilder/compaction.go cuts a history.
use unreal_agent.Base.{
  ℕ, zero, suc, ◌≤◌, ◌<◌, ◌≡◌, refl, ap, sym, ◌∙◌, Bool, true, false, ◌&&◌, some, List, [], ◌∷◌,
  ◌++◌, arith, length, length-take, get_elem?, get_last?, take, if◌then◌else◌, ℤ, pos, negsuc, ◌-ℤ◌,
  wrap64, leb_ℤ, wrap64_small,
}
use unreal_agent.Context.Builder.{PrefixToken, Builder}
use unreal_agent.Context.Compaction.{
  compaction_cutoff, cutoff_of, cutoff_loop, retained, compaction_retained_tokens, keep_or_stop,
}

module _ {ℓ} {A : Type ℓ} (p : A → Bool) where
  abbrev pub all : List A → Bool
  all [] = true
  all (x ∷ xs) = p x && all xs

  -- The first position from which on all elements pass.
  abbrev pub passing_from : List A → ℕ
  passing_from [] = 0
  passing_from (x ∷ xs) = if all (x ∷ xs) then 0 else suc (passing_from xs)

  all-append_one : (xs : List A) (x : A) → all (xs ++ x ∷ []) ≡ (all xs && p x)
  all-append_one [] x = ground arith
  all-append_one (y ∷ xs) x = ground (arith, all-append_one xs x)

  passing_from-append_one :
      (xs : List A) (x : A)
      → passing_from (xs ++ x ∷ []) ≡ (if p x then passing_from xs else suc (length xs))
  passing_from-append_one [] x = ground arith
  passing_from-append_one (y ∷ xs) x =
      ground (arith, all-append_one xs x, passing_from-append_one xs x)

  passing_from-le : (xs : List A) → passing_from xs ≤ length xs
  passing_from-le [] = omega arith
  passing_from-le (x ∷ xs) = ground (arith, passing_from-le xs)

take-suc {ℓ} :
    {A : Type ℓ} (xs : List A) (n : ℕ) (x : A)
    → get_elem? xs n ≡ some x
    → take (suc n) xs ≡ take n xs ++ x ∷ []
take-suc [] n x h = cc
take-suc (y ∷ xs) zero x h = cc
take-suc (y ∷ xs) (suc n) x h = ap (λ ys. y ∷ ys) (take-suc xs n x h)

get_elem?-last {ℓ} :
    {A : Type ℓ} (x : A) (xs : List A) → get_elem? (x ∷ xs) (length xs) ≡ get_last? (x ∷ xs)
get_elem?-last x [] = refl
get_elem?-last x (y ∷ xs) = get_elem?-last y xs

get_elem?-within {ℓ} :
    {A : Type ℓ} (xs : List A) (n : ℕ) → n < length xs → (x : A) × (get_elem? xs n ≡ some x)
get_elem?-within [] n h = absurd (omega arith)
get_elem?-within (x ∷ xs) zero h = (x, refl)
get_elem?-within (x ∷ xs) (suc n) h = get_elem?-within xs n (omega arith)

take_all {ℓ} : {A : Type ℓ} (xs : List A) → take (length xs) xs ≡ xs
take_all [] = refl
take_all (x ∷ xs) = ap (λ ys. x ∷ ys) (take_all xs)

cutoff_loop-suc :
    (latest : ℤ) (ts : List PrefixToken) (n start : ℕ) (t : PrefixToken)
    → get_elem? ts n ≡ some t
    → cutoff_loop latest ts (suc n) start
      ≡ (if retained latest t then cutoff_loop latest ts n n else start)
unfolding cutoff_loop
cutoff_loop-suc latest ts n start t there =
    ap (λ o. keep_or_stop o latest (cutoff_loop latest ts n n) start) there

cutoff_loop_lem :
    (latest : ℤ) (ts : List PrefixToken) (n : ℕ)
    → n ≤ length ts
    → cutoff_loop latest ts n n ≡ passing_from (retained latest) (take n ts)
unfolding cutoff_loop
cutoff_loop_lem latest ts zero h = refl
cutoff_loop_lem latest ts (suc n) h =
    let (t, there) = get_elem?-within ts n (omega arith) in
    let as_long : length (take n ts) ≡ n = omega (arith, length-take n ts) in
    cutoff_loop-suc latest ts n (suc n) t there
    ∙ rw (cutoff_loop_lem latest ts n (omega arith)) refl
    ∙ ap (λ m. if retained latest t then passing_from (retained latest) (take n ts) else suc m)
        (sym as_long)
    ∙ sym (passing_from-append_one (retained latest) (take n ts) t)
    ∙ ap (passing_from (retained latest)) (sym (take-suc ts n t there))

sub_same : (z : ℤ) → (z -ℤ z) ≡ pos 0
unfolding ◌-ℤ◌
sub_same (pos n) = ground arith
sub_same (negsuc n) = ground arith

latest-retained : (t : PrefixToken) → retained t.tokens t ≡ true
latest-retained t =
    ap (λ z. leb_ℤ (wrap64 z) compaction_retained_tokens) (sub_same t.tokens)
    ∙ ap (λ z. leb_ℤ z compaction_retained_tokens)
        (wrap64_small (pos 0) (omega arith) (omega arith))

cutoff_of_lem :
    (last : PrefixToken) (ts : List PrefixToken)
    → get_last? ts ≡ some last
    → leb_ℤ last.tokens compaction_retained_tokens ≡ false
    → (cutoff_of (some last) ts ≡ some (passing_from (retained last.tokens) ts))
      × (passing_from (retained last.tokens) ts < length ts)
unfolding cutoff_of
cutoff_of_lem last [] h over = cc
cutoff_of_lem last (x ∷ xs) h over =
    let there = get_elem?-last x xs ∙ h in
    let found : passing_from (retained last.tokens) (x ∷ xs)
        ≡ passing_from (retained last.tokens) (take (length xs) (x ∷ xs)) =
      ap (passing_from (retained last.tokens))
        (sym (take_all (x ∷ xs)) ∙ take-suc (x ∷ xs) (length xs) last there)
      ∙ passing_from-append_one (retained last.tokens) (take (length xs) (x ∷ xs)) last
      ∙ rw (latest-retained last) refl in
    (
      rw over (
          ap some (
            cutoff_loop-suc last.tokens (x ∷ xs) (length xs) 0 last there
            ∙ rw (latest-retained last)
                (cutoff_loop_lem last.tokens (x ∷ xs) (length xs) (omega arith) ∙ sym found))),
      omega (
        arith,
        found,
        passing_from-le (retained last.tokens) (take (length xs) (x ∷ xs)),
        length-take (length xs) (x ∷ xs),
      ),
    )

-- Where the last checkpoint is over the budget, a cutoff is found: it is the first checkpoint from
-- which on all are within the budget of the last one, and it is one of the checkpoints.
pub compaction_cutoff_lem :
    (b : Builder) (last : PrefixToken)
    → get_last? b.prefix_tokens ≡ some last
    → leb_ℤ last.tokens compaction_retained_tokens ≡ false
    → (compaction_cutoff b ≡ some (passing_from (retained last.tokens) b.prefix_tokens))
      × (passing_from (retained last.tokens) b.prefix_tokens < length b.prefix_tokens)
unfolding compaction_cutoff
compaction_cutoff_lem b last h over =
    let (found, within) = cutoff_of_lem last b.prefix_tokens h over in
    (ap (λ o. cutoff_of o b.prefix_tokens) h ∙ found, within)
