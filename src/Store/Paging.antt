-- ===== src/Store/Paging.antt =====
-- `Items` of harness/sessionstore/localfile/store.go: the items behind a sequence, a page at a time.
use unreal_agent.Base.{
  ℕ, zero, suc, ◌+◌, ◌-◌, ◌%◌, ◌^◌, ◌≤◌, ◌<◌, ◌≡◌, refl, ap, ◌∙◌, subst, false, Option, none, some,
  List, [], ◌∷◌, arith, min, ltb, length, take, drop, get_last?, Result, ok, reject_if, ◌>>◌, ℤ,
  pos, pos_part, leb_ℤ, length-drop,
}
use unreal_agent.Store.{Item, Page}
use unreal_agent.Store.Head.{SessionHead}
use unreal_agent.Store.State.{inherit_head}
use unreal_agent.Store.History.{IsHistory}

pub data PageError : Type 0 where
  nonpositive_limit : PageError

-- `items[len(items)-1].Sequence`, or `after` where there is no item.
abbrev last_sequence : Option Item → ℕ → ℕ
last_sequence none after = after
last_sequence (some item) after = item.sequence

-- The page of the items that `readState` gives; `start` and `end` are uint64 numbers.
unfoldable pub page : List Item → ℕ → ℤ → Result PageError Page
page items after limit = do
  reject_if (leb_ℤ limit (pos 0)) nonpositive_limit
  let start = min after (length items)
  let end = min ((start + pos_part limit) % 2 ^ 64) (length items)
  let found = take (end - start) (drop start items)
  ok (record {
    items = found;
    next_after = last_sequence (get_last? found) after;
    more = ltb end (length items);
  })

-- The sequence numbers count the items from 1.
abbrev pub Counts : ℕ → List Item → Type 0
Counts n [] = Unit {0}
Counts n (item ∷ items) = (item.sequence ≡ suc n) × Counts (suc n) items

inherit_head-item_sequence :
    (head : SessionHead) (item : Item) → (inherit_head head item).item_sequence ≡ item.sequence
unfolding inherit_head
inherit_head-item_sequence head item = ground arith

pub IsHistory-Counts :
    (head : SessionHead) (items : List Item)
    → IsHistory head items
    → head.item_sequence + length items < 2 ^ 64
    → Counts head.item_sequence items
IsHistory-Counts head [] h bound = tt
IsHistory-Counts head (item ∷ items) h bound =
    let (numbered, _) = h.0 in
    let e : item.sequence ≡ suc head.item_sequence = omega arith in
    let next = inherit_head-item_sequence head item ∙ e in
    (
      e,
      subst (λ n. Counts n items) next
          (IsHistory-Counts (inherit_head head item) items h.1 (omega (arith, next))),
    )

Counts-drop :
    (n a : ℕ) (items : List Item)
    → a ≤ length items
    → Counts n items
    → Counts (n + a) (drop a items)
Counts-drop n zero items h c = subst (λ k. Counts k items) (omega arith) c
Counts-drop n (suc a) [] h c = absurd (omega arith)
Counts-drop n (suc a) (item ∷ items) h c =
    subst (λ k. Counts k (drop a items)) (omega arith)
      (Counts-drop (suc n) a items (omega arith) c.1)

last-take :
    (n m : ℕ) (items : List Item)
    → Counts n items
    → last_sequence (get_last? (take m items)) n ≡ n + min m (length items)
last-take n zero items c = omega arith
last-take n (suc m) [] c = omega arith
last-take n (suc zero) (item ∷ items) c = omega arith
last-take n (suc (suc m)) (item ∷ []) c = omega arith
last-take n (suc (suc m)) (item ∷ next ∷ items) c =
    later (get_last? (next ∷ take m items)) refl (last-take (suc n) (suc m) (next ∷ items) c.1)
  where
    later :
        (o : Option Item)
        → get_last? (next ∷ take m items) ≡ o
        → last_sequence o (suc n) ≡ suc n + min (suc m) (length (next ∷ items))
        → last_sequence o n ≡ n + min (suc (suc m)) (length (item ∷ next ∷ items))
    later none e h = omega arith
    later (some x) e h = omega arith

take-min {ℓ} : {A : Type ℓ} (m : ℕ) (xs : List A) → take (min m (length xs)) xs ≡ take m xs
take-min zero xs = let e : min zero (length xs) ≡ zero = omega arith in rw e
take-min (suc m) [] = let e : min (suc m) 0 ≡ zero = omega arith in rw e
take-min (suc m) (x ∷ xs) =
    let e : min (suc m) (suc (length xs)) ≡ suc (min m (length xs)) = omega arith in
    rw e (ap (◌∷◌ x) (take-min m xs))

-- A page of items that are numbered from 1: the next `limit` items behind `after`, the number of
-- the last of them, and whether there are more.
pub page_lem :
    (items : List Item) (after k : ℕ)
    → Counts 0 items
    → length items < 2 ^ 63
    → after ≤ length items
    → suc k < 2 ^ 63
    → page items after (pos (suc k))
      ≡ ok (record {
        items = take (suc k) (drop after items);
        next_after = min (after + suc k) (length items);
        more = ltb (after + suc k) (length items);
      })
unfolding page
page_lem items after k c short within small =
    let first : min after (length items) ≡ after = omega arith in
    let no_wrap : (after + suc k) % 2 ^ 64 ≡ after + suc k = omega arith in
    let positive : leb_ℤ (pos (suc k)) (pos 0) ≡ false = ground arith in
    rw (first, no_wrap, positive)
      (λ i. ok (record { items = found i; next_after = last i; more = rest i }))
  where
    behind : List Item
    behind = drop after items

    found : take (min (after + suc k) (length items) - after) behind ≡ take (suc k) behind
    found =
        let e : min (after + suc k) (length items) - after ≡ min (suc k) (length behind) =
          omega (arith, length-drop after items) in
        rw e (take-min (suc k) behind)

    numbered : Counts after behind
    numbered = subst (λ n. Counts n behind) (omega arith) (Counts-drop 0 after items within c)

    last :
        last_sequence (get_last? (take (min (after + suc k) (length items) - after) behind)) after
        ≡ min (after + suc k) (length items)
    last =
        rw found (last-take after (suc k) behind numbered ∙ omega (arith, length-drop after items))

    rest :
        ltb (min (after + suc k) (length items)) (length items) ≡ ltb (after + suc k) (length items)
    rest = ground arith
