-- ===== src/Coordinator/Load.antt =====
-- `loadHistory` of harness/coordinator/loop.go: a session's items are read a page at a time.
use unreal_agent.Base.{
  ℕ, zero, suc, ◌+◌, ◌-◌, ◌^◌, ◌≤◌, ◌<◌, ◌≡◌, refl, ap, sym, ◌∙◌, false, not, List, [], ◌∷◌, ◌++◌,
  arith, leb, ltb, min, length, take, drop, Result, ok, err, ◌>>=◌, with_error, pos, if◌then◌else◌,
  Bool-cases, inl, inr, take-append-drop, drop_all, drop-drop, length-drop,
}
use unreal_agent.Inbox.{Json}
use unreal_agent.Store.{Item, Page}
use unreal_agent.Store.State.{StoredState}
use unreal_agent.Store.Paging.{PageError, page, page_lem, Counts, IsHistory-Counts}
use unreal_agent.Store.History.{blank_head}
use unreal_agent.Store.Commands.{Reachable}
use unreal_agent.Store.Forks.{Reachable-IsConsistent}

pub data LoadError (E : Type 0) : Type 0 where
  unreadable : PageError → LoadError E
  not_restored : E → LoadError E
  did_not_advance : LoadError E
  out_of_fuel : LoadError E

abbrev pub history_page_size : ℕ
history_page_size = 256

module _ {S E : Type 0} (restore_item : S → Item → Result E S) where
  -- The loop over a page's items.
  unfoldable pub restore_items : S → List Item → Result E S
  restore_items s [] = ok s
  restore_items s (item ∷ items) = do s' ← restore_item s item; restore_items s' items

  -- The loop over the pages; `items_after` is the store's `Items` at this session and page size.
  pub load_pages : (ℕ → Result PageError Page) → ℕ → ℕ → S → Result (LoadError E) S
  load_pages items_after zero after s = err out_of_fuel
  load_pages items_after (suc fuel) after s = do
    p ← with_error unreadable (items_after after)
    s' ← with_error not_restored (restore_items s p.items)
    let rest = load_pages items_after fuel p.next_after s'
    (if not p.more then ok s' else if leb p.next_after after then err did_not_advance else rest)

  pub load_history : ℕ → List Item → S → Result (LoadError E) S
  load_history fuel items s =
      load_pages (λ after. page items after (pos history_page_size)) fuel 0 s

  restore_items-append :
      (xs ys : List Item) (s : S)
      → restore_items s (xs ++ ys) ≡ (restore_items s xs >>= λ t. restore_items t ys)
  unfolding restore_items
  restore_items-append [] ys s = refl
  restore_items-append (x ∷ xs) ys s = step (restore_items-append xs ys) (restore_item s x)
    where
      step :
          ((t : S) → restore_items t (xs ++ ys) ≡ (restore_items t xs >>= λ u. restore_items u ys))
          → (r : Result E S)
          → (r >>= λ t. restore_items t (xs ++ ys))
            ≡ ((r >>= λ t. restore_items t xs) >>= λ t. restore_items t ys)
      step ih (ok t) = ih t
      step ih (err e) = refl

  module _ (items : List Item) (k : ℕ) (numbered : Counts 0 items) (short : length items < 2 ^ 63)
      (small : suc k < 2 ^ 63) where
    pages : ℕ → Result PageError Page
    pages after = page items after (pos (suc k))

    -- What follows a page that is restored as `r`.
    load_pages-rest :
        (fuel after : ℕ) (s : S)
        → after ≤ length items
        → length items - after < fuel
        → load_pages pages fuel after s
          ≡ with_error not_restored (restore_items s (drop after items))
    unfolding load_pages pages restore_items
    load_pages-rest zero after s within enough = absurd (omega arith)
    load_pages-rest (suc fuel) after s within enough =
        rw (page_lem items after k numbered short within small)
          (rw split (go (load_pages-rest fuel) (restore_items s (take (suc k) behind))))
      where
        behind : List Item
        behind = drop after items

        split :
            restore_items s (drop after items)
            ≡ (restore_items s (take (suc k) behind) >>= λ t. restore_items t (drop (suc k) behind))
        split =
            ap (restore_items s) (sym (take-append-drop (suc k) behind))
            ∙ restore_items-append (take (suc k) behind) (drop (suc k) behind) s

        go :
            ((next : ℕ) (t : S)
              → next ≤ length items
              → length items - next < fuel
              → load_pages pages fuel next t
                ≡ with_error not_restored (restore_items t (drop next items)))
            → (r : Result E S)
            → (with_error not_restored r >>= λ t.
                (if not (ltb (after + suc k) (length items))
                  then ok t
                  else if leb (min (after + suc k) (length items)) after
                  then err did_not_advance
                  else load_pages pages fuel (min (after + suc k) (length items)) t))
              ≡ with_error not_restored (r >>= λ t. restore_items t (drop (suc k) behind))
        go ih (err e) = refl
        go ih (ok t) = elim (Bool-cases (ltb (after + suc k) (length items))) [
          | inr last ↦ rw (last, drop_all (suc k) behind (ground (arith, length-drop after items)))
          | inl more ↦
              let next : min (after + suc k) (length items) ≡ after + suc k = ground arith in
              let advanced : leb (after + suc k) after ≡ false = ground arith in
              rw (more, next, advanced, drop-drop (suc k) after items)
                (ih (after + suc k) t (ground arith) (ground arith))
        ]

  -- Loading the history of any session that the store can hold restores all of its items, in order,
  -- and fails only where restoring an item fails: more rounds than there are items are enough.
  pub load_history-restore_items :
      (json : Json) {stored : StoredState} (fuel : ℕ) (s : S)
      → Reachable json stored
      → length stored.items < 2 ^ 63
      → length stored.items < fuel
      → load_history fuel stored.items s ≡ with_error not_restored (restore_items s stored.items)
  unfolding load_history pages
  load_history-restore_items json {stored} fuel s r short enough =
      load_pages-rest stored.items 255
        (IsHistory-Counts blank_head stored.items (Reachable-IsConsistent json r).history
          (omega arith))
        short (omega arith) fuel 0 s (omega arith) (omega arith)
