-- ===== src/Store/Forks.antt =====
-- A fork inherits a prefix of its parent's items, without their operations, and starts anew behind
-- them (harness/sessionstore/localfile/state.go).
use unreal_agent.Base.{
  ℕ, ◌≡◌, refl, ap, sym, ◌∙◌, subst, String, List, [], ◌∷◌, ◌++◌, map, take, ◌==◌, nat_eq,
  string_eq, Holds, Holds-ok, Bool-cases, inl, inr,
}
use mathlib.Core.List.{append-nil, append_assoc}
use unreal_agent.Inbox.{Json}
use unreal_agent.Store.{Item, Fork}
use unreal_agent.Store.Head.{call_key_eq}
use unreal_agent.Store.State.{
  StoredState, new_stored_state, fork_stored_state, inherit_items, inherit_item, inherit_head,
  append_fork, find_boundary,
}
use unreal_agent.Store.History.{
  item_part, blank_head, replay, IsHistory, stripped, inherit_head-item_part, IsHistory-take,
  IsHistory-stripped, replay-stripped,
}
use unreal_agent.Store.Commands.{Reachable}
use unreal_agent.Store.Invariant.{
  IsConsistent, extend-IsConsistent, created-IsConsistent, apply-IsConsistent,
}

pub inherit_items-items :
    (s : StoredState) (items : List Item)
    → (inherit_items s items).items ≡ s.items ++ map stripped items
unfolding inherit_items inherit_item
inherit_items-items s [] = sym (append-nil s.items)
inherit_items-items s (i ∷ items) =
    inherit_items-items (inherit_item s i) items
    ∙ append_assoc s.items (stripped i ∷ []) (map stripped items)

inherit_items-item_part :
    (s : StoredState) (items : List Item)
    → item_part (inherit_items s items).head ≡ replay (item_part s.head) items
unfolding inherit_items inherit_item replay
inherit_items-item_part s [] = refl
inherit_items-item_part s (i ∷ items) =
    inherit_items-item_part (inherit_item s i) items
    ∙ ap (λ h. replay h items) (inherit_head-item_part s.head i)

module _ (json : Json) where
  append_fork-IsConsistent :
      (s : StoredState) (value : Fork) (now : ℕ)
      → IsHistory blank_head s.items
      → item_part s.head ≡ replay blank_head s.items
      → IsConsistent json (append_fork s value now)
  unfolding append_fork inherit_head
  append_fork-IsConsistent s value now h e =
      extend-IsConsistent json s _ _ h e (record { admitted = (refl, tt); extended = refl })
        (record { positioned = λ id i e. cc; indexed = λ i op e. cc; valid = λ i op e. cc })

  inherited-IsConsistent :
      (parent : StoredState) (n : ℕ) (id : String) (value : Fork) (now : ℕ)
      → IsConsistent json parent
      → IsConsistent json
          (append_fork (inherit_items (new_stored_state id now) (take n parent.items)) value now)
  unfolding new_stored_state
  inherited-IsConsistent parent n id value now v =
      let prefix = take n parent.items in
      let inherited = inherit_items-items (new_stored_state id now) prefix in
      append_fork-IsConsistent _ value now
        (subst (IsHistory blank_head) (sym inherited) (
          IsHistory-stripped blank_head prefix
            (IsHistory-take blank_head n parent.items v.history)))
        (inherit_items-item_part (new_stored_state id now) prefix
          ∙ sym (replay-stripped blank_head prefix)
          ∙ ap (replay blank_head) (sym inherited))

  fork-IsConsistent :
      (parent : StoredState) (id turn_id : String) (now : ℕ)
      → IsConsistent json parent
      → Holds (IsConsistent json) (fork_stored_state parent id turn_id now)
  unfolding fork_stored_state
  fork-IsConsistent parent id turn_id now v =
      elim (Bool-cases (find_boundary turn_id parent.items 0 0 == 0)) [
        | inl missing ↦ rw missing tt
        | inr found ↦
            rw found
              (inherited-IsConsistent parent (find_boundary turn_id parent.items 0 0) id _ now v)
      ]

  -- Every state that a session can reach is consistent.
  pub Reachable-IsConsistent : {s : StoredState} → Reachable json s → IsConsistent json s
  Reachable-IsConsistent (Reachable.created id now) = created-IsConsistent json id now
  Reachable-IsConsistent (Reachable.applied {s = s} c r e) =
      Holds-ok (IsConsistent json) e (apply-IsConsistent json s c (Reachable-IsConsistent r))
  Reachable-IsConsistent (Reachable.forked {s = s} id turn_id now r e) =
      Holds-ok (IsConsistent json) e (fork-IsConsistent s id turn_id now (Reachable-IsConsistent r))
