-- ===== src/Store/Resume.antt =====
-- What `resume` of harness/sessionstore/localfile/state.go hands to the coordinator.
use mathlib.Core.List.{append-nil, append_assoc}
use unreal_agent.Base.{
  ℕ, ◌≡◌, refl, ap, ap₂, sym, ◌∙◌, String, Bool, true, false, not, ◌||◌, List, [], ◌∷◌, ◌++◌, arith,
  ◌==◌, string_eq, if◌then◌else◌, KeySet, include, exclude, empty_set, filter_by, ok, Holds-ok,
  Bool-cases, inl, inr, nat_eq, map, take,
}
use unreal_agent.Operation.{Operation, is_terminal}
use unreal_agent.Store.{Item, ItemData, Fork, tool_call_status}
use unreal_agent.Store.State.{
  StoredState, resume, scan_items, pending_after, mark_pending, input_id, append_fork,
  fork_stored_state, inherit_items, new_stored_state, find_boundary, without_operations,
}
use unreal_agent.Store.History.{stripped}
use unreal_agent.Store.Forks.{inherit_items-items}

-- The operations that the statuses of the history record, in order.
abbrev pub recorded_in : ItemData → List Operation
recorded_in (tool_call_status s) = s.operations
recorded_in _ = []

abbrev pub recorded : List Item → List Operation
recorded [] = []
recorded (item ∷ items) = recorded_in item.content ++ recorded items

abbrev pub inputs_of : List Item → List String
inputs_of [] = []
inputs_of (item ∷ items) = input_id item.content ++ inputs_of items

-- Whether the last record of an operation is of one that was not finished; `old` where there is none.
abbrev pub last_is_open : Bool → String → List Operation → Bool
last_is_open old id [] = old
last_is_open old id (value ∷ rest) =
    last_is_open (if value.id == id then not (is_terminal value.status) else old) id rest

last_is_open-append :
    (old : Bool) (id : String) (xs ys : List Operation)
    → last_is_open old id (xs ++ ys) ≡ last_is_open (last_is_open old id xs) id ys
last_is_open-append old id [] ys = refl
last_is_open-append old id (x ∷ xs) ys =
    last_is_open-append (if x.id == id then not (is_terminal x.status) else old) id xs ys

mark_one :
    (b : Bool) (pending : KeySet String) (v id : String)
    → (if b then exclude v pending else include v pending) id
      ≡ (if v == id then not b else pending id)
mark_one true pending v id = refl
mark_one false pending v id = refl

mark_pending_lem :
    (pending : KeySet String) (ops : List Operation) (id : String)
    → mark_pending pending ops id ≡ last_is_open (pending id) id ops
unfolding mark_pending
mark_pending_lem pending [] id = refl
mark_pending_lem pending (value ∷ rest) id =
    mark_pending_lem
      (if is_terminal value.status then exclude value.id pending else include value.id pending) rest
      id
    ∙ ap (λ b. last_is_open b id rest) (mark_one (is_terminal value.status) pending value.id id)

pending_after_lem :
    (pending : KeySet String) (content : ItemData) (id : String)
    → pending_after pending content id ≡ last_is_open (pending id) id (recorded_in content)
unfolding pending_after
pending_after_lem pending (tool_call_status s) id = mark_pending_lem pending s.operations id
pending_after_lem pending _ id = refl

scan_items_lem :
    (items : List Item) (ids : List String) (pending : KeySet String)
    → ((scan_items items ids pending).0 ≡ ids ++ inputs_of items)
      × ((id : String)
          → (scan_items items ids pending).1 id ≡ last_is_open (pending id) id (recorded items))
unfolding scan_items
scan_items_lem [] ids pending = (sym (append-nil ids), λ id. refl)
scan_items_lem (item ∷ items) ids pending =
    let (found, open_ids) =
      scan_items_lem items (ids ++ input_id item.content) (pending_after pending item.content) in
    (
      found ∙ append_assoc ids (input_id item.content) (inputs_of items),
      λ id.
          open_ids id
          ∙ ap (λ b. last_is_open b id (recorded items)) (pending_after_lem pending item.content id)
          ∙ sym (last_is_open-append (pending id) id (recorded_in item.content) (recorded items)),
    )

filter_by-cong :
    (p q : Operation → Bool) (xs : List Operation)
    → ((x : Operation) → p x ≡ q x)
    → filter_by p xs ≡ filter_by q xs
filter_by-cong p q [] h = refl
filter_by-cong p q (x ∷ xs) h = ground (arith, h x, filter_by-cong p q xs h)

-- Resuming hands over, in the order of the store, the operations that are not finished and those
-- whose last record in the tool-call history is of an unfinished one, and the ID of every input.
pub resume_lem :
    (s : StoredState)
    → let r = resume s in
      (r.session ≡ s.head.session)
      × (r.operations
          ≡ filter_by
              (λ value.
                not (is_terminal value.status) || last_is_open false value.id (recorded s.items))
              s.head.operations)
      × (r.input_ids ≡ inputs_of s.items)
unfolding resume
resume_lem s =
    let (ids, open_ids) = scan_items_lem s.items [] empty_set in
    (
      refl,
      filter_by-cong _ _ s.head.operations
          (λ value. ap (λ b. not (is_terminal value.status) || b) (open_ids value.id)),
      ids,
    )

inputs_of-append : (xs ys : List Item) → inputs_of (xs ++ ys) ≡ inputs_of xs ++ inputs_of ys
inputs_of-append [] ys = refl
inputs_of-append (x ∷ xs) ys =
    ap (λ l. input_id x.content ++ l) (inputs_of-append xs ys)
    ∙ sym (append_assoc (input_id x.content) (inputs_of xs) (inputs_of ys))

input_id-without_operations : (c : ItemData) → input_id (without_operations c) ≡ input_id c
input_id-without_operations (tool_call_status s) = refl
input_id-without_operations _ = refl

inputs_of-stripped : (xs : List Item) → inputs_of (map stripped xs) ≡ inputs_of xs
inputs_of-stripped [] = refl
inputs_of-stripped (x ∷ xs) =
    ap₂ (λ (u v : List String). u ++ v) (input_id-without_operations x.content)
      (inputs_of-stripped xs)

append_fork-resume :
    (s : StoredState) (value : Fork) (now : ℕ)
    → ((resume (append_fork s value now)).operations ≡ [])
      × ((resume (append_fork s value now)).input_ids ≡ inputs_of s.items)
unfolding append_fork
append_fork-resume s value now =
    let (_, ops, ids) = resume_lem (append_fork s value now) in
    (ops, ids ∙ inputs_of-append s.items _ ∙ append-nil (inputs_of s.items))

-- A fork has no operation to dispatch, and has seen the inputs of the items that it inherits.
pub fork-resume :
    (parent : StoredState) (id turn_id : String) (now : ℕ) {child : StoredState}
    → fork_stored_state parent id turn_id now ≡ ok child
    → ((resume child).operations ≡ [])
      × ((resume child).input_ids
          ≡ inputs_of (take (find_boundary turn_id parent.items 0 0) parent.items))
unfolding fork_stored_state new_stored_state
fork-resume parent id turn_id now {child} h =
    Holds-ok
      (λ (c : StoredState).
        ((resume c).operations ≡ [])
        × ((resume c).input_ids
            ≡ inputs_of (take (find_boundary turn_id parent.items 0 0) parent.items)))
      h
      (elim (Bool-cases (find_boundary turn_id parent.items 0 0 == 0)) [
        | inl missing ↦ rw missing tt
        | inr found ↦
            let prefix = take (find_boundary turn_id parent.items 0 0) parent.items in
            let base = inherit_items (new_stored_state id now) prefix in
            let (ops, ids) =
              append_fork-resume base
                (record { parent_id = parent.head.session.id; previous_turn_id = turn_id }) now in
            rw found (
              ops,
              ids
                  ∙ ap inputs_of (inherit_items-items (new_stored_state id now) prefix)
                  ∙ inputs_of-stripped prefix,
            )
      ])
