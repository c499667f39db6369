-- ===== src/Store/Updates.antt =====
-- The operations of a session while its store is called: `saveOperation` and what a call may change
-- (harness/sessionstore/localfile/state.go).
use unreal_agent.Base.{
  ℕ, ◌≡◌, refl, ap, sym, ◌∙◌, subst, ◌≢◌, String, Option, none, some, List, arith, ok, err,
  Holds-ok, get_elem?, set, get_elem?-set, nat_eq, string_eq, >>=-eq-ok, Option-cases, inl, inr,
  ok-injective, eq_iff, Bool-cases, if◌then◌else◌, ◌==◌,
}
use unreal_agent.Operation.{Operation}
use unreal_agent.Inbox.{Json}
use unreal_agent.Store.Head.{index_out_of_range, validate_operation}
use unreal_agent.Store.Status
use unreal_agent.Store.State.{StoredState, save_operation}
use unreal_agent.Store.Table.{IsTable, Saved, save_operation-Saved}
use unreal_agent.Store.Commands.{Reachable}
use unreal_agent.Store.Forks.{Reachable-IsConsistent}

-- The operation of a session under an ID.
abbrev at_position : List Operation → Option ℕ → Option Operation
at_position ops none = none
at_position ops (some i) = get_elem? ops i

unfoldable pub operation_of : StoredState → String → Option Operation
operation_of s id = at_position s.head.operations (s.head.operation_positions id)

abbrev written : StoredState → ℕ → Operation → StoredState
written s index value = record s {
  head = record s.head { operations = set s.head.operations index value };
}

module _ (json : Json) where
  written-operation_of :
      (s : StoredState) (value old : Operation) (index : ℕ)
      → IsTable json s.head.operations s.head.operation_positions
      → s.head.operation_positions value.id ≡ some index
      → get_elem? s.head.operations index ≡ some old
      → let s' = written s index value in
        (operation_of s' value.id ≡ some value)
        × ((id : String) → id ≢ value.id → operation_of s' id ≡ operation_of s id)
        × (operation_of s value.id ≡ some old)
  unfolding operation_of
  written-operation_of s value old index t at found = (
    rw at (ground (arith, get_elem?-set s.head.operations index index value old found)),
    (λ id other. elim (Option-cases (s.head.operation_positions id)) [
      | inl none_there ↦ rw none_there
      | inr (i, there) ↦
          let (op, here, named) = t.positioned id i there in
          let (held, at_index, called) = t.positioned value.id index at in
          rw there (
            ground (
              arith,
              get_elem?-set s.head.operations index i value old found,
              here,
              named,
              at_index,
              called,
            ))
    ]),
    rw at found,
  )

  -- In a session that the store can hold, an update of an operation that is accepted is stored under
  -- its ID, where an operation of its type and version stood; under any other ID stands what stood
  -- there before, and no item changes.
  pub save_operation-operation_of :
      {s s' : StoredState} (value : Operation) (id : String)
      → Reachable json s
      → save_operation json s value ≡ ok s'
      → (operation_of s' id ≡ (if id == value.id then some value else operation_of s id))
        × ((old : Operation) × (operation_of s value.id ≡ some old)
            × (old.type ≡ value.type)
            × (old.version ≡ value.version))
        × (s'.items ≡ s.items)
  unfolding save_operation operation_of
  save_operation-operation_of {s} {s'} value id r h =
      let (head, saved, made) = >>=-eq-ok (Status.save_operation json s.head value) _ h in
      let did = Holds-ok (Saved json s.head value) saved (save_operation-Saved json s.head value) in
      let t = (Reachable-IsConsistent json r).table in
      let e : written s did.index value ≡ s' =
        ap (λ k. record s { head = k }) (sym did.written) ∙ ok-injective made in
      let (new, others, before) =
        written-operation_of s value did.old did.index t did.at did.found in
      (
        elim (Bool-cases (id == value.id)) [
          | inl same ↦ rw same (
              ap (operation_of s') ((eq_iff id value.id).0 same)
              ∙ subst (λ k. operation_of k value.id ≡ some value) e new)
          | inr other ↦ rw other (
              subst (λ k. operation_of k id ≡ operation_of s id) e
                (others id (λ same. absurd (ground (arith, (eq_iff id value.id).1 same)))))
        ],
        (did.old, before, did.same_type, did.same_version),
        subst (λ k. k.items ≡ s.items) e refl,
      )

  -- `head.Operations[index]` is never out of range.
  pub save_operation_in_range :
      {s : StoredState} (value : Operation)
      → Reachable json s
      → save_operation json s value ≢ err index_out_of_range
  unfolding save_operation Status.save_operation validate_operation
  save_operation_in_range {s} value r h =
      let t = (Reachable-IsConsistent json r).table in
      elim (Option-cases (s.head.operation_positions value.id)) [
        | inl none_there ↦ ground arith
        | inr (i, there) ↦
            let (op, at, _) = t.positioned value.id i there in ground (arith, there, at)
      ]
