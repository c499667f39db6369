-- ===== src/Store/Table.antt =====
-- A head's operations with their positions: a table in which each operation stands once
-- (harness/sessionstore/localfile/state.go).
use unreal_agent.Base.{
  ℕ, suc, ◌≡◌, refl, ap, sym, String, false, not, none, some, List, [], ◌∷◌, ◌++◌, ok, ◌==◌, nat_eq,
  string_eq, eq_iff, arith, KeySet, KeyMap, include, put, is_some, Bool-cases, inl, inr, >>=-eq-ok,
  reject_if, length, get_elem?, set, get_elem?-append_one, get_elem?-set, get_elem?-lt,
  length-append_one, subst, Holds, >>=-Holds, reject_if-Holds, or_fail, or_fail-eq-ok, ◌||◌,
}
use unreal_agent.Inbox.{Json}
use unreal_agent.Operation.{Operation}
use unreal_agent.Store.Head.{SessionHead, validate_operation, Error}
use unreal_agent.Store.Status.{initialize_operations, check_operations, save_operation}

module _ (json : Json) where
  pub record IsTable (ops : List Operation) (positions : KeyMap String ℕ) : Type 0 where
    pub positioned :
        (id : String) (i : ℕ)
        → positions id ≡ some i
        → (op : Operation) × (get_elem? ops i ≡ some op) × (op.id ≡ id)
    pub indexed : (i : ℕ) (op : Operation) → get_elem? ops i ≡ some op → positions op.id ≡ some i
    pub valid :
        (i : ℕ) (op : Operation) → get_elem? ops i ≡ some op → validate_operation json op ≡ ok tt

  abbrev pub HasTable : SessionHead → Type 0
  HasTable head = IsTable head.operations head.operation_positions

  IsTable-snoc :
      (ops : List Operation) (positions : KeyMap String ℕ) (value : Operation)
      → IsTable ops positions
      → positions value.id ≡ none
      → validate_operation json value ≡ ok tt
      → IsTable (ops ++ value ∷ []) (put value.id (length ops) positions)
  IsTable-snoc ops positions value t fresh v = record {
    positioned = λ id i e. elim (Bool-cases (value.id == id)) [
      | inl same ↦ (
        value,
        ground (arith, get_elem?-append_one ops value i),
        ground (arith, eq_iff value.id id),
      )
      | inr other ↦
          let (op, at, named) = t.positioned id i (ground arith) in
          (op, ground (arith, get_elem?-append_one ops value i, get_elem?-lt ops i at), named)
    ];
    indexed = λ i op e. ground (
      arith,
      get_elem?-append_one ops value i,
      eq_iff value.id op.id,
      t.indexed i op,
      ap positions {x = value.id} {y = op.id},
    );
    valid = λ i op e. ground (
      arith,
      get_elem?-append_one ops value i,
      t.valid i op,
      ap (validate_operation json) {x = value} {y = op},
    );
  }

  IsTable-set :
      (ops : List Operation) (positions : KeyMap String ℕ) (value old : Operation) (index : ℕ)
      → IsTable ops positions
      → positions value.id ≡ some index
      → get_elem? ops index ≡ some old
      → old.id ≡ value.id
      → validate_operation json value ≡ ok tt
      → IsTable (set ops index value) positions
  IsTable-set ops positions value old index t at found named v = record {
    positioned = λ id i e. elim (Bool-cases (value.id == id)) [
      | inl same ↦ (
        value,
        ground (
          arith,
          eq_iff value.id id,
          ap positions {x = value.id} {y = id},
          get_elem?-set ops index i value old found,
        ),
        ground (arith, eq_iff value.id id),
      )
      | inr other ↦
          let (op, here, called) = t.positioned id i e in
          (
            op,
            ground (
              arith,
              eq_iff value.id id,
              here,
              called,
              get_elem?-set ops index i value old found,
            ),
            called,
          )
    ];
    indexed = λ i op e. ground (arith, get_elem?-set ops index i value old found, t.indexed i op);
    valid = λ i op e. ground (
      arith,
      get_elem?-set ops index i value old found,
      t.valid i op,
      ap (validate_operation json) {x = value} {y = op},
    );
  }

  -- The operation that stands at a position, by its own name.
  position-names :
      (ops : List Operation) (positions : KeyMap String ℕ) (id : String) (i : ℕ) (op : Operation)
      → IsTable ops positions
      → positions id ≡ some i
      → get_elem? ops i ≡ some op
      → op.id ≡ id
  position-names ops positions id i op t at found =
      let (other, here, named) = t.positioned id i at in ground (arith, here, named)

  -- The operations' IDs are new, and differ from one another.
  abbrev pub AreNew : KeyMap String ℕ → ℕ → List Operation → Type 0
  AreNew positions n [] = Unit {0}
  AreNew positions n (value ∷ rest) =
      (positions value.id ≡ none)
      × (validate_operation json value ≡ ok tt)
      × AreNew (put value.id n positions) (suc n) rest

  pub check_operations-AreNew :
      (positions later : KeyMap String ℕ) (seen : KeySet String) (n : ℕ) (ops : List Operation)
      → ((id : String) → seen id ≡ false → positions id ≡ none → later id ≡ none)
      → check_operations json positions seen ops ≡ ok tt
      → AreNew later n ops
  unfolding check_operations
  check_operations-AreNew positions later seen n [] known h = tt
  check_operations-AreNew positions later seen n (value ∷ rest) known h =
      let (_, fine, h1) = >>=-eq-ok (validate_operation json value) _ h in
      let (_, unseen, h2) = >>=-eq-ok (reject_if (seen value.id) Error.operation_exists) _ h1 in
      let (_, missing, h3) =
        >>=-eq-ok (reject_if (is_some (positions value.id)) Error.operation_exists) _ h2 in
      (
        ground (arith, known value.id),
        fine,
        check_operations-AreNew positions (put value.id n later) (include value.id seen) (suc n)
            rest (λ id s p. ground (arith, known id)) h3,
      )

  pub initialize_operations-HasTable :
      (head : SessionHead) (ops : List Operation)
      → HasTable head
      → AreNew head.operation_positions (length head.operations) ops
      → HasTable (initialize_operations head ops)
  unfolding initialize_operations
  initialize_operations-HasTable head [] t new = t
  initialize_operations-HasTable head (value ∷ rest) t new =
      initialize_operations-HasTable
        (record head {
          operations = head.operations ++ value ∷ [];
          operation_positions = put value.id (length head.operations) head.operation_positions;
        })
        rest (IsTable-snoc head.operations head.operation_positions value t new.0 new.1)
        (subst (λ n. AreNew (put value.id (length head.operations) head.operation_positions) n rest)
          (sym (length-append_one head.operations value)) new.2)

  -- What an accepted update did.
  pub record Saved (head : SessionHead) (value : Operation) (head' : SessionHead) : Type 0 where
    pub valid : validate_operation json value ≡ ok tt
    pub index : ℕ
    pub old : Operation
    pub at : head.operation_positions value.id ≡ some index
    pub found : get_elem? head.operations index ≡ some old
    pub same_type : old.type ≡ value.type
    pub same_version : old.version ≡ value.version
    pub written : head' ≡ record head { operations = set head.operations index value }

  pub save_operation-Saved :
      (head : SessionHead) (value : Operation)
      → Holds (Saved head value) (save_operation json head value)
  unfolding save_operation
  save_operation-Saved head value =
      >>=-Holds (Saved head value) (validate_operation json value) _ λ u fine.
        >>=-Holds (Saved head value)
          (or_fail (head.operation_positions value.id) Error.operation_missing) _
          λ index at.
            >>=-Holds (Saved head value)
              (or_fail (get_elem? head.operations index) Error.index_out_of_range) _
              λ old found.
                reject_if-Holds (Saved head value)
                  (not (old.type == value.type) || not (old.version == value.version)) _ _
                  λ same. record {
                    valid = fine;
                    index = index;
                    old = old;
                    at = or_fail-eq-ok (head.operation_positions value.id) _ at;
                    found = or_fail-eq-ok (get_elem? head.operations index) _ found;
                    same_type = ground (arith, eq_iff old.type value.type);
                    same_version = ground arith;
                    written = refl;
                  }

  pub Saved-HasTable :
      (head head' : SessionHead) (value : Operation)
      → HasTable head
      → Saved head value head'
      → HasTable head'
  Saved-HasTable head head' value t s = subst HasTable (sym s.written) (
      IsTable-set head.operations head.operation_positions value s.old s.index t s.at s.found
        (position-names head.operations head.operation_positions value.id s.index s.old t s.at
          s.found)
        s.valid)
