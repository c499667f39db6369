-- ===== src/Store/History.antt =====
-- The history that a session's items make up: what each item needs of the items before it, and
-- the head that all of them leave (harness/sessionstore/localfile/state.go).
use unreal_agent.Base.{
  ℕ, zero, suc, ◌≡◌, refl, ap, sym, ◌∙◌, subst, ◌≢◌, true, false, List, [], ◌∷◌, ◌++◌, map, arith,
  take, empty_set, empty_map,
}
use unreal_agent.Store.{Item, ItemData, fork, input, turn, model_response, tool_call_status}
use unreal_agent.Store.Head.{SessionHead, next_sequence}
use unreal_agent.Store.State.{inherit_content, inherit_head, without_operations}

-- What the items alone decide of a head.
abbrev pub item_part : SessionHead → SessionHead
item_part head = record head {
  session = record { id = ""; created_at = 0 };
  operations = [];
  operation_positions = empty_map;
}

abbrev pub blank_head : SessionHead
blank_head = record {
  session = record { id = ""; created_at = 0 };
  operations = [];
  item_sequence = 0;
  latest_turn_id = "";
  turns = empty_set;
  owned_turns = empty_set;
  responded_turns = empty_set;
  tool_call_statuses = empty_set;
  operation_positions = empty_map;
}

unfoldable pub replay : SessionHead → List Item → SessionHead
replay head [] = head
replay head (item ∷ items) = replay (inherit_head head item) items

-- A turn follows the latest turn under an ID of its own; a response and a tool-call status belong
-- to a turn of this session, and a turn has one response.
abbrev pub AdmitsContent : SessionHead → ItemData → Type 0
AdmitsContent head (turn t) =
    (t.id ≢ "") × (t.previous_turn_id ≡ head.latest_turn_id) × (head.turns t.id ≡ false)
AdmitsContent head (model_response r) =
    (head.owned_turns r.turn_id ≡ true) × (head.responded_turns r.turn_id ≡ false)
AdmitsContent head (tool_call_status s) = (head.owned_turns s.turn_id ≡ true) × (s.call_id ≢ "")
AdmitsContent head (input i) = i.id ≢ ""
AdmitsContent head (fork f) = Unit {0}

abbrev pub Admits : SessionHead → Item → Type 0
Admits head item =
    (item.sequence ≡ next_sequence head.item_sequence) × AdmitsContent head item.content

abbrev pub IsHistory : SessionHead → List Item → Type 0
IsHistory head [] = Unit {0}
IsHistory head (item ∷ items) = Admits head item × IsHistory (inherit_head head item) items

pub replay-append_one :
    (head : SessionHead) (items : List Item) (item : Item)
    → replay head (items ++ item ∷ []) ≡ inherit_head (replay head items) item
unfolding replay
replay-append_one head [] item = refl
replay-append_one head (i ∷ items) item = replay-append_one (inherit_head head i) items item

pub IsHistory-append_one :
    (head : SessionHead) (items : List Item) (item : Item)
    → IsHistory head items
    → Admits (replay head items) item
    → IsHistory head (items ++ item ∷ [])
unfolding replay
IsHistory-append_one head [] item h a = (a, tt)
IsHistory-append_one head (i ∷ items) item h a =
    (h.0, IsHistory-append_one (inherit_head head i) items item h.1 a)

pub IsHistory-take :
    (head : SessionHead) (n : ℕ) (items : List Item)
    → IsHistory head items
    → IsHistory head (take n items)
IsHistory-take head zero items h = tt
IsHistory-take head (suc n) [] h = tt
IsHistory-take head (suc n) (i ∷ items) h = (h.0, IsHistory-take (inherit_head head i) n items h.1)

abbrev pub stripped : Item → Item
stripped item = record item { content = without_operations item.content }

inherit_content-stripped :
    (head : SessionHead) (content : ItemData)
    → inherit_content head (without_operations content) ≡ inherit_content head content
unfolding inherit_content
inherit_content-stripped head (tool_call_status s) = refl
inherit_content-stripped head _ = refl

pub inherit_head-stripped :
    (head : SessionHead) (item : Item) → inherit_head head (stripped item) ≡ inherit_head head item
unfolding inherit_head
inherit_head-stripped head item = inherit_content-stripped _ item.content

AdmitsContent-stripped :
    (head : SessionHead) (content : ItemData)
    → AdmitsContent head content
    → AdmitsContent head (without_operations content)
AdmitsContent-stripped head (tool_call_status s) a = a
AdmitsContent-stripped head (fork f) a = a
AdmitsContent-stripped head (input i) a = a
AdmitsContent-stripped head (turn t) a = a
AdmitsContent-stripped head (model_response r) a = a

-- Dropping the operations from the statuses, as a fork does, leaves a history.
pub IsHistory-stripped :
    (head : SessionHead) (items : List Item)
    → IsHistory head items
    → IsHistory head (map stripped items)
IsHistory-stripped head [] h = tt
IsHistory-stripped head (i ∷ items) h = (
  (h.0.0, AdmitsContent-stripped head i.content h.0.1),
  subst (λ k. IsHistory k (map stripped items)) (sym (inherit_head-stripped head i))
      (IsHistory-stripped (inherit_head head i) items h.1),
)

pub replay-stripped :
    (head : SessionHead) (items : List Item) → replay head (map stripped items) ≡ replay head items
unfolding replay
replay-stripped head [] = refl
replay-stripped head (i ∷ items) =
    ap (λ h. replay h (map stripped items)) (inherit_head-stripped head i)
    ∙ replay-stripped (inherit_head head i) items

-- A head that agrees with another on the part that the items decide has the same histories.
pub inherit_head-item_part :
    (head : SessionHead) (item : Item)
    → item_part (inherit_head head item) ≡ inherit_head (item_part head) item
unfolding inherit_head
inherit_head-item_part head item = ground arith
