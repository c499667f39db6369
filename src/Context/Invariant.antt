-- ===== src/Context/Invariant.antt =====
-- What holds of a builder between two calls of harness/contextbuilder.
use unreal_agent.Base.{
  ℕ, ◌+◌, ◌-◌, ◌≤◌, ◌≡◌, refl, String, Bool, true, some, List, [], ◌∷◌, ◌++◌, arith, eq_iff, length,
  length-append, get_elem?, ◌==◌, nat_eq, string_eq, if◌then◌else◌, get_elem?-set, length-set,
}
use unreal_agent.Llm.{
  Item, ItemData, message, tool_call, tool_result, ToolResultOutput, Response, provider,
}
use unreal_agent.Context.Builder.{
  PrefixToken, Builder, system_item, set_system_prompt, new_builder, add_model_response,
  is_running_result, put_result, result_item, add_tool_result, commit,
}

-- How many running results a call has among the items.
abbrev pub running_count : String → List Item → ℕ
running_count id [] = 0
running_count id (item ∷ items) =
    (if is_running_result id item.content then 1 else 0) + running_count id items

-- The checkpoints' indices rise and lie between two bounds.
abbrev pub Rising : ℕ → ℕ → List PrefixToken → Type 0
Rising lo hi [] = lo ≤ hi
Rising lo hi (t ∷ ts) = (lo ≤ t.committed_prefix_index) × Rising t.committed_prefix_index hi ts

pub record IsWellFormed (b : Builder) : Type 0 where
  pub system : get_elem? b.committed_prefix 0 ≡ some (system_item b.preamble b.system_prompt)
  pub checkpoints : Rising 1 (length b.committed_prefix) b.prefix_tokens
  pub single : (id : String) → running_count id b.staged_suffix ≤ 1

Rising-widen :
    (lo hi hi' : ℕ) (ts : List PrefixToken) → hi ≤ hi' → Rising lo hi ts → Rising lo hi' ts
Rising-widen lo hi hi' [] h r = omega arith
Rising-widen lo hi hi' (t ∷ ts) h r = (r.0, Rising-widen t.committed_prefix_index hi hi' ts h r.1)

Rising-snoc :
    (lo hi : ℕ) (ts : List PrefixToken) (t : PrefixToken)
    → Rising lo hi ts
    → hi ≤ t.committed_prefix_index
    → Rising lo t.committed_prefix_index (ts ++ t ∷ [])
Rising-snoc lo hi [] t r h = (omega arith, omega arith)
Rising-snoc lo hi (u ∷ ts) t r h = (r.0, Rising-snoc u.committed_prefix_index hi ts t r.1 h)

pub running_count-append :
    (id : String) (xs ys : List Item)
    → running_count id (xs ++ ys) ≡ running_count id xs + running_count id ys
running_count-append id [] ys = omega arith
running_count-append id (x ∷ xs) ys = omega (arith, running_count-append id xs ys)

is_running_result-other :
    (id j : String) (content : ItemData)
    → is_running_result id content ≡ true
    → is_running_result j content ≡ (id == j)
is_running_result-other id j (tool_result r) h = ground (arith, eq_iff r.call_id id)
is_running_result-other id j (message m) h = cc
is_running_result-other id j (tool_call c) h = cc
is_running_result-other id j (provider p) h = cc

-- What a result does to the running results: a running one makes sure that its call has one, a final
-- one takes one away, and other calls keep theirs.
pub running_count-put_result :
    (id j : String) (payload : List ToolResultOutput) (running : Bool) (items : List Item)
    → running_count j (put_result id (result_item id payload running) items) ≡ (
        if id == j
        then if running
          then if running_count j items == 0 then 1 else running_count j items
          else running_count j items - 1
        else running_count j items)
unfolding put_result
running_count-put_result id j payload running [] = ground (arith, eq_iff id j)
running_count-put_result id j payload running (item ∷ items) = ground (
  arith,
  is_running_result-other id j item.content,
  running_count-put_result id j payload running items,
  eq_iff id j,
)

get_elem?-append_first :
    (xs ys : List Item) (x : Item) → get_elem? xs 0 ≡ some x → get_elem? (xs ++ ys) 0 ≡ some x
get_elem?-append_first [] ys x h = cc
get_elem?-append_first (y ∷ xs) ys x h = h

pub new_builder-IsWellFormed : (preamble : String) → IsWellFormed (new_builder preamble)
unfolding new_builder
new_builder-IsWellFormed preamble = record {
  system = refl;
  checkpoints = omega arith;
  single = λ id. omega arith;
}

pub set_system_prompt-IsWellFormed :
    (b : Builder) (prompt : String) → IsWellFormed b → IsWellFormed (set_system_prompt b prompt)
unfolding set_system_prompt
set_system_prompt-IsWellFormed b prompt v = record {
  system =
      ground
        (arith, get_elem?-set b.committed_prefix 0 0 (system_item b.preamble prompt) _ v.system);
  checkpoints = rw (length-set b.committed_prefix 0 (system_item b.preamble prompt)) v.checkpoints;
  single = v.single;
}

pub commit-IsWellFormed : (b : Builder) → IsWellFormed b → IsWellFormed (commit b)
unfolding commit
commit-IsWellFormed b v = record {
  system = get_elem?-append_first b.committed_prefix b.staged_suffix _ v.system;
  checkpoints =
      Rising-widen 1 _ _ b.prefix_tokens
        (omega (arith, length-append b.committed_prefix b.staged_suffix)) v.checkpoints;
  single = λ id. omega arith;
}

pub add_model_response-IsWellFormed :
    (b : Builder) (r : Response) → IsWellFormed b → IsWellFormed (add_model_response b r)
unfolding add_model_response
add_model_response-IsWellFormed b r v = record {
  system = get_elem?-append_first b.committed_prefix r.output _ v.system;
  checkpoints =
      Rising-snoc 1 (length b.committed_prefix) b.prefix_tokens _ v.checkpoints
        (omega (arith, length-append b.committed_prefix r.output));
  single = v.single;
}

pub add_tool_result-IsWellFormed :
    (b : Builder) (id : String) (payload : List ToolResultOutput) (running : Bool)
    → IsWellFormed b
    → IsWellFormed (add_tool_result b id payload running)
unfolding add_tool_result
add_tool_result-IsWellFormed b id payload running v = record {
  system = v.system;
  checkpoints = v.checkpoints;
  single = λ j.
      ground (arith, running_count-put_result id j payload running b.staged_suffix, v.single j);
}
