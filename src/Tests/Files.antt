-- ===== src/Tests/Files.antt =====
-- Concrete session files, in the codec of the tests.
use unreal_agent.Base.{
  ℕ, ◌≡◌, refl, string_eq, nat_eq, arith, false, some, List, [], ◌∷◌, Result, ok, err, empty_map,
  map_ok, pos, with_error,
}
use unreal_agent.Store.{ItemData, ToolCallStatus}
use unreal_agent.Store.Head
use unreal_agent.Store.Status
use unreal_agent.Store.State.{
  StoredState, new_stored_state, fork_stored_state, append_turn, resume, append_input,
  append_tool_call_status, save_operation,
}
use unreal_agent.Store.Paging.{page}
use unreal_agent.Store.Lines.{Bytes}
use unreal_agent.Store.Log.{Decoded, scan_lines, replay_records, no_scan, decode_log}
use unreal_agent.Store.Log.Whole.{IsLogOf, decode_log-join}
use unreal_agent.Store.Files.{
  Store, Append, Written, Published, create, fork, append_to, append_to_head, encode_decoded,
  inspect, items, resume_session, Error,
}
use unreal_agent.Store.Files.Kept.{Keeps, reads-Keeps}
use unreal_agent.Store.Files.Calls.{Follows, append_to-Follows}
use unreal_agent.Store.Files.Publication.{Publishes, create-Publishes, fork-Publishes}
use unreal_agent.Store.Files.Effects.{IsSameAt, append_to-IsSameAt, append_to-complete}
use unreal_agent.Store.Files.Coherent.{Call, creation, forking, writing, calls, calls-decode}
use unreal_agent.Store.Commands.{Reachable}
use unreal_agent.Tests.Samples.{sample_json, first_turn, waiting_status}
use unreal_agent.Tests.SampleCodec.{
  note, ready_job, done_job, encode_sample_operation, sample_codec,
}
use unreal_agent.Tests.CodecLaws.{sample_codec-IsLawful}

abbrev no_files : Store
no_files = record { files = empty_map; write_state_cache = empty_map }

-- A new session of the ID "s".
abbrev s0 : StoredState
s0 = new_stored_state "s" 7

abbrev store0 : Store
store0 = (create sample_json sample_codec no_files false "s" 7 Published.published).0

-- A lone turn's line, cut short after three bytes.
abbrev torn_store : Store
torn_store =
    (append_to sample_json sample_codec store0 false "s" (Append.turn first_turn) 9
      (Written.torn_at 3)).0

torn_file : torn_store.files "s" ≡ some (1 ∷ 1 ∷ 2 ∷ 7 ∷ 10 ∷ 3 ∷ 1 ∷ 9 ∷ [])
unfolding create append_to Head.append_turn
torn_file = refl

s0-IsLogOf : IsLogOf sample_json sample_codec ((1 ∷ 1 ∷ 2 ∷ 7 ∷ []) ∷ []) s0
unfolding scan_lines replay_records new_stored_state
s0-IsLogOf = record {
  begins = (1 ∷ 1 ∷ 2 ∷ 7 ∷ [], [], refl);
  whole = (refl, tt);
  scan = record no_scan { value = new_stored_state "s" 7 };
  scanned = refl;
  replayed = refl;
  counted = refl;
  inherited = omega arith;
}

torn_store-Keeps : Keeps sample_json sample_codec torn_store "s" s0
unfolding create append_to Head.append_turn
torn_store-Keeps = record {
  valid = refl;
  named = refl;
  lines = (1 ∷ 1 ∷ 2 ∷ 7 ∷ []) ∷ [];
  torn = 3 ∷ 1 ∷ 9 ∷ [];
  file = refl;
  free = refl;
  log = s0-IsLogOf;
  cache = tt;
}

decode_log-join_example :
    decode_log sample_json sample_codec (1 ∷ 1 ∷ 2 ∷ 7 ∷ 10 ∷ 3 ∷ 1 ∷ 9 ∷ []) ≡ ok (s0, 5)
decode_log-join_example =
    decode_log-join sample_json sample_codec ((1 ∷ 1 ∷ 2 ∷ 7 ∷ []) ∷ []) s0 (3 ∷ 1 ∷ 9 ∷ [])
      s0-IsLogOf refl

reads-Keeps_example :
    (inspect sample_json sample_codec torn_store false "s"
      ≡ ok (record { id = "s"; created_at = 7 }))
    × (items sample_json sample_codec torn_store false "s" 0 (pos 4)
        ≡ with_error Error.not_paged (page s0.items 0 (pos 4)))
    × (resume_session sample_json sample_codec torn_store false "s" ≡ ok (resume s0))
unfolding new_stored_state
reads-Keeps_example =
    reads-Keeps sample_json sample_codec torn_store "s" s0 0 (pos 4) torn_store-Keeps

create-Publishes_example :
    Publishes sample_json sample_codec
      (λ s. s ≡ s0)
      no_files
      "s"
      (create sample_json sample_codec no_files false "s" 7 Published.not_synced)
create-Publishes_example =
    create-Publishes sample_json sample_codec sample_codec-IsLawful no_files false "s" 7
      Published.not_synced refl

-- The file is torn, and the input is written behind its whole lines.
append_to-Follows_example :
    Follows sample_json sample_codec "s" s0 (Append.input note) 9 (
      append_to sample_json sample_codec torn_store false "s"
        (Append.input note)
        9
        Written.complete)
append_to-Follows_example =
    append_to-Follows sample_json sample_codec "s" s0 sample_codec-IsLawful (Append.input note) refl
      9 refl Written.complete torn_store false torn_store-Keeps

-- The text of a state that is saved with spaces is read back without them.
spaces_are_lost :
    encode_sample_operation (record ready_job { state = some "[ 1 ]" })
    ≡ encode_sample_operation ready_job
spaces_are_lost = refl

append_to-IsSameAt_example :
    IsSameAt "t" torn_store
      (append_to sample_json sample_codec torn_store false "s"
        (Append.turn first_turn)
        9
        Written.complete).0
append_to-IsSameAt_example =
    append_to-IsSameAt sample_json sample_codec "s" "t" refl torn_store false
      (Append.turn first_turn) 9 Written.complete

append_to-complete_example :
    (append_to sample_json sample_codec torn_store false "s"
      (Append.turn first_turn)
      9
      Written.complete).1
    ≡ ok (some (record { sequence = 1; recorded_at = 9; content = ItemData.turn first_turn }))
unfolding append_to_head Head.append_turn encode_decoded new_stored_state
append_to-complete_example =
    append_to-complete sample_json sample_codec torn_store "s" s0 torn_store-Keeps
      (Append.turn first_turn) 9
      (
        _,
        Decoded.item (record {
          item = record { sequence = 1; recorded_at = 9; content = ItemData.turn first_turn };
          operations = [];
        }),
      )
      refl refl

abbrev or_else : Result Head.Error StoredState → StoredState → StoredState
or_else (ok s) t = s
or_else (err e) t = t

abbrev turned_store : Store
turned_store =
    (append_to sample_json sample_codec torn_store false "s" (Append.turn first_turn) 9
      Written.complete).0

abbrev s1 : StoredState
s1 = or_else (append_turn s0 first_turn 9) s0

turned_store-Keeps : Keeps sample_json sample_codec turned_store "s" s1
unfolding create append_to Head.append_turn append_turn scan_lines replay_records new_stored_state
turned_store-Keeps = record {
  valid = refl;
  named = refl;
  lines = (1 ∷ 1 ∷ 2 ∷ 7 ∷ []) ∷ (3 ∷ 1 ∷ 9 ∷ 5 ∷ 2 ∷ []) ∷ [];
  torn = [];
  file = refl;
  free = refl;
  log = record {
    begins = (1 ∷ 1 ∷ 2 ∷ 7 ∷ [], (3 ∷ 1 ∷ 9 ∷ 5 ∷ 2 ∷ []) ∷ [], refl);
    whole = (refl, (refl, tt));
    scan = record {
      value = new_stored_state "s" 7;
      records =
          Decoded.item (record {
            item = record { sequence = 1; recorded_at = 9; content = ItemData.turn first_turn };
            operations = [];
          })
          ∷ [];
      item_count = 1;
      inherited_item_count = 0;
    };
    scanned = refl;
    replayed = refl;
    counted = refl;
    inherited = omega arith;
  };
  cache = (refl, refl);
}

fork-Publishes_example :
    Publishes sample_json sample_codec
      (λ child. fork_stored_state s1 "t" "turn-1" 11 ≡ ok child)
      turned_store
      "t"
      (fork sample_json sample_codec turned_store false "t" "s" "turn-1" 11 Published.published)
unfolding append_turn Head.append_turn new_stored_state
fork-Publishes_example =
    fork-Publishes sample_json sample_codec sample_codec-IsLawful turned_store false "t" 11
      Published.published refl "s" "turn-1" s1 turned_store-Keeps (tt, tt)

fork_succeeds :
    map_ok resume
      (fork sample_json sample_codec turned_store false "t" "s" "turn-1" 11 Published.published).1
    ≡ ok
        (record { session = record { id = "t"; created_at = 11 }; operations = []; input_ids = [] })
unfolding create append_to Head.append_turn fork append_turn resume
fork_succeeds = refl

abbrev job_status : ToolCallStatus
job_status = record waiting_status { operations = ready_job ∷ [] }

abbrev some_calls : List Call
some_calls =
    creation false "s" 7 Published.published
    ∷ writing false "s" (Append.input note) 8 Written.complete
    ∷ writing false "s" (Append.turn first_turn) 9 (Written.torn_at 3)
    ∷ writing false "s" (Append.turn first_turn) 9 Written.complete
    ∷ writing false "s" (Append.tool_call_status job_status) 11 Written.complete
    ∷ writing false "s" (Append.operation done_job) 12 Written.complete
    ∷ forking false "t" "s" "turn-1" 13 Published.not_synced
    ∷ []

-- The file of the session that some_calls leave.
abbrev written_file : Bytes
written_file =
    1 ∷ 1 ∷ 2 ∷ 7 ∷ 10 ∷ 3 ∷ 1 ∷ 8 ∷ 7 ∷ 7 ∷ 10 ∷ 3 ∷ 2 ∷ 9 ∷ 5 ∷ 2 ∷ 10 ∷ 3 ∷ 3 ∷ 11 ∷ 9 ∷ 3 ∷ 8
    ∷ 100 ∷ 1 ∷ 10 ∷ 5 ∷ 9 ∷ 100 ∷ 1 ∷ 10 ∷ []

calls-decode_example :
    (s : StoredState) × (size : ℕ) × (decode_log sample_json sample_codec written_file
      ≡ ok (s, size))
    × (s.head.session.id ≡ "s")
    × Reachable sample_json s
unfolding calls Head.append_turn append_turn fork append_to create Head.append_input append_input
    Status.append_tool_call_status Status.save_operation append_tool_call_status save_operation
calls-decode_example =
    calls-decode sample_json sample_codec sample_codec-IsLawful some_calls "s" {file = written_file}
      (
        refl,
        (
          (refl, refl),
          ((refl, tt), ((refl, tt), ((refl, (refl, tt)), ((refl, refl), (refl, tt))))),
        ),
      )
      refl
