-- ===== src/Store/Log/Inherited.antt =====
-- The log that `encodeInitialLog` of harness/sessionstore/localfile/codec.go writes for a fork.
use unreal_agent.Base.{
  ℕ, suc, ◌+◌, ◌%◌, ◌^◌, ◌≤◌, ◌≡◌, refl, ap, sym, ◌∙◌, subst, String, true, false, List, [], ◌∷◌,
  ◌++◌, map, ok, arith, length, length-append, is_empty, ltb, ◌==◌, nat_eq, string_eq, Bool-cases,
  inl, inr, ok-injective, ap₂, take, All, Holds, zero,
}
use unreal_agent.Inbox.{Json}
use unreal_agent.Store.{Item, ItemData, Fork}
use unreal_agent.Store.Head.{append_item, SessionHead}
use unreal_agent.Store.State.{
  StoredState, new_stored_state, inherit_item, inherit_items, inherit_head, append_fork,
  inherit_content, reset_owned_state, fork_stored_state, find_boundary, without_operations,
}
use unreal_agent.Store.History.{stripped}
use unreal_agent.Store.Forks.{inherit_items-items}
use unreal_agent.Store.Lines.{Bytes, join, All-append_one}
use unreal_agent.Store.Codec.{Codec, IsLawful, IsFormatted}
use unreal_agent.Store.Log.{
  Replay, Decoded, replay_record, replay_records, is_fork, record_of, operations_of,
  encode_initial_log,
}
use unreal_agent.Store.Log.Initial.{
  encode_initial_log-Started, inherited_after, AreNumbered, AreFormatted,
  without_operations-IsFormatted,
}
use unreal_agent.Store.Log.Whole.{IsLogOf}

operations_of-stripped :
    (content : ItemData) → is_empty (operations_of (without_operations content)) ≡ true
operations_of-stripped (ItemData.tool_call_status s) = refl
operations_of-stripped (ItemData.fork f) = refl
operations_of-stripped (ItemData.input f) = refl
operations_of-stripped (ItemData.turn f) = refl
operations_of-stripped (ItemData.model_response f) = refl

inherit_item-stripped :
    (s : StoredState) (sequence recorded_at : ℕ) (content : ItemData)
    → inherit_item s (record {
      sequence = sequence;
      recorded_at = recorded_at;
      content = without_operations (without_operations content);
    })
      ≡ inherit_item s
          (record { sequence = sequence; recorded_at = recorded_at; content = content })
unfolding inherit_item inherit_head
inherit_item-stripped s sequence recorded_at (ItemData.tool_call_status t) = refl
inherit_item-stripped s sequence recorded_at (ItemData.fork f) = refl
inherit_item-stripped s sequence recorded_at (ItemData.input f) = refl
inherit_item-stripped s sequence recorded_at (ItemData.turn f) = refl
inherit_item-stripped s sequence recorded_at (ItemData.model_response f) = refl

inherit_items-append_one :
    (s : StoredState) (items : List Item) (last : Item)
    → inherit_items s (items ++ last ∷ []) ≡ inherit_item (inherit_items s items) last
unfolding inherit_items
inherit_items-append_one s [] last = refl
inherit_items-append_one s (i ∷ items) last = inherit_items-append_one (inherit_item s i) items last

inherit_content-session :
    (head : SessionHead) (content : ItemData)
    → (inherit_content head content).session ≡ head.session
unfolding inherit_content reset_owned_state
inherit_content-session head (ItemData.tool_call_status t) = refl
inherit_content-session head (ItemData.fork f) = refl
inherit_content-session head (ItemData.input f) = refl
inherit_content-session head (ItemData.turn f) = refl
inherit_content-session head (ItemData.model_response f) = refl

pub inherit_items-session :
    (s : StoredState) (items : List Item) → (inherit_items s items).head.session ≡ s.head.session
unfolding inherit_items inherit_item inherit_head
inherit_items-session s [] = refl
inherit_items-session s (i ∷ items) =
    inherit_items-session (inherit_item s i) items ∙ inherit_content-session _ i.content

map-append_one {ℓ κ} :
    {A : Type ℓ} {B : Type κ} (f : A → B) (xs : List A) (x : A)
    → map f (xs ++ x ∷ []) ≡ map f xs ++ f x ∷ []
map-append_one f [] x = refl
map-append_one f (y ∷ xs) x = ap (◌∷◌ (f y)) (map-append_one f xs x)

length-map {ℓ κ} :
    {A : Type ℓ} {B : Type κ} (f : A → B) (xs : List A) → length (map f xs) ≡ length xs
length-map f [] = refl
length-map f (x ∷ xs) = ap suc (length-map f xs)

inherited_after-fork :
    (count inherited : ℕ) (items : List Item) (last : Item)
    → is_fork last.content ≡ true
    → inherited_after count inherited (items ++ last ∷ []) ≡ count + length (items ++ last ∷ [])
inherited_after-fork count inherited [] last h = rw h (omega arith)
inherited_after-fork count inherited (i ∷ items) last h =
    inherited_after-fork (suc count) _ items last h ∙ omega arith

AreNumbered-last :
    (index : ℕ) (items : List Item) (last : Item)
    → AreNumbered index (items ++ last ∷ [])
    → last.sequence ≡ (index + length (items ++ last ∷ [])) % 2 ^ 64
AreNumbered-last index [] last h = h.0
AreNumbered-last index (i ∷ items) last h =
    omega (arith, AreNumbered-last (suc index) items last h.1)

All-map {ℓ κ μ} :
    {A : Type ℓ} {B : Type κ} (P : A → Type μ) (Q : B → Type μ) (f : A → B) (xs : List A)
    → ((x : A) → P x → Q (f x))
    → All P xs
    → All Q (map f xs)
All-map P Q f [] keeps h = tt
All-map P Q f (x ∷ xs) keeps h = (keeps x h.0, All-map P Q f xs keeps h.1)

All-take {ℓ κ} : {A : Type ℓ} (P : A → Type κ) (n : ℕ) (xs : List A) → All P xs → All P (take n xs)
All-take P zero xs h = tt
All-take P (suc n) [] h = tt
All-take P (suc n) (x ∷ xs) h = (h.0, All-take P n xs h.1)

stripped-IsFormatted :
    (c : Codec) (i : Item) → IsFormatted c i.content → IsFormatted c (stripped i).content
stripped-IsFormatted c i h = (without_operations-IsFormatted c i.content h).0

module _ (json : Json) (c : Codec) where
  replay_inherited :
      (inherited : ℕ) (items : List Item) (p : Replay)
      → p.replayed_items + length items ≤ inherited
      → replay_records json c inherited p
          (map (λ i. Decoded.item (record_of i)) (map stripped items))
        ≡ ok (record {
          value = inherit_items p.value items;
          replayed_items = p.replayed_items + length items;
        })
  unfolding replay_records replay_record inherit_items
  replay_inherited inherited [] p h = ap (λ n. ok (record p { replayed_items = n })) (omega arith)
  replay_inherited inherited (i ∷ items) p h =
      let behind : ltb p.replayed_items inherited ≡ true = ground arith in
      rw
        (
          behind,
          operations_of-stripped i.content,
          inherit_item-stripped p.value i.sequence i.recorded_at i.content,
        )
        (replay_inherited inherited items
            (record { value = inherit_item p.value i; replayed_items = suc p.replayed_items })
            (omega arith)
          ∙ ap
              (λ n. ok (record {
                value = inherit_items (inherit_item p.value i) items;
                replayed_items = n;
              }))
              (omega arith))

  module _ (l : IsLawful c) (id : String) (now : ℕ) (prefix : List Item) (value : Fork) where
    begun : StoredState
    begun = inherit_items (new_stored_state id now) prefix

    forked : StoredState
    forked = append_fork begun value now

    fork_item : Item
    fork_item = (append_item begun.head (ItemData.fork value) now).1

    inherited_items : List Item
    inherited_items = prefix ++ fork_item ∷ []

    forked-items : forked.items ≡ map stripped inherited_items
    unfolding forked begun fork_item inherited_items append_fork new_stored_state append_item
    forked-items =
        ap (λ (xs : List Item). xs ++ fork_item ∷ [])
          (inherit_items-items (new_stored_state id now) prefix)
        ∙ sym (map-append_one stripped prefix fork_item)

    forked-inherited : inherit_items (new_stored_state id now) inherited_items ≡ forked
    unfolding forked begun fork_item inherited_items append_fork append_item inherit_item
        inherit_head
    forked-inherited = inherit_items-append_one (new_stored_state id now) prefix fork_item

    forked-session : forked.head.session ≡ record { id = id; created_at = now }
    unfolding forked begun append_fork append_item reset_owned_state new_stored_state
    forked-session = inherit_items-session (new_stored_state id now) prefix

    forked-sequence : forked.head.item_sequence ≡ fork_item.sequence
    unfolding forked fork_item append_fork append_item reset_owned_state
    forked-sequence = refl

    all_inherited : inherited_after 0 0 (map stripped inherited_items) ≡ length inherited_items
    unfolding inherited_items fork_item append_item
    all_inherited =
        ap (inherited_after 0 0) (map-append_one stripped prefix fork_item)
        ∙ inherited_after-fork 0 0 (map stripped prefix) fork_item refl
        ∙ omega (
          arith,
          length-append (map stripped prefix) (fork_item ∷ []),
          length-append prefix (fork_item ∷ []),
          length-map stripped prefix,
        )

    numbered_last :
        AreNumbered 0 (map stripped inherited_items)
        → fork_item.sequence ≡ length inherited_items % 2 ^ 64
    unfolding inherited_items fork_item append_item
    numbered_last h =
        AreNumbered-last 0 (map stripped prefix) fork_item
          (subst (AreNumbered 0) (map-append_one stripped prefix fork_item) h)
        ∙ omega (
          arith,
          length-append (map stripped prefix) (fork_item ∷ []),
          length-append prefix (fork_item ∷ []),
          length-map stripped prefix,
        )

    inherited-AreFormatted : AreFormatted c prefix → AreFormatted c (map stripped inherited_items)
    unfolding inherited_items fork_item append_item
    inherited-AreFormatted h =
        let P : Item → Type 0 = λ i. IsFormatted c i.content in
        All-map P P stripped inherited_items (stripped-IsFormatted c)
          (All-append_one P prefix fork_item h tt)

    forked-IsLogOf :
        {out : Bytes}
        → AreFormatted c prefix
        → (now == 0) ≡ false
        → encode_initial_log json c forked.head.session forked.items ≡ ok out
        → (lines : List Bytes) × (out ≡ join lines) × IsLogOf json c lines forked
    forked-IsLogOf {out} formatted time h =
        let wrote : encode_initial_log json c (record { id = id; created_at = now })
              (map stripped inherited_items)
            ≡ ok out =
          ap₂ (encode_initial_log json c) (sym forked-session) (sym forked-items) ∙ h in
        let st =
          encode_initial_log-Started json c l _ _ (inherited-AreFormatted formatted) time wrote in
        (
          st.first ∷ st.lines,
          st.joined,
          record {
            begins = (st.first, st.lines, refl);
            whole = st.whole;
            scan = _;
            scanned = st.scanned;
            replayed =
                replay_inherited (inherited_after 0 0 (map stripped inherited_items))
                  inherited_items (record { value = new_stored_state id now; replayed_items = 0 })
                  (omega (arith, all_inherited))
                ∙ ap₂ (λ v n. ok (record { value = v; replayed_items = n })) forked-inherited
                    (omega (arith, length-map stripped inherited_items));
            counted =
                forked-sequence
                ∙ numbered_last st.numbered
                ∙ ap (λ n. n % 2 ^ 64) (sym (length-map stripped inherited_items));
            inherited = omega (arith, all_inherited, length-map stripped inherited_items);
          },
        )

  -- What is written for a fork holds the fork.
  pub fork-IsLogOf :
      (l : IsLawful c) (parent : StoredState) (id turn_id : String) (now : ℕ) {child : StoredState}
      {out : Bytes}
      → AreFormatted c parent.items
      → (now == 0) ≡ false
      → fork_stored_state parent id turn_id now ≡ ok child
      → encode_initial_log json c child.head.session child.items ≡ ok out
      → (lines : List Bytes) × (out ≡ join lines) × IsLogOf json c lines child
  unfolding fork_stored_state forked begun
  fork-IsLogOf l parent id turn_id now {child} {out} formatted time made =
      elim (Bool-cases (find_boundary turn_id parent.items 0 0 == 0)) [
        | inl missing ↦ cc (rw missing at made)
        | inr found ↦
            subst
              (λ (k : StoredState).
                encode_initial_log json c k.head.session k.items ≡ ok out
                → (lines : List Bytes) × (out ≡ join lines) × IsLogOf json c lines k)
              (ok-injective (rw found at made))
              (forked-IsLogOf l id now (take (find_boundary turn_id parent.items 0 0) parent.items)
                _ (All-take _ (find_boundary turn_id parent.items 0 0) parent.items formatted) time)
      ]

  -- A fork's items stand as JSON writes them, if those of its parent do.
  pub fork-AreFormatted :
      (l : IsLawful c) (parent : StoredState) (id turn_id : String) (now : ℕ)
      → AreFormatted c parent.items
      → Holds
          (λ (child : StoredState). AreFormatted c child.items)
          (fork_stored_state parent id turn_id now)
  unfolding fork_stored_state forked begun
  fork-AreFormatted l parent id turn_id now formatted =
      elim (Bool-cases (find_boundary turn_id parent.items 0 0 == 0)) [
        | inl missing ↦ rw missing tt
        | inr found ↦
            let prefix = take (find_boundary turn_id parent.items 0 0) parent.items in
            let value : Fork = record {
              parent_id = parent.head.session.id;
              previous_turn_id = turn_id;
            } in
            rw found (
              subst (AreFormatted c) (sym (forked-items l id now prefix value)) (
                inherited-AreFormatted l id now prefix value
                  (All-take _ (find_boundary turn_id parent.items 0 0) parent.items formatted)))
      ]
