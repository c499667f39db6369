-- ===== src/Inbox/Queue/Delivery.antt =====
-- What harness/inbox/local.go promises: each input once, in the order of the submissions.
use unreal_agent.Base.{
  ℕ, zero, suc, String, ◌≡◌, refl, ap, ap₂, sym, ◌∙◌, Bool, true, false, not, ◌&&◌, List, [], ◌∷◌,
  ◌++◌, ok, ◌==◌, string_eq, if◌then◌else◌, KeySet, include, empty_set, arith, eq_iff, length,
  filter_by, Bool-cases, inl, inr, >>=-eq-ok, reject_if, ◌≤◌,
}
use mathlib.Core.List.{append-nil, append_assoc}
use unreal_agent.Inbox.{Input}
use unreal_agent.Inbox.Queue
use unreal_agent.Inbox.Queue.{
  Loop, Event, received, delivered, mark_seen, new, receive, deliver, step, run,
}

abbrev pub submissions : List Event → List Input
submissions [] = []
submissions (received i ∷ es) = i ∷ submissions es
submissions (delivered ∷ es) = submissions es

abbrev differs : Input → Input → Bool
differs i j = not (i.id == j.id)

-- The first input of each ID.
abbrev pub firsts : List Input → List Input
firsts [] = []
firsts (i ∷ is) = i ∷ filter_by (differs i) (firsts is)

abbrev pub is_listed : List String → String → Bool
is_listed [] j = false
is_listed (i ∷ is) j = if i == j then true else is_listed is j

-- What has gone through the queue so far, in order.
abbrev pub passed : Loop → List Input
passed l = l.sent ++ l.queued

module _ {ℓ} {A : Type ℓ} where
  filter_by-filter_by :
      (p q r : A → Bool) (xs : List A)
      → ((x : A) → (q x && p x) ≡ r x)
      → filter_by p (filter_by q xs) ≡ filter_by r xs
  filter_by-filter_by p q r [] h = refl
  filter_by-filter_by p q r (x ∷ xs) h = ground (arith, h x, filter_by-filter_by p q r xs h)

abbrev unseen : Loop → Input → Bool
unseen l i = not (l.seen i.id)

filter_by-cong_of :
    (p q : Input → Bool) (xs : List Input)
    → ((x : Input) → p x ≡ q x)
    → filter_by p xs ≡ filter_by q xs
filter_by-cong_of p q [] h = refl
filter_by-cong_of p q (x ∷ xs) h = ground (arith, h x, filter_by-cong_of p q xs h)

-- One submission more: what is still to pass is what the rest of the submissions bring.
passed-receive :
    (l : Loop) (i : Input) (is : List Input)
    → passed (receive l i) ++ filter_by (unseen (receive l i)) is
      ≡ passed l ++ filter_by (unseen l) (i ∷ filter_by (differs i) is)
unfolding receive
passed-receive l i is = elim (Bool-cases (l.seen i.id)) [
  | inl old ↦ rw (
    old,
    filter_by-filter_by (unseen l) (differs i) (unseen l) is
        (λ x. ground (arith, ap l.seen {x = i.id} {y = x.id}, eq_iff i.id x.id)),
  )
  | inr fresh ↦
      rw
        (
          fresh,
          filter_by-filter_by (unseen l) (differs i)
              (λ x. not (if i.id == x.id then true else l.seen x.id)) is (λ x. ground arith),
        )
        simp append_assoc
]

passed-deliver : (q : List Input) (l : Loop) → l.queued ≡ q → passed (deliver q l) ≡ passed l
unfolding deliver
passed-deliver [] l e = refl
passed-deliver (next ∷ rest) l e = rw e (append_assoc l.sent (next ∷ []) rest)

seen-deliver : (q : List Input) (l : Loop) → (deliver q l).seen ≡ l.seen
unfolding deliver
seen-deliver [] l = refl
seen-deliver (next ∷ rest) l = refl

passed-run :
    (l : Loop) (es : List Event)
    → passed (run l es) ≡ passed l ++ filter_by (unseen l) (firsts (submissions es))
unfolding run step
passed-run l [] = sym (append-nil (passed l))
passed-run l (received i ∷ es) =
    passed-run (receive l i) es ∙ passed-receive l i (firsts (submissions es))
passed-run l (delivered ∷ es) =
    passed-run (deliver l.queued l) es
    ∙ ap₂
        (λ (u : List Input) (v : KeySet String).
          u ++ filter_by (λ i. not (v i.id)) (firsts (submissions es)))
        (passed-deliver l.queued l refl) (seen-deliver l.queued l)

mark_seen_lem :
    (seen : KeySet String) (ids : List String) {t : KeySet String}
    → mark_seen seen ids ≡ ok t
    → (j : String) → t j ≡ (if is_listed ids j then true else seen j)
unfolding mark_seen
mark_seen_lem seen [] h j = ground arith
mark_seen_lem seen (id ∷ ids) h j =
    let (_, named, rest) = >>=-eq-ok (reject_if (id == "") Queue.empty_seen_id) _ h in
    ground (arith, mark_seen_lem (include id seen) ids rest j)

abbrev pub deliveries : ℕ → List Event
deliveries zero = []
deliveries (suc n) = delivered ∷ deliveries n

drained : (q : List Input) (l : Loop) → l.queued ≡ q → length q ≤ 0 → l.sent ≡ passed l
drained [] l e h = rw e (sym (append-nil l.sent))
drained (i ∷ q) l e h = absurd (omega arith)

queue_shrinks :
    (q : List Input) (l : Loop) (n : ℕ)
    → l.queued ≡ q
    → length q ≤ suc n
    → length (deliver q l).queued ≤ n
unfolding deliver
queue_shrinks [] l n e h = rw e (omega arith)
queue_shrinks (i ∷ q) l n e h = omega arith

drain : (n : ℕ) (l : Loop) → length l.queued ≤ n → (run l (deliveries n)).sent ≡ passed l
unfolding run step
drain zero l h = drained l.queued l refl h
drain (suc n) l h =
    drain n (deliver l.queued l) (queue_shrinks l.queued l n refl h)
    ∙ passed-deliver l.queued l refl

new_lem :
    (seen_ids : List String) {l : Loop}
    → new seen_ids ≡ ok l
    → (passed l ≡ []) × ((j : String) → l.seen j ≡ is_listed seen_ids j)
unfolding new
new_lem seen_ids {l} h =
    let (seen, marked, made) = >>=-eq-ok (mark_seen empty_set seen_ids) _ h in
    (ground arith, λ j. ground (arith, mark_seen_lem empty_set seen_ids marked j))

-- After any submissions and deliveries, what has gone out followed by what is still queued is the
-- submissions in order, each ID once and none of those seen before; and as many further
-- deliveries as the queue is long send all of it.
pub run_delivers_once :
    (seen_ids : List String) (es : List Event) {l : Loop} (n : ℕ)
    → new seen_ids ≡ ok l
    → length (run l es).queued ≤ n
    → let expected = filter_by (λ i. not (is_listed seen_ids i.id)) (firsts (submissions es)) in
      (passed (run l es) ≡ expected) × ((run (run l es) (deliveries n)).sent ≡ expected)
run_delivers_once seen_ids es {l} n h fits = (expected, drain n (run l es) fits ∙ expected)
  where
    expected :
        passed (run l es) ≡ filter_by (λ i. not (is_listed seen_ids i.id)) (firsts (submissions es))
    expected =
        passed-run l es
        ∙ rw ((new_lem seen_ids h).0) (
            filter_by-cong_of _ _ (firsts (submissions es))
              (λ i. ap not ((new_lem seen_ids h).1 i.id)))
