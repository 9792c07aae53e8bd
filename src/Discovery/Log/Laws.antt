-- ===== src/Discovery/Log/Laws.antt =====
-- What the strict decoding of a log guarantees.
use mathlib.Core.Path.{subst}
use rpc_state_indexer.Prelude.{
  ℕ, zero, suc, ◌≤◌, ◌<◌, refl, sym, ap, ◌∙◌, ◌≡◌, Option, none, some, Bool, true, false, List, [],
  ◌∷◌, get_elem?, drop, >>=-returns, passed, ok, err, arith, RaisesOnly, raises_rules,
  RaisesOnly-bind, RaisesOnly-ok, Bool-cases, inl, inr, if◌then◌else◌,
}
use rpc_state_indexer.Prelude.Text.{Text, text, text_eq, text_in, text_eq_iff}
use rpc_state_indexer.Json.{Json, null, bool, str, arr, obj, nil, cons, elements, Fields, get}
use rpc_state_indexer.Hex.{is_quantity, hex}
use rpc_state_indexer.Hex.Quantity.{hex-is_quantity, int_16-hex}
use rpc_state_indexer.Discovery.Coverage.{BlockRange, contains}
use rpc_state_indexer.Discovery.Fault.{
  DiscoveryError, response, ResponseFault, unexpected_address, outside_filter,
}
use rpc_state_indexer.Discovery.Log.{
  TopicConstraint, is_expected_address, first_topic, LogFilter, NormalizedLog, matches_topics,
  parse_quantity, parse_hash, parse_topics, parse_address, check_removed, parse_topic_list,
  parse_data, parse_fields, parse_log,
}

pub data FromResponse : DiscoveryError → Type 0 where
  from : (f : ResponseFault) → FromResponse (response f)

parse_quantity-raises : (name : Text) (v : Json) → RaisesOnly FromResponse (parse_quantity name v)
unfolding parse_quantity
parse_quantity-raises name (str s) = elim (Bool-cases (is_quantity s)) [
  | inl e ↦ rw e (search raises_rules)
  | inr e ↦ rw e (search (raises_rules, from))
]
parse_quantity-raises name _ = search (raises_rules, from)

pub RaisesOnly-test :
    {A : Type 0} (b : Bool) (a : A) (f : ResponseFault)
    → RaisesOnly FromResponse (if b then ok a else err (response f))
RaisesOnly-test true a f = search raises_rules
RaisesOnly-test false a f = search (raises_rules, from)

ruleset response_rules = (raises_rules, from, RaisesOnly-test)

parse_hash-raises : (name : Text) (v : Json) → RaisesOnly FromResponse (parse_hash name v)
unfolding parse_hash
parse_hash-raises name (str s) = search response_rules
parse_hash-raises name _ = search response_rules

parse_topics-raises : (vs : List Json) → RaisesOnly FromResponse (parse_topics vs)
unfolding parse_topics
parse_topics-raises [] = search response_rules
parse_topics-raises (v ∷ vs) =
    RaisesOnly-bind (parse_hash (text "topic") v) _ (parse_hash-raises _ v)
      λ t. RaisesOnly-bind (parse_topics vs) _ (parse_topics-raises vs) λ ts. RaisesOnly-ok (t ∷ ts)

parse_topic_list-raises : (v : Json) → RaisesOnly FromResponse (parse_topic_list v)
unfolding parse_topic_list
parse_topic_list-raises (arr nil) = search response_rules
parse_topic_list-raises (arr (cons v vs)) = parse_topics-raises (v ∷ elements vs)
parse_topic_list-raises null = search response_rules
parse_topic_list-raises _ = search response_rules

parse_address-raises : (v : Json) → RaisesOnly FromResponse (parse_address v)
unfolding parse_address
parse_address-raises (str s) = search response_rules
parse_address-raises _ = search response_rules

parse_data-raises : (v : Json) → RaisesOnly FromResponse (parse_data v)
unfolding parse_data
parse_data-raises (str s) = search response_rules
parse_data-raises _ = search response_rules

check_removed-raises : (v : Json) → RaisesOnly FromResponse (check_removed v)
check_removed-raises (bool b) = search response_rules
check_removed-raises _ = search response_rules

pub parse_log-raises :
    (f : LogFilter) (r : BlockRange) (v : Json) → RaisesOnly FromResponse (parse_log f r v)
unfolding parse_log parse_fields
parse_log-raises f r (obj v) =
    search
      (
        response_rules, parse_address-raises, check_removed-raises, parse_topic_list-raises,
        parse_data-raises, parse_hash-raises, parse_quantity-raises,
      )
      depth 30
parse_log-raises f r _ = search response_rules

-- A log that is accepted for one range is accepted, unchanged, for a range that holds its block.
pub parse_log-widen :
    (f : LogFilter) (r q : BlockRange) (v : Json) (l : NormalizedLog)
    → parse_log f r v ≡ ok l
    → contains q l.block_number ≡ true
    → parse_log f q v ≡ ok l
unfolding parse_log parse_fields
parse_log-widen f r q (obj v) l h c = ground arith
parse_log-widen f r q _ l h c = cc

-- The values that a position allows.
text_in-index : (t : Text) (c : List Text) → text_in t c ≡ true → (j : ℕ) × (get_elem? c j ≡ some t)
text_in-index t [] h = absurd (cc h)
text_in-index t (u ∷ c) h = elim (Bool-cases (text_eq t u)) [
  | inl e ↦ (0, ap some (sym ((text_eq_iff t u).0 e)))
  | inr e ↦ let (j, at) = text_in-index t c (rw e at h) in (suc j, at)
]

second_on :
    (topics : List Text) (i : ℕ) (t : Text)
    → get_elem? (drop 1 topics) i ≡ some t
    → get_elem? topics (suc i) ≡ some t
second_on [] i t h = h
second_on (u ∷ topics) i t h = h

-- Every position with a constraint has a topic, which is one of the constraint's.
abbrev pub AtPositions : List TopicConstraint → List Text → Type 0
AtPositions constraints topics =
    (i : ℕ) (c : List Text)
    → get_elem? constraints i ≡ some (some c)
    → (t : Text) × (j : ℕ) × (get_elem? topics i ≡ some t) × (get_elem? c j ≡ some t)

matches_topics-AtPositions :
    (constraints : List TopicConstraint) (topics : List Text)
    → matches_topics constraints topics ≡ true
    → AtPositions constraints topics
unfolding matches_topics
matches_topics-AtPositions [] topics h i c at = absurd (cc at)
matches_topics-AtPositions (none ∷ cs) topics h zero c at = absurd (cc at)
matches_topics-AtPositions (none ∷ cs) topics h (suc i) c at =
    let (t, j, here, allowed) = matches_topics-AtPositions cs (drop 1 topics) h i c at in
    (t, j, second_on topics i t here, allowed)
matches_topics-AtPositions (some d ∷ cs) [] h i c at = absurd (cc h)
matches_topics-AtPositions (some d ∷ cs) (t ∷ ts) h zero c at =
    let (j, allowed) = text_in-index t c (ground (arith, at, h)) in (t, j, refl, allowed)
matches_topics-AtPositions (some d ∷ cs) (t ∷ ts) h (suc i) c at =
    matches_topics-AtPositions cs ts (ground (arith, h)) i c at

-- What an accepted log is, against the filter, the queried blocks and the JSON value.
pub record Accepted (f : LogFilter) (r : BlockRange) (v : Json) (l : NormalizedLog) : Type 0 where
  pub in_range : (r.start ≤ l.block_number) × (l.block_number < r.end_exclusive)
  pub at_address : (a : Text) → f.address ≡ some a → l.address ≡ a
  pub at_positions : AtPositions f.topics l.topics
  pub first : get_elem? l.topics 0 ≡ some l.topic0
  pub not_removed :
      (fields : Fields) × (v ≡ obj fields) × (get (text "removed") fields ≡ bool false)

parse_topic_list-first :
    (v : Json) (topics : List Text)
    → parse_topic_list v ≡ ok topics
    → get_elem? topics 0 ≡ some (first_topic topics)
unfolding parse_topic_list parse_topics
parse_topic_list-first (arr (cons v vs)) topics h =
    let (t, e1, f1) = >>=-returns (parse_hash (text "topic") v) _ h in
    let (ts, e2, f2) = >>=-returns (parse_topics (elements vs)) _ f1 in
    subst (λ (xs : List Text). get_elem? xs 0 ≡ some (first_topic xs)) {x = t ∷ ts} {y = topics}
      (cc f2) refl
parse_topic_list-first (arr nil) topics h = absurd (cc h)
parse_topic_list-first _ topics h = absurd (cc h)

kept : (v : Json) {u : Unit {0}} → check_removed v ≡ ok u → v ≡ bool false
kept (bool false) h = refl
kept (bool true) h = absurd (cc h)
kept _ h = absurd (cc h)

expected_address :
    (expected : Option Text) (address : Text)
    → is_expected_address expected address ≡ true
    → (a : Text) → expected ≡ some a
    → address ≡ a
expected_address none address h a e = absurd (cc e)
expected_address (some b) address h a e = (text_eq_iff address b).0 h ∙ cc e

-- A log that is accepted lies in the queried blocks and is not marked as removed. It comes from the
-- filter's address, if there is one; and at every position where the filter has a constraint it has
-- a topic, which is one of the constraint's. Its `topic0` is the first of its topics.
pub parse_log-Accepted :
    (f : LogFilter) (r : BlockRange) (v : Json) (l : NormalizedLog)
    → parse_log f r v ≡ ok l
    → Accepted f r v l
unfolding parse_log parse_fields
parse_log-Accepted f r (obj v) l h =
    let (address, e1, f1) = >>=-returns (parse_address (get (text "address") v)) _ h in
    let (expected, f2) =
      passed (is_expected_address f.address address) (response unexpected_address) _ f1 in
    let (u, e3, f3) = >>=-returns (check_removed (get (text "removed") v)) _ f2 in
    let (topics, e4, f4) = >>=-returns (parse_topic_list (get (text "topics") v)) _ f3 in
    let (matching, f5) = passed (matches_topics f.topics topics) (response outside_filter) _ f4 in
    let same : (l.address ≡ address) × (l.topics ≡ topics) × (l.topic0 ≡ first_topic topics) =
      ground (arith, f5) in
    let (is_address, is_topics, is_first) = same in
    record {
      in_range = ground (arith, f5);
      at_address = λ a e. is_address ∙ expected_address f.address address expected a e;
      at_positions =
          subst (AtPositions f.topics) (sym is_topics)
            (matches_topics-AtPositions f.topics topics matching);
      first = cc (is_topics, is_first, parse_topic_list-first (get (text "topics") v) topics e4);
      not_removed = (v, refl, kept (get (text "removed") v) e3);
    }
parse_log-Accepted f r _ l h = absurd (cc h)

-- The strict parser reads every number in the form in which the program writes block numbers.
pub parse_quantity-hex : (name : Text) (n : ℕ) → parse_quantity name (str (hex n)) ≡ ok n
unfolding parse_quantity
parse_quantity-hex name n = rw (hex-is_quantity n, int_16-hex n) refl
