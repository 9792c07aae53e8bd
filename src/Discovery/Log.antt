-- ===== src/Discovery/Log.antt =====
-- `LogFilter`, `NormalizedLog` and `_parse_log` of core/discovery.py.
pub mod Laws
use rpc_state_indexer.Prelude.{
  ℕ, zero, suc, ◌+◌, ◌-◌, Bool, true, false, not, ◌&&◌, ◌||◌, Option, none, some, List, [], ◌∷◌,
  ◌++◌, Result, ok, err, ◌>>=◌, ◌>>◌, raise_if, ltb, leb, ◌==◌, if◌then◌else◌, length, drop, take,
  all, get_elem?, replicate, map,
}
use rpc_state_indexer.Prelude.Text.{Text, text, text_eq, text_in}
use rpc_state_indexer.Json.{
  Json, null, bool, int, real, str, arr, obj, Elements, nil, cons, Fields, end, field, elements,
  get,
}
use rpc_state_indexer.Hex.{
  is_address, is_hash, is_hex_data, is_quantity, int_16, hex, lower, lower_char,
}
use rpc_state_indexer.Discovery.Coverage.{BlockRange, contains}
use rpc_state_indexer.Discovery.Fault.{
  DiscoveryError, response, value, ResponseFault, not_object, bad_address, unexpected_address,
  bad_removed, removed_log, no_topics, outside_filter, bad_data, outside_range, missing_topic,
  noncanonical_holder, bad_quantity, bad_hash, filter_address, too_many_topics, unconstrained,
  empty_constraint, bad_constraint,
}

-- `None` leaves the position unconstrained.
abbrev pub TopicConstraint : Type 0
TopicConstraint = Option (List Text)

pub record LogFilter : Type 0 where
  pub address : Option Text
  pub topics : List TopicConstraint

abbrev pub is_unconstrained : TopicConstraint → Bool
is_unconstrained none = true
is_unconstrained (some c) = false

-- A lower-case 32-byte word.
abbrev pub is_topic : Text → Bool
is_topic t = is_hash t && text_eq t (lower t)

abbrev pub check_constraint : TopicConstraint → Result DiscoveryError (Unit {0})
check_constraint none = ok tt
check_constraint (some []) = err (value empty_constraint)
check_constraint (some (t ∷ ts)) = raise_if (not (all is_topic (t ∷ ts))) (value bad_constraint)

abbrev pub check_constraints : List TopicConstraint → Result DiscoveryError (Unit {0})
check_constraints [] = ok tt
check_constraints (c ∷ cs) = do check_constraint c; check_constraints cs

abbrev pub is_filter_address : Option Text → Bool
is_filter_address none = true
is_filter_address (some a) = is_address a

-- `__post_init__`.
unfoldable pub make_filter : Option Text → List TopicConstraint → Result DiscoveryError LogFilter
make_filter address topics = do
  raise_if (not (is_filter_address address)) (value filter_address)
  raise_if (ltb 4 (length topics)) (value too_many_topics)
  raise_if (all is_unconstrained topics) (value unconstrained)
  check_constraints topics
  ok (record { address = address; topics = topics })

abbrev pub strings : List Text → Elements
strings [] = nil
strings (t ∷ ts) = cons (str t) (strings ts)

abbrev pub push_topic : TopicConstraint → Elements → Elements
push_topic none nil = nil
push_topic none (cons v vs) = cons null (cons v vs)
push_topic (some c) vs = cons (arr (strings c)) vs

-- The lists of the constraints, without the `None`s at the end.
abbrev pub topic_params : List TopicConstraint → Elements
topic_params [] = nil
topic_params (c ∷ cs) = push_topic c (topic_params cs)

abbrev pub address_param : Option Text → Fields
address_param none = end
address_param (some a) = field (text "address") (str a) end

unfoldable pub params : LogFilter → BlockRange → Json
unfolding hex
params f r = obj (
    field (text "topics") (arr (topic_params f.topics)) (
      field (text "fromBlock") (str (hex r.start))
        (field (text "toBlock") (str (hex (r.end_exclusive - 1))) (address_param f.address))))

unfoldable pub matches_topics : List TopicConstraint → List Text → Bool
matches_topics [] topics = true
matches_topics (none ∷ cs) topics = matches_topics cs (drop 1 topics)
matches_topics (some c ∷ cs) [] = false
matches_topics (some c ∷ cs) (t ∷ ts) = text_in t c && matches_topics cs ts

pub record NormalizedLog : Type 0 where
  pub address : Text
  pub topic0 : Text
  pub topics : List Text
  pub payload : Text
  pub block_number : ℕ
  pub block_hash : Text
  pub transaction_hash : Text
  pub transaction_index : ℕ
  pub log_index : ℕ

unfoldable pub parse_quantity : Text → Json → Result DiscoveryError ℕ
unfolding is_quantity int_16
parse_quantity name (str s) =
    if is_quantity s then ok (int_16 s) else err (response (bad_quantity name))
parse_quantity name _ = err (response (bad_quantity name))

unfoldable pub parse_hash : Text → Json → Result DiscoveryError Text
unfolding is_hash lower_char
parse_hash name (str s) = if is_hash s then ok (lower s) else err (response (bad_hash name))
parse_hash name _ = err (response (bad_hash name))

unfoldable pub parse_topics : List Json → Result DiscoveryError (List Text)
unfolding parse_hash
parse_topics [] = ok []
parse_topics (v ∷ vs) = do t ← parse_hash (text "topic") v; ts ← parse_topics vs; ok (t ∷ ts)

unfoldable pub parse_address : Json → Result DiscoveryError Text
unfolding is_address lower_char
parse_address (str s) = if is_address (lower s) then ok (lower s) else err (response bad_address)
parse_address _ = err (response bad_address)

abbrev pub is_expected_address : Option Text → Text → Bool
is_expected_address none a = true
is_expected_address (some e) a = text_eq a e

abbrev pub check_removed : Json → Result DiscoveryError (Unit {0})
check_removed (bool b) = raise_if b (response removed_log)
check_removed _ = err (response bad_removed)

unfoldable pub parse_topic_list : Json → Result DiscoveryError (List Text)
unfolding parse_topics
parse_topic_list (arr nil) = err (response no_topics)
parse_topic_list (arr (cons v vs)) = parse_topics (v ∷ elements vs)
parse_topic_list _ = err (response no_topics)

unfoldable pub parse_data : Json → Result DiscoveryError Text
unfolding is_hex_data lower_char
parse_data (str s) = if is_hex_data s then ok (lower s) else err (response bad_data)
parse_data _ = err (response bad_data)

abbrev pub first_topic : List Text → Text
first_topic [] = []
first_topic (t ∷ ts) = t

unfoldable pub parse_fields : LogFilter → BlockRange → Fields → Result DiscoveryError NormalizedLog
parse_fields f requested v = do
  address ← parse_address (get (text "address") v)
  raise_if (not (is_expected_address f.address address)) (response unexpected_address)
  check_removed (get (text "removed") v)
  topics ← parse_topic_list (get (text "topics") v)
  raise_if (not (matches_topics f.topics topics)) (response outside_filter)
  payload ← parse_data (get (text "data") v)
  block_number ← parse_quantity (text "blockNumber") (get (text "blockNumber") v)
  raise_if (not (contains requested block_number)) (response outside_range)
  transaction_index ← parse_quantity (text "transactionIndex") (get (text "transactionIndex") v)
  log_index ← parse_quantity (text "logIndex") (get (text "logIndex") v)
  block_hash ← parse_hash (text "blockHash") (get (text "blockHash") v)
  transaction_hash ← parse_hash (text "transactionHash") (get (text "transactionHash") v)
  ok (record {
    address = address;
    topic0 = first_topic topics;
    topics = topics;
    payload = payload;
    block_number = block_number;
    block_hash = block_hash;
    transaction_hash = transaction_hash;
    transaction_index = transaction_index;
    log_index = log_index;
  })

-- `_parse_log`.
unfoldable pub parse_log : LogFilter → BlockRange → Json → Result DiscoveryError NormalizedLog
parse_log f requested (obj v) = parse_fields f requested v
parse_log f requested _ = err (response not_object)

abbrev pub zero_address : Text
zero_address = text "0x0000000000000000000000000000000000000000"

-- `"0x" + topic[-40:].lower()`.
unfoldable pub holder_of : Text → Text
unfolding lower_char
holder_of topic = b'0' ∷ b'x' ∷ lower (drop (length topic - 40) topic)

-- `topic[2:26] == "0" * 24`.
abbrev pub is_address_word : Text → Bool
is_address_word topic = text_eq (take 24 (drop 2 topic)) (replicate 24 b'0')

abbrev pub keep_holder : Bool → Text → List Text → List Text
keep_holder include_zero holder rest =
    if include_zero || not (text_eq holder zero_address) then holder ∷ rest else rest

-- `topics[position]`, where positions below 1 are refused too.
abbrev pub topic_at : List Text → ℕ → Option Text
topic_at topics zero = none
topic_at topics (suc i) = get_elem? topics (suc i)

abbrev pub holder_at : Option Text → Result DiscoveryError Text
holder_at none = err (response missing_topic)
holder_at (some topic) =
    if is_address_word topic then ok (holder_of topic) else err (response noncanonical_holder)

-- `holders`: positions are read in order, and the first bad one raises.
unfoldable pub holders : NormalizedLog → Bool → List ℕ → Result DiscoveryError (List Text)
unfolding holder_of
holders log include_zero [] = ok []
holders log include_zero (p ∷ ps) = do
  holder ← holder_at (topic_at log.topics p)
  rest ← holders log include_zero ps
  ok (keep_holder include_zero holder rest)
