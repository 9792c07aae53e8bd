-- ===== src/Discovery/Dedup/Laws.antt =====
-- `deduplicate_logs` keeps every log once, in the order of the sort key, and refuses two logs that
-- share an identity and differ.
use mathlib.Core.Path.{subst}
use rpc_state_indexer.Prelude.{
  ◌≡◌, refl, ◌∙◌, Bool, true, false, ◌||◌, ◌↔◌, none, some, List, [], ◌∷◌, ◌++◌, ok, >>=-returns,
  Bool-cases, Option-cases, inl, inr, arith,
}
use rpc_state_indexer.Prelude.Text.{Text, text_eq_iff, text_eq_refl}
use rpc_state_indexer.Discovery.Log.{NormalizedLog}
use rpc_state_indexer.Discovery.Dedup.{
  same_identity, texts_eq, log_eq, find_identity, record_log, dedup_loop, key_leb, insert_log,
  sort_logs, deduplicate_logs, text_leb,
}

texts_eq_iff : (s t : List Text) → (texts_eq s t ≡ true) ↔ (s ≡ t)
texts_eq_iff [] [] = ((λ h. refl), (λ h. refl))
texts_eq_iff [] (d ∷ t) = ((λ h. cc), (λ h. cc))
texts_eq_iff (c ∷ s) [] = ((λ h. cc), (λ h. cc))
texts_eq_iff (c ∷ s) (d ∷ t) = ground (arith, text_eq_iff c d, texts_eq_iff s t)

log_eq→eq : (a b : NormalizedLog) → log_eq a b ≡ true → a ≡ b
unfolding log_eq
log_eq→eq a b h = ground (
  arith,
  text_eq_iff a.address b.address,
  text_eq_iff a.topic0 b.topic0,
  texts_eq_iff a.topics b.topics,
  text_eq_iff a.payload b.payload,
  text_eq_iff a.block_hash b.block_hash,
  text_eq_iff a.transaction_hash b.transaction_hash,
)

-- Whether some log of the list has the identity of `log`.
abbrev pub has_identity : NormalizedLog → List NormalizedLog → Bool
has_identity log [] = false
has_identity log (l ∷ ls) = same_identity l log || has_identity log ls

-- No two logs share an identity.
abbrev pub HasDistinctIdentities : List NormalizedLog → Type 0
HasDistinctIdentities [] = Unit {0}
HasDistinctIdentities (l ∷ ls) = (has_identity l ls ≡ false) × HasDistinctIdentities ls

-- `x in logs`.
abbrev pub contains_log : NormalizedLog → List NormalizedLog → Bool
contains_log x [] = false
contains_log x (l ∷ ls) = log_eq l x || contains_log x ls

same_identity-sym : (a b : NormalizedLog) → same_identity a b ≡ same_identity b a
unfolding same_identity
same_identity-sym a b = ground (
  arith,
  text_eq_iff a.block_hash b.block_hash,
  text_eq_iff b.block_hash a.block_hash,
  text_eq_iff a.transaction_hash b.transaction_hash,
  text_eq_iff b.transaction_hash a.transaction_hash,
)

find_identity-none :
    (log : NormalizedLog) (ls : List NormalizedLog)
    → find_identity log ls ≡ none
    → has_identity log ls ≡ false
unfolding find_identity
find_identity-none log [] h = refl
find_identity-none log (l ∷ ls) h = ground (arith, find_identity-none log ls)

find_identity-contains :
    (log previous : NormalizedLog) (ls : List NormalizedLog)
    → find_identity log ls ≡ some previous
    → log_eq previous previous ≡ true
    → contains_log previous ls ≡ true
unfolding find_identity
find_identity-contains log previous [] h r = cc
find_identity-contains log previous (l ∷ ls) h r =
    ground (arith, find_identity-contains log previous ls)

has_identity-snoc :
    (x log : NormalizedLog) (ls : List NormalizedLog)
    → has_identity x (ls ++ log ∷ []) ≡ (has_identity x ls || same_identity log x)
has_identity-snoc x log [] = ground arith
has_identity-snoc x log (l ∷ ls) = ground (arith, has_identity-snoc x log ls)

snoc-HasDistinctIdentities :
    (log : NormalizedLog) (ls : List NormalizedLog)
    → HasDistinctIdentities ls
    → has_identity log ls ≡ false
    → HasDistinctIdentities (ls ++ log ∷ [])
snoc-HasDistinctIdentities log [] d h = (refl, tt)
snoc-HasDistinctIdentities log (l ∷ ls) d h = ground (
  arith,
  has_identity-snoc l log ls,
  same_identity-sym l log,
  snoc-HasDistinctIdentities log ls d.1,
)

contains_log-snoc :
    (x log : NormalizedLog) (ls : List NormalizedLog)
    → contains_log x (ls ++ log ∷ []) ≡ (contains_log x ls || log_eq log x)
contains_log-snoc x log [] = ground arith
contains_log-snoc x log (l ∷ ls) = ground (arith, contains_log-snoc x log ls)

log_eq_refl : (a : NormalizedLog) → log_eq a a ≡ true
unfolding log_eq
log_eq_refl a = ground (
  arith,
  text_eq_refl a.address,
  text_eq_refl a.topic0,
  (texts_eq_iff a.topics a.topics).1 refl,
  text_eq_refl a.payload,
  text_eq_refl a.block_hash,
  text_eq_refl a.transaction_hash,
)

-- What one round of the loop does to the dictionary, where it does not raise.
record Recorded (seen seen' : List NormalizedLog) (log : NormalizedLog) : Type 0 where
  distinct : HasDistinctIdentities seen'
  same_logs : (x : NormalizedLog) → contains_log x seen' ≡ (contains_log x seen || log_eq log x)

added-Recorded :
    (seen : List NormalizedLog) (log : NormalizedLog)
    → HasDistinctIdentities seen
    → find_identity log seen ≡ none
    → Recorded seen (seen ++ log ∷ []) log
added-Recorded seen log d new = record {
  distinct = snoc-HasDistinctIdentities log seen d (find_identity-none log seen new);
  same_logs = λ x. contains_log-snoc x log seen;
}

-- An equal log is in the dictionary already.
repeated-Recorded :
    (seen : List NormalizedLog) (log previous : NormalizedLog)
    → HasDistinctIdentities seen
    → find_identity log seen ≡ some previous
    → log_eq previous log ≡ true
    → Recorded seen seen log
repeated-Recorded seen log previous d old same = record {
  distinct = d;
  same_logs = λ x.
      let here = find_identity-contains log previous seen old (log_eq_refl previous) in
      elim (Bool-cases (log_eq log x)) [
        | inl e ↦ rw e (
            let p : log ≡ x = log_eq→eq log x e in
            let q : previous ≡ log = log_eq→eq previous log same in
            subst (λ (y : NormalizedLog). contains_log y seen ≡ (contains_log y seen || true))
              (q ∙ p) (rw here))
        | inr ne ↦ rw ne (ground arith)
      ];
}

record_log-Recorded :
    (seen seen' : List NormalizedLog) (log : NormalizedLog)
    → HasDistinctIdentities seen
    → record_log seen log (find_identity log seen) ≡ ok seen'
    → Recorded seen seen' log
record_log-Recorded seen seen' log d h = elim (Option-cases (find_identity log seen)) [
  | inl new ↦
      let e : seen ++ log ∷ [] ≡ seen' = ground arith in
      subst (λ s. Recorded seen s log) e (added-Recorded seen log d new)
  | inr (previous, old) ↦
      let e : seen ≡ seen' = ground arith in
      let same : log_eq previous log ≡ true = ground arith in
      subst (λ s. Recorded seen s log) e (repeated-Recorded seen log previous d old same)
]

dedup_loop-laws :
    (seen logs out : List NormalizedLog)
    → HasDistinctIdentities seen
    → dedup_loop seen logs ≡ ok out
    → HasDistinctIdentities out
      × ((x : NormalizedLog) → contains_log x out ≡ (contains_log x seen || contains_log x logs))
unfolding dedup_loop
dedup_loop-laws seen [] out d h =
    let e : seen ≡ out = ground arith in (subst HasDistinctIdentities e d, λ x. ground arith)
dedup_loop-laws seen (log ∷ logs) out d h =
    let (seen', e, rest) =
      >>=-returns (record_log seen log (find_identity log seen)) (λ s. dedup_loop s logs) h in
    let r = record_log-Recorded seen seen' log d e in
    let later = dedup_loop-laws seen' logs out r.distinct rest in
    (later.0, λ x. ground (arith, later.1 x, r.same_logs x))

contains_log-insert :
    (x l : NormalizedLog) (ls : List NormalizedLog)
    → contains_log x (insert_log l ls) ≡ contains_log x (l ∷ ls)
unfolding insert_log
contains_log-insert x l [] = refl
contains_log-insert x l (m ∷ ms) = elim (Bool-cases (key_leb l m)) [
  | inl first ↦ rw first
  | inr after ↦ rw after (ground (arith, contains_log-insert x l ms))
]

contains_log-sort :
    (x : NormalizedLog) (ls : List NormalizedLog)
    → contains_log x (sort_logs ls) ≡ contains_log x ls
unfolding sort_logs
contains_log-sort x [] = refl
contains_log-sort x (l ∷ ls) =
    contains_log-insert x l (sort_logs ls) ∙ ground (arith, contains_log-sort x ls)

has_identity-insert :
    (x l : NormalizedLog) (ls : List NormalizedLog)
    → has_identity x (insert_log l ls) ≡ has_identity x (l ∷ ls)
unfolding insert_log
has_identity-insert x l [] = refl
has_identity-insert x l (m ∷ ms) = elim (Bool-cases (key_leb l m)) [
  | inl first ↦ rw first
  | inr after ↦ rw after (ground (arith, has_identity-insert x l ms))
]

insert-HasDistinctIdentities :
    (l : NormalizedLog) (ls : List NormalizedLog)
    → has_identity l ls ≡ false
    → HasDistinctIdentities ls
    → HasDistinctIdentities (insert_log l ls)
unfolding insert_log
insert-HasDistinctIdentities l [] h d = (refl, tt)
insert-HasDistinctIdentities l (m ∷ ms) h d = elim (Bool-cases (key_leb l m)) [
  | inl first ↦ rw first (h, d)
  | inr after ↦ rw after (
    ground (arith, has_identity-insert m l ms, same_identity-sym m l),
    insert-HasDistinctIdentities l ms (ground arith) d.1,
  )
]

has_identity-sort :
    (x : NormalizedLog) (ls : List NormalizedLog)
    → has_identity x (sort_logs ls) ≡ has_identity x ls
unfolding sort_logs
has_identity-sort x [] = refl
has_identity-sort x (l ∷ ls) =
    has_identity-insert x l (sort_logs ls) ∙ ground (arith, has_identity-sort x ls)

sort-HasDistinctIdentities :
    (ls : List NormalizedLog) → HasDistinctIdentities ls → HasDistinctIdentities (sort_logs ls)
unfolding sort_logs
sort-HasDistinctIdentities [] d = tt
sort-HasDistinctIdentities (l ∷ ls) d =
    insert-HasDistinctIdentities l (sort_logs ls) (has_identity-sort l ls ∙ d.0)
      (sort-HasDistinctIdentities ls d.1)

-- Each log's key is not above the next one's.
abbrev pub IsKeySorted : List NormalizedLog → Type 0
IsKeySorted [] = Unit {0}
IsKeySorted (l ∷ []) = Unit {0}
IsKeySorted (l ∷ m ∷ ls) = (key_leb l m ≡ true) × IsKeySorted (m ∷ ls)

pub text_leb_total : (s t : Text) → text_leb s t ≡ false → text_leb t s ≡ true
text_leb_total [] t h = cc
text_leb_total (c ∷ s) [] h = refl
text_leb_total (c ∷ s) (d ∷ t) h = ground (arith, text_leb_total s t)

key_leb_total : (l m : NormalizedLog) → key_leb l m ≡ false → key_leb m l ≡ true
key_leb_total l m h = ground (arith, text_leb_total l.transaction_hash m.transaction_hash)

insert-IsKeySorted :
    (l : NormalizedLog) (ls : List NormalizedLog) → IsKeySorted ls → IsKeySorted (insert_log l ls)
unfolding insert_log
insert-IsKeySorted l [] s = tt
insert-IsKeySorted l (m ∷ []) s = elim (Bool-cases (key_leb l m)) [
  | inl first ↦ rw first (first, tt)
  | inr after ↦ rw after (key_leb_total l m after, tt)
]
insert-IsKeySorted l (m ∷ n ∷ ls) s = elim (Bool-cases (key_leb l m)) [
  | inl first ↦ rw first (first, s)
  | inr after ↦ rw after (elim (Bool-cases (key_leb l n)) [
    | inl second ↦ rw second (key_leb_total l m after, (second, s.1))
    | inr later ↦ rw later (s.0, rw later at (insert-IsKeySorted l (n ∷ ls) s.1))
  ])
]

sort-IsKeySorted : (ls : List NormalizedLog) → IsKeySorted (sort_logs ls)
unfolding sort_logs
sort-IsKeySorted [] = tt
sort-IsKeySorted (l ∷ ls) = insert-IsKeySorted l (sort_logs ls) (sort-IsKeySorted ls)

-- Where `deduplicate_logs` returns, the result has exactly the given logs, no two of them with one
-- identity, in the order of the sort key.
pub deduplicate_logs-laws :
    (logs out : List NormalizedLog)
    → deduplicate_logs logs ≡ ok out
    → HasDistinctIdentities out
      × ((x : NormalizedLog) → contains_log x out ≡ contains_log x logs)
      × IsKeySorted out
unfolding deduplicate_logs
deduplicate_logs-laws logs out h =
    let (seen, e, sorted) = >>=-returns (dedup_loop [] logs) (λ seen. ok (sort_logs seen)) h in
    let laws = dedup_loop-laws [] logs seen tt e in
    let p : sort_logs seen ≡ out = ground arith in
    subst
      (λ o.
        HasDistinctIdentities o
        × ((x : NormalizedLog) → contains_log x o ≡ contains_log x logs)
        × IsKeySorted o)
      p
      (
        sort-HasDistinctIdentities seen laws.0,
        (λ x. contains_log-sort x seen ∙ laws.1 x),
        sort-IsKeySorted seen,
      )
