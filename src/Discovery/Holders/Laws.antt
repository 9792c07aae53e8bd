-- ===== src/Discovery/Holders/Laws.antt =====
-- `extract_holders` returns each holder of the logs once, in ascending order.
use mathlib.Core.Path.{subst}
use rpc_state_indexer.Prelude.{
  ℕ, ◌≡◌, refl, sym, ◌∙◌, Bool, true, false, ◌||◌, inl, inr, List, [], ◌∷◌, Result, ok, err,
  >>=-returns, if◌then◌else◌, Bool-cases,
}
use rpc_state_indexer.Prelude.Text.{Text, text_eq, text_in, text_eq_iff}
use rpc_state_indexer.Discovery.Fault.{DiscoveryError}
use rpc_state_indexer.Discovery.Log.{NormalizedLog, holders}
use rpc_state_indexer.Discovery.Dedup.{text_leb}
use rpc_state_indexer.Discovery.Dedup.Laws.{text_leb_total}
use rpc_state_indexer.Discovery.Holders.{
  insert_holder, insert_holders, collect_holders, is_empty, any_below_one, extract_holders,
}

twice : (a b : Bool) → (a || b) ≡ (a || (a || b))
twice true b = refl
twice false b = refl

swap : (a b c : Bool) → (a || (b || c)) ≡ (b || (a || c))
swap true true c = refl
swap true false c = refl
swap false b c = refl

group : (a b c : Bool) → (a || (b || c)) ≡ ((a || b) || c)
group true b c = refl
group false b c = refl

text_in-insert_holder :
    (t h : Text) (xs : List Text) → text_in t (insert_holder h xs) ≡ (text_eq t h || text_in t xs)
unfolding insert_holder
text_in-insert_holder t h [] = refl
text_in-insert_holder t h (x ∷ xs) = elim (Bool-cases (text_eq h x)) [
  | inl e ↦
      let same : h ≡ x = (text_eq_iff h x).0 e in
      rw (insert_holder, e) (rw same (twice (text_eq t x) (text_in t xs)))
  | inr e ↦ elim (Bool-cases (text_leb h x)) [
    | inl f ↦ rw (insert_holder, e, f) refl
    | inr f ↦
        rw (insert_holder, e, f, text_in-insert_holder t h xs)
          (swap (text_eq t x) (text_eq t h) (text_in t xs))
  ]
]

text_in-insert_holders :
    (t : Text) (hs xs : List Text)
    → text_in t (insert_holders hs xs) ≡ (text_in t hs || text_in t xs)
unfolding insert_holders
text_in-insert_holders t [] xs = refl
text_in-insert_holders t (h ∷ hs) xs =
    text_in-insert_holder t h (insert_holders hs xs)
    ∙ rw (text_in-insert_holders t hs xs) (group (text_eq t h) (text_in t hs) (text_in t xs))

-- The address is a holder of the log.
abbrev pub is_among : Text → Result DiscoveryError (List Text) → Bool
is_among t (ok hs) = text_in t hs
is_among t (err fault) = false

-- The address is a holder of one of the logs.
abbrev pub holds_any : Text → List ℕ → Bool → List NormalizedLog → Bool
holds_any t positions include_zero [] = false
holds_any t positions include_zero (log ∷ logs) =
    is_among t (holders log include_zero positions) || holds_any t positions include_zero logs

-- Before the first address of the list.
abbrev pub Before : Text → List Text → Type 0
Before x [] = Unit
Before x (y ∷ ys) = (text_eq x y ≡ false) × (text_leb x y ≡ true)

abbrev pub IsAscending : List Text → Type 0
IsAscending [] = Unit
IsAscending (x ∷ xs) = Before x xs × IsAscending xs

Before-if :
    (x : Text) (test : Bool) (xs ys : List Text)
    → Before x xs
    → Before x ys
    → Before x (if test then xs else ys)
Before-if x true xs ys p q = p
Before-if x false xs ys p q = q

other_way : (s t : Text) → text_eq s t ≡ false → text_eq t s ≡ false
other_way s t h = elim (Bool-cases (text_eq t s)) [
  | inl e ↦ absurd (cc (h, (text_eq_iff s t).1 (sym ((text_eq_iff t s).0 e))))
  | inr e ↦ e
]

insert_holder-Before :
    (x h : Text) (xs : List Text)
    → text_eq x h ≡ false
    → text_leb x h ≡ true
    → Before x xs
    → Before x (insert_holder h xs)
unfolding insert_holder
insert_holder-Before x h [] e l b = (e, l)
insert_holder-Before x h (y ∷ ys) e l b =
    Before-if x (text_eq h y) _ _ b (Before-if x (text_leb h y) _ _ (e, l) b)

insert_holder-IsAscending :
    (h : Text) (xs : List Text) → IsAscending xs → IsAscending (insert_holder h xs)
unfolding insert_holder
insert_holder-IsAscending h [] a = (tt, tt)
insert_holder-IsAscending h (x ∷ xs) (b, a) = elim (Bool-cases (text_eq h x)) [
  | inl e ↦ rw (insert_holder, e) (b, a)
  | inr e ↦ elim (Bool-cases (text_leb h x)) [
    | inl f ↦ rw (insert_holder, e, f) ((e, f), (b, a))
    | inr f ↦
        rw (insert_holder, e, f)
          (
            insert_holder-Before x h xs (other_way h x e) (text_leb_total h x f) b,
            insert_holder-IsAscending h xs a,
          )
  ]
]

insert_holders-IsAscending :
    (hs xs : List Text) → IsAscending xs → IsAscending (insert_holders hs xs)
unfolding insert_holders
insert_holders-IsAscending [] xs a = a
insert_holders-IsAscending (h ∷ hs) xs a =
    insert_holder-IsAscending h (insert_holders hs xs) (insert_holders-IsAscending hs xs a)

collect_holders-laws :
    (positions : List ℕ) (include_zero : Bool) (logs : List NormalizedLog) (out : List Text)
    → collect_holders positions include_zero logs ≡ ok out
    → ((t : Text) → text_in t out ≡ holds_any t positions include_zero logs) × IsAscending out
unfolding collect_holders
collect_holders-laws positions include_zero [] out h =
    let e : [] ≡ out = cc h in
    subst
      (λ (o : List Text).
        ((t : Text) → text_in t o ≡ holds_any t positions include_zero []) × IsAscending o)
      e ((λ t. refl), tt)
collect_holders-laws positions include_zero (log ∷ logs) out h =
    let (found, e, later) = >>=-returns (holders log include_zero positions) _ h in
    let (rest, f, last) = >>=-returns (collect_holders positions include_zero logs) _ later in
    let same : insert_holders found rest ≡ out = cc last in
    let (among, ascending) = collect_holders-laws positions include_zero logs rest f in
    subst
      (λ (o : List Text).
        ((t : Text) → text_in t o ≡ holds_any t positions include_zero (log ∷ logs))
        × IsAscending o)
      same
      (
        (λ t. text_in-insert_holders t found rest ∙ rw (e, among t) refl),
        insert_holders-IsAscending found rest ascending,
      )

-- When `extract_holders` returns, an address is in its result exactly when it is a holder of one of
-- the logs at the given positions, and the addresses are in strictly ascending order, so that none
-- stands there twice.
pub extract_holders-laws :
    (logs : List NormalizedLog) (positions : List ℕ) (include_zero : Bool) (out : List Text)
    → extract_holders logs positions include_zero ≡ ok out
    → ((t : Text) → text_in t out ≡ holds_any t positions include_zero logs) × IsAscending out
unfolding extract_holders
extract_holders-laws logs positions include_zero out h =
    elim (Bool-cases (is_empty positions || any_below_one positions)) [
      | inl e ↦ absurd (cc (rw (extract_holders, e) at h))
      | inr e ↦ collect_holders-laws positions include_zero logs out (rw (extract_holders, e) at h)
    ]
