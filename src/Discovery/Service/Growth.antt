-- ===== src/Discovery/Service/Growth.antt =====
-- How the completed ranges of core/discovery_service.py may grow, and the methods that let them.
use rpc_state_indexer.Prelude.{
  ℕ, ◌<◌, Bool, true, ◌||◌, List, [], ◌∷◌, ◌++◌, ◌≡◌, refl, sym, ap, ◌∙◌, inl, inr, Result, ok, err,
  arith, All, All-append, Bool-cases,
}
use rpc_state_indexer.Prelude.Text.{Text}
use rpc_state_indexer.Prelude.Exec
use rpc_state_indexer.Prelude.Exec.{Exec, pure, raise, lift, continue, bind-returns}
use rpc_state_indexer.Json.{Json}
use rpc_state_indexer.Discovery.Coverage.{BlockRange, contains, covered, IsValid}
use rpc_state_indexer.Discovery.Fault.{DiscoveryError}
use rpc_state_indexer.Discovery.Log.{LogFilter}
use rpc_state_indexer.Discovery.Scanner.{DiscoveryScan, ranges_of, scan, scan_with}
use rpc_state_indexer.Discovery.Scanner.Covers.{ScanOutcome, scan_filter-ScanOutcome}
use rpc_state_indexer.Discovery.Service.{
  StoreWrite, Rows, ServiceFault, Service, State, completed_discovery_ranges, Method, write,
}

-- What is completed afterwards is what was completed before, and ranges within `limit`.
pub record Grows (limit : ℕ → Bool) (h h' : Rows) : Type 0 where
  pub added : Text → Text → List BlockRange
  pub shape :
      (address topic0 : Text)
      → completed_discovery_ranges address topic0 h'
        ≡ added address topic0 ++ completed_discovery_ranges address topic0 h
  pub valid : (address topic0 : Text) → All IsValid (added address topic0)
  pub within :
      (address topic0 : Text) (b : ℕ) → covered (added address topic0) b ≡ true → limit b ≡ true

pub covered-append :
    (rs qs : List BlockRange) (b : ℕ) → covered (rs ++ qs) b ≡ (covered rs b || covered qs b)
covered-append [] qs b = refl
covered-append (r ∷ rs) qs b = ground (arith, covered-append rs qs b)

append_assoc_ranges : (a b c : List BlockRange) → (a ++ b) ++ c ≡ a ++ (b ++ c)
append_assoc_ranges [] b c = refl
append_assoc_ranges (x ∷ a) b c = ap (λ rest. x ∷ rest) (append_assoc_ranges a b c)

pub Grows-refl : (limit : ℕ → Bool) (h : Rows) → Grows limit h h
Grows-refl limit h = record {
  added = λ a t. [];
  shape = λ a t. refl;
  valid = λ a t. tt;
  within = λ a t b e. absurd (cc e);
}

pub Grows-trans :
    {limit : ℕ → Bool} {g h k : Rows} → Grows limit g h → Grows limit h k → Grows limit g k
Grows-trans {limit} {g} {h} {k} p q = record {
  added = λ a t. q.added a t ++ p.added a t;
  shape = λ a t.
      q.shape a t
      ∙ ap (λ rs. q.added a t ++ rs) (p.shape a t)
      ∙ sym (append_assoc_ranges (q.added a t) (p.added a t) (completed_discovery_ranges a t g));
  valid = λ a t. All-append IsValid (q.added a t) (p.added a t) (q.valid a t) (p.valid a t);
  within = λ a t b e.
      ground (arith, covered-append (q.added a t) (p.added a t) b, p.within a t b, q.within a t b);
}

-- A wider limit.
pub Grows-wider :
    {limit wider : ℕ → Bool} {h k : Rows}
    → ((b : ℕ) → limit b ≡ true → wider b ≡ true)
    → Grows limit h k
    → Grows wider h k
Grows-wider w p = record {
  added = p.added;
  shape = p.shape;
  valid = p.valid;
  within = λ a t b e. w b (p.within a t b e);
}

pub returned :
    {S A : Type 0} (r : Result ServiceFault A × State S) {a : A} → r.0 ≡ ok a → r ≡ (ok a, r.1)
returned r e = cc

module _ {S : Type 0} (service : Service S) where
  -- The scan's promise, where it returns.
  abbrev pub ScanCovers : BlockRange → Result DiscoveryError DiscoveryScan → Type 0
  ScanCovers gap (err fault) = Unit
  ScanCovers gap (ok found) =
      All IsValid (ranges_of found.completed_ranges)
      × ((b : ℕ) → covered (ranges_of found.completed_ranges) b ≡ contains gap b)

  outcome_Covers :
      (gap : BlockRange) (r : Result DiscoveryError DiscoveryScan)
      → ScanOutcome gap r
      → ScanCovers gap r
  outcome_Covers gap (ok found) o = (o.1, o.2)
  outcome_Covers gap (err fault) o = tt

  filter_Covers :
      (gap : BlockRange) (f : Result DiscoveryError LogFilter) (s : S)
      → 0 < service.settings.chunk_size
      → IsValid gap
      → ScanCovers gap (scan_with service.call service.settings gap.start gap.end_exclusive f s).0
  filter_Covers gap (ok f) s positive valid = outcome_Covers gap _ (
      scan_filter-ScanOutcome service.call service.settings f gap.start gap.end_exclusive s positive
        valid)
  filter_Covers gap (err fault) s positive valid = tt

  pub scan_Covers :
      (gap : BlockRange) (address : Text) (topic0 : Json) (s : S)
      → 0 < service.settings.chunk_size
      → IsValid gap
      → ScanCovers gap
          (scan service.call service.settings address topic0 gap.start gap.end_exclusive s).0
  unfolding scan
  scan_Covers gap address topic0 s positive valid = filter_Covers gap _ s positive valid

  pub wrote :
      (w : StoreWrite) (st : State S) {st' : State S} {u : Unit {0}}
      → write service w st ≡ (ok u, st')
      → st'.rows ≡ w ∷ st.rows
  unfolding write
  wrote w st e = elim (Bool-cases (service.accepts w st.rows)) [
    | inl stored ↦ let e' = rw stored at e in cc
    | inr refused ↦ let e' = rw refused at e in absurd (cc e')
  ]

  pub raised_not_ok :
      (fault : ServiceFault) (st : State S) {st' : State S} {u : Unit {0}}
      → raise fault st ≡ (ok u, st')
      → ⊥
  unfolding raise
  raised_not_ok fault st e = cc

  -- What is covered stays covered.
  pub kept :
      {limit : ℕ → Bool} (st' st : State S)
      → Grows limit st.rows st'.rows
      → (a t : Text) (b : ℕ) → covered (completed_discovery_ranges a t st.rows) b ≡ true
      → covered (completed_discovery_ranges a t st'.rows) b ≡ true
  kept st' st g a t b e =
      ap (λ rs. covered rs b) (g.shape a t) ∙ covered-append (g.added a t) _ b ∙ ground (arith, e)

  -- The method lets the coverage grow within the limit, whatever it returns or raises.
  pub record Growing (limit : ℕ → Bool) {A : Type 0} (m : Method service A) : Type 0 where
    pub at : (st : State S) → Grows limit st.rows (m st).1.rows

  module _ (limit : ℕ → Bool) where
    pub Growing-pure : {A : Type 0} (a : A) → Growing limit (pure a)
    unfolding pure
    Growing-pure a = record { at = λ st. Grows-refl limit st.rows }

    pub Growing-raise : {A : Type 0} (fault : ServiceFault) → Growing limit {A = A} (raise fault)
    unfolding raise
    Growing-raise fault = record { at = λ st. Grows-refl limit st.rows }

    pub Growing-lift : {A : Type 0} (r : Result ServiceFault A) → Growing limit (lift r)
    unfolding lift
    Growing-lift r = record { at = λ st. Grows-refl limit st.rows }

    pub Growing-read : {A : Type 0} (look : State S → A) → Growing limit (λ st. (ok (look st), st))
    Growing-read look = record { at = λ st. Grows-refl limit st.rows }

    continue-Grows :
        {A B : Type 0} {h : Rows} (r : Result ServiceFault A × State S) (f : A → Method service B)
        → Grows limit h r.1.rows
        → ((a : A) → r.0 ≡ ok a → Growing limit (f a))
        → Grows limit h (continue r f).1.rows
    continue-Grows (ok a, st) f g later = Grows-trans g ((later a refl).at st)
    continue-Grows (err fault, st) f g later = g

    -- The rest may use what the first method returned.
    pub Growing-bind :
        {A B : Type 0} (m : Method service A) (f : A → Method service B)
        → Growing limit m
        → ((a : A) (st : State S) → (m st).0 ≡ ok a → Growing limit (f a))
        → Growing limit (Exec.◌>>=◌ m f)
    unfolding Exec.◌>>=◌
    Growing-bind m f g later = record {
      at = λ st. continue-Grows (m st) f (g.at st) (λ a e. later a st e);
    }

    -- An insertion whose completed ranges lie within the limit.
    pub Growing-write :
        (w : StoreWrite) (added : Text → Text → List BlockRange)
        → ((a t : Text) (h : Rows)
            → completed_discovery_ranges a t (w ∷ h)
              ≡ added a t ++ completed_discovery_ranges a t h)
        → ((a t : Text) → All IsValid (added a t))
        → ((a t : Text) (b : ℕ) → covered (added a t) b ≡ true → limit b ≡ true)
        → Growing limit (write service w)
    unfolding write
    Growing-write w added shape valid within = record {
      at = λ st. elim (Bool-cases (service.accepts w st.rows)) [
        | inl stored ↦ rw stored (record {
          added = added;
          shape = λ a t. shape a t st.rows;
          valid = valid;
          within = within;
        })
        | inr refused ↦ rw refused (Grows-refl limit st.rows)
      ];
    }
