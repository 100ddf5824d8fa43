-- ===== src/Analytics/Store/Recount.antt =====
-- The statistics against the events: each row of `gateway_route_stats_hourly` is what one gets by
-- counting the events of its hour, project, route and method anew.
use edge_guard.Base.{
  ℕ, ◌+◌, ◌*◌, ◌/ℤ◌, ◌≤◌, ℤ, pos, negsuc, int_le, int_lt, Bool, true, false, ◌&&◌, Option, none,
  some, List, [], ◌∷◌, length, if◌then◌else◌, Bool-cases, Result-cases, ok, ◌≡◌, ◌↔◌, refl, arith,
  inl, inr, ==_iff,
}
use edge_guard.Base.Time.{Time, hour, microsecond, truncate}
use edge_guard.Text.{Text}
use edge_guard.Text.Equal.{≟_iff}
use edge_guard.Analytics.Event.{GatewayAccessEvent, int_eq}
use edge_guard.Analytics.Store.{
  EventRow, Key, Counts, StatsRow, greatest, merge, same_key, upsert, row_of, stats_key,
  stats_values, should_aggregate, one_if, status_class_counts,
}

-- The key under which an event is counted, if it is.
abbrev pub row_key : EventRow → Option Key
row_key r = elim r.project_id [
  | none ↦ none
  | some project_id ↦ elim r.route_name [
    | none ↦ none
    | some route_name ↦ elim r.route_path_prefix [
      | none ↦ none
      | some route_path_prefix ↦ some (record {
        bucket_start = truncate r.occurred_at hour;
        project_id = project_id;
        route_name = route_name;
        route_path_prefix = route_path_prefix;
        method = r.method;
      })
    ]
  ]
]

abbrev has_key : Key → Option Key → Bool
has_key k none = false
has_key k (some l) = same_key l k

unfoldable pub rows_of : Key → List EventRow → List EventRow
rows_of k [] = []
rows_of k (r ∷ rows) = let rest = rows_of k rows in if has_key k (row_key r) then r ∷ rest else rest

unfoldable pub how_many : (EventRow → Bool) → List EventRow → ℕ
how_many p [] = 0
how_many p (r ∷ rows) = how_many p rows + one_if (p r)

unfoldable pub total : (EventRow → ℕ) → List EventRow → ℕ
total f [] = 0
total f (r ∷ rows) = total f rows + f r

unfoldable pub maximum : (EventRow → ℕ) → List EventRow → ℕ
maximum f [] = 0
maximum f (r ∷ rows) = greatest (maximum f rows) (f r)

-- `first` is the first status code of the class
abbrev pub in_class : ℕ → EventRow → Bool
in_class first r = int_le (pos first) r.status_code && int_lt r.status_code (pos (first + 100))

unfoldable pub tally : List EventRow → Counts
unfolding how_many total maximum
tally rows = record {
  request_count = length rows;
  status_1xx = how_many (in_class 100) rows;
  status_2xx = how_many (in_class 200) rows;
  status_3xx = how_many (in_class 300) rows;
  status_4xx = how_many (in_class 400) rows;
  status_5xx = how_many (in_class 500) rows;
  rate_limited = how_many (λ r. r.rate_limited) rows;
  total_duration_ms = total (λ r. r.duration_ms) rows;
  max_duration_ms = maximum (λ r. r.duration_ms) rows;
  total_response_bytes = total (λ r. r.response_bytes) rows;
}

abbrev tally_any : List EventRow → Option Counts
tally_any [] = none
tally_any (r ∷ rows) = some (tally (r ∷ rows))

-- The counts of the events with a key, `none` if there are none.
unfoldable pub recount : Key → List EventRow → Option Counts
unfolding rows_of tally
recount k rows = tally_any (rows_of k rows)

unfoldable pub lookup : Key → List StatsRow → Option Counts
lookup k [] = none
lookup k ((l, c) ∷ rows) = if same_key l k then some c else lookup k rows

pub same_key_iff : (a b : Key) → (same_key a b ≡ true) ↔ (a ≡ b)
unfolding same_key
same_key_iff a b = ground (
  arith,
  ==_iff a.bucket_start b.bucket_start,
  ≟_iff a.project_id b.project_id,
  ≟_iff a.route_name b.route_name,
  ≟_iff a.route_path_prefix b.route_path_prefix,
  ≟_iff a.method b.method,
)

same_key_refl : (a : Key) → same_key a a ≡ true
same_key_refl a = (same_key_iff a a).1 refl

abbrev after_upsert : Counts → Option Counts → Counts
after_upsert c none = c
after_upsert c (some old) = merge old c

lookup-upsert :
    (k l : Key) (c : Counts) (rows rows' : List StatsRow)
    → upsert k c rows ≡ ok rows'
    → lookup l rows'
      ≡ (if same_key k l then some (after_upsert c (lookup k rows)) else lookup l rows)
unfolding lookup upsert
lookup-upsert k l c [] rows' h = ground arith
lookup-upsert k l c ((m, old) ∷ rows) rows' h = elim (Bool-cases (same_key m k)) [
  | inl same ↦ ground (arith, (same_key_iff m k).0)
  | inr other ↦ elim (Result-cases (upsert k c rows)) [
    | inr (fault, e) ↦ ground arith
    | inl (rest, e) ↦ ground (
      arith,
      lookup-upsert k l c rows rest e,
      (same_key_iff k l).0,
      (same_key_iff m l).0,
      same_key_iff m k,
    )
  ]
]

pub merge-tally :
    (r : EventRow) (rows : List EventRow) → merge (tally rows) (tally (r ∷ [])) ≡ tally (r ∷ rows)
unfolding merge tally
merge-tally r rows = ground arith

hour_of_microsecond : (t : Time) → truncate (truncate t microsecond) hour ≡ truncate t hour
unfolding truncate
hour_of_microsecond t = omega arith

class_range :
    (z : ℤ) (n : ℕ)
    → 1 ≤ n
    → int_eq (z /ℤ 100) (pos n) ≡ (int_le (pos (100 * n)) z && int_lt z (pos (100 * n + 100)))
unfolding ◌/ℤ◌
class_range (pos m) n h = ground arith
class_range (negsuc m) n h = ground arith

class_counts_of_row :
    (r : EventRow)
    → status_class_counts r.status_code ≡ record {
      status_1xx = one_if (in_class 100 r);
      status_2xx = one_if (in_class 200 r);
      status_3xx = one_if (in_class 300 r);
      status_4xx = one_if (in_class 400 r);
      status_5xx = one_if (in_class 500 r);
    }
unfolding status_class_counts
class_counts_of_row r =
    let z = r.status_code in
    rw
      (
        class_range z 1 (omega arith),
        class_range z 2 (omega arith),
        class_range z 3 (omega arith),
        class_range z 4 (omega arith),
        class_range z 5 (omega arith),
      )
      refl

-- An event that the table holds is aggregated under the key and with the counts of its row.
module _ (unicode : Text → Text) (cast_uuid : Text → Option Text) (e : GatewayAccessEvent) where
  pub row_key_of_aggregated :
      (row : EventRow) (k : Key)
      → row_of unicode cast_uuid e ≡ ok row
      → should_aggregate e ≡ true
      → stats_key unicode cast_uuid e ≡ ok k
      → row_key row ≡ some k
  unfolding row_of should_aggregate stats_key
  row_key_of_aggregated row k r s h = ground (arith, hour_of_microsecond e.occurred_at)

  pub row_key_of_other :
      (row : EventRow)
      → row_of unicode cast_uuid e ≡ ok row
      → should_aggregate e ≡ false
      → row_key row ≡ none
  unfolding row_of should_aggregate
  row_key_of_other row r s = ground arith

  pub counts_of_row :
      (row : EventRow) (c : Counts)
      → row_of unicode cast_uuid e ≡ ok row
      → stats_values unicode cast_uuid e ≡ ok c
      → c ≡ tally (row ∷ [])
  unfolding row_of stats_values tally how_many total maximum
  counts_of_row row c r h = ground (arith, class_counts_of_row row)

after_upsert-tally :
    (row : EventRow) (rows : List EventRow)
    → after_upsert (tally (row ∷ [])) (tally_any rows) ≡ tally (row ∷ rows)
after_upsert-tally row [] = refl
after_upsert-tally row (r ∷ rows) = merge-tally row (r ∷ rows)

recount-cons :
    (k l : Key) (row : EventRow) (rows : List EventRow)
    → row_key row ≡ some k
    → recount l (row ∷ rows) ≡ (
        if same_key k l
        then some (after_upsert (tally (row ∷ [])) (recount k rows))
        else recount l rows)
unfolding recount rows_of
recount-cons k l row rows h = elim (Bool-cases (same_key k l)) [
  | inl same ↦ rw (h, same, (same_key_iff k l).0 same, after_upsert-tally row (rows_of l rows)) refl
  | inr other ↦ rw (h, other) refl
]

pub upsert-recount :
    (k : Key) (row : EventRow) (rows : List EventRow) (stats stats' : List StatsRow)
    → row_key row ≡ some k
    → upsert k (tally (row ∷ [])) stats ≡ ok stats'
    → ((l : Key) → lookup l stats ≡ recount l rows)
    → (l : Key) → lookup l stats' ≡ recount l (row ∷ rows)
upsert-recount k row rows stats stats' h u kept l =
    rw
      (
        lookup-upsert k l (tally (row ∷ [])) stats stats' u,
        recount-cons k l row rows h,
        kept k,
        kept l,
      )
      refl

pub recount-other :
    (l : Key) (row : EventRow) (rows : List EventRow)
    → row_key row ≡ none
    → recount l (row ∷ rows) ≡ recount l rows
unfolding recount rows_of
recount-other l row rows h = rw h refl
