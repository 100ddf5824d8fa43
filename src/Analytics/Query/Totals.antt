-- ===== src/Analytics/Query/Totals.antt =====
-- What a summary says of the events: the sums over the hourly rows are those over the events.
use edge_guard.Base.{
  wrap, ◌⊎◌, err, Error, Bool, false, Option, none, some, List, [], ◌∷◌, if◌then◌else◌, Bool-cases,
  Result-cases, ok, ◌≡◌, refl, ap, arith, inl, inr, ◌%◌, ◌&&◌, ◌||◌, ◌∙◌, leb, ltb, is_empty,
  Option-cases,
}
use edge_guard.Base.Time.{Time, hour, truncate}
use edge_guard.Text.{Text, ◌≟◌}
use edge_guard.Analytics.Event.{GatewayAccessEvent}
use edge_guard.Analytics.Store.{
  Sentinel, EventRow, Key, Counts, StatsRow, Tables, Faults, merge, same_key, upsert,
}
use edge_guard.Analytics.Store.Recount.{row_key, tally, same_key_iff, merge-tally}
use edge_guard.Analytics.Store.Consistent.{
  Step, unchanged, uncounted, counted, no_tables, store_all, store_all_invariant,
}
use edge_guard.Analytics.Query.Scan.{IsInt64, scan_cases}
use edge_guard.Analytics.Query.Interval.{whole_hours}
use edge_guard.Analytics.Query.{
  normalize_stats_filter, query_summary, get_route_stats_summary, RouteStatsFilter, selects,
  where_clause, totals, summary_of, scan,
}

-- The events that a filter selects, by the keys under which they are counted.
abbrev pub is_chosen : Text → RouteStatsFilter → Option Key → Bool
is_chosen project_id filter none = false
is_chosen project_id filter (some k) = selects project_id filter k

unfoldable pub chosen : Text → RouteStatsFilter → List EventRow → List EventRow
chosen project_id filter [] = []
chosen project_id filter (r ∷ rows) =
    let rest = chosen project_id filter rows in
    if is_chosen project_id filter (row_key r) then r ∷ rest else rest

totals-merge :
    (l : Key) (old c : Counts) (rows : List StatsRow)
    → totals ((l, merge old c) ∷ rows) ≡ merge (totals ((l, old) ∷ rows)) c
unfolding totals merge
totals-merge l old c rows = ground arith

totals_first :
    (k : Key) (c : Counts) → c.request_count ≡ 1 → totals ((k, c) ∷ []) ≡ merge (totals []) c
unfolding totals merge
totals_first k c one = ground arith

totals-cons :
    (l : Key) (old c : Counts) (rows rows' : List StatsRow)
    → totals rows' ≡ merge (totals rows) c
    → totals ((l, old) ∷ rows') ≡ merge (totals ((l, old) ∷ rows)) c
unfolding totals merge
totals-cons l old c rows rows' h = ground arith

totals-cons-same :
    (l : Key) (old : Counts) (rows rows' : List StatsRow)
    → totals rows' ≡ totals rows
    → totals ((l, old) ∷ rows') ≡ totals ((l, old) ∷ rows)
unfolding totals
totals-cons-same l old rows rows' h = ground arith

tally_one : (row : EventRow) → (tally (row ∷ [])).request_count ≡ 1
unfolding tally
tally_one row = refl

totals_none :
    (project_id : Text) (filter : RouteStatsFilter)
    → totals (where_clause project_id filter []) ≡ tally (chosen project_id filter [])
unfolding totals where_clause tally chosen
totals_none project_id filter = refl

module _ (project_id : Text) (filter : RouteStatsFilter) where
  totals-upsert :
      (k : Key) (c : Counts) (rows rows' : List StatsRow)
      → c.request_count ≡ 1
      → upsert k c rows ≡ ok rows'
      → let before = totals (where_clause project_id filter rows) in
        totals (where_clause project_id filter rows')
        ≡ (if selects project_id filter k then merge before c else before)
  unfolding upsert where_clause
  totals-upsert k c [] rows' one h = ground (arith, totals_first k c one)
  totals-upsert k c ((l, old) ∷ rows) rows' one h = elim (Bool-cases (same_key l k)) [
    | inl same ↦ ground (
      arith,
      (same_key_iff l k).0 same,
      totals-merge l old c (where_clause project_id filter rows),
    )
    | inr other ↦ elim (Result-cases (upsert k c rows)) [
      | inr (fault, e) ↦ ground arith
      | inl (rest, e) ↦ ground (
        arith,
        totals-upsert k c rows rest one e,
        totals-cons l old c (where_clause project_id filter rows)
            (where_clause project_id filter rest),
        totals-cons-same l old (where_clause project_id filter rows)
            (where_clause project_id filter rest),
      )
    ]
  ]

  abbrev IsTotalled : Tables → Type 0
  IsTotalled db =
      totals (where_clause project_id filter db.stats) ≡ tally (chosen project_id filter db.events)

  Step-IsTotalled : (db db' : Tables) → Step db db' → IsTotalled db → IsTotalled db'
  unfolding chosen
  Step-IsTotalled _ _ (unchanged db) kept = kept
  Step-IsTotalled _ _ (uncounted db row h) kept = rw h kept
  Step-IsTotalled _ _ (counted db row k stats h u) kept =
      elim (Bool-cases (selects project_id filter k)) [
        | inl into ↦
            rw (h, totals-upsert k (tally (row ∷ [])) db.stats stats (tally_one row) u, into, kept)
              (merge-tally row (chosen project_id filter db.events))
        | inr beside ↦
            rw (h, totals-upsert k (tally (row ∷ [])) db.stats stats (tally_one row) u, beside) kept
      ]

-- An event that the asked interval holds by its own time, of the project, and of the route and the
-- method if these are asked for. It has a route, since only such events are counted.
abbrev pub is_wanted : Text → RouteStatsFilter → EventRow → Bool
is_wanted project_id asked r = elim r.project_id [
  | none ↦ false
  | some project ↦ elim r.route_name [
    | none ↦ false
    | some name ↦ elim r.route_path_prefix [
      | none ↦ false
      | some _ ↦
          project ≟ project_id
          && leb asked.from r.occurred_at
          && ltb r.occurred_at asked.to
          && (is_empty asked.route_name || name ≟ asked.route_name)
          && (is_empty asked.method || r.method ≟ asked.method)
    ]
  ]
]

unfoldable pub wanted : Text → RouteStatsFilter → List EventRow → List EventRow
wanted project_id asked [] = []
wanted project_id asked (r ∷ rows) =
    let rest = wanted project_id asked rows in
    if is_wanted project_id asked r then r ∷ rest else rest

-- With whole hours for an interval, a time is in it if and only if its hour is.
hour_within :
    (from to t : Time)
    → from % hour ≡ 0
    → to % hour ≡ 0
    → (leb from (truncate t hour) ≡ leb from t) × (ltb (truncate t hour) to ≡ ltb t to)
unfolding truncate
hour_within from to t f u = (ground arith, ground arith)

wanted_if_chosen :
    (project_id : Text) (asked : RouteStatsFilter) (r : EventRow)
    → asked.from % hour ≡ 0
    → asked.to % hour ≡ 0
    → is_chosen project_id asked (row_key r) ≡ is_wanted project_id asked r
unfolding selects
wanted_if_chosen project_id asked r f u = elim (Option-cases r.project_id) [
  | inl none_here ↦ ground arith
  | inr (project, e) ↦ elim (Option-cases r.route_name) [
    | inl none_here ↦ ground arith
    | inr (name, n) ↦ elim (Option-cases r.route_path_prefix) [
      | inl none_here ↦ ground arith
      | inr (prefix, q) ↦
          let (first, last) = hour_within asked.from asked.to r.occurred_at f u in
          rw (e, n, q, first, last) refl
    ]
  ]
]

chosen-wanted :
    (project_id : Text) (asked : RouteStatsFilter) (rows : List EventRow)
    → asked.from % hour ≡ 0
    → asked.to % hour ≡ 0
    → chosen project_id asked rows ≡ wanted project_id asked rows
unfolding chosen wanted
chosen-wanted project_id asked [] f u = refl
chosen-wanted project_id asked (r ∷ rows) f u =
    rw (wanted_if_chosen project_id asked r f u, chosen-wanted project_id asked rows f u) refl

-- After any stores into empty tables, with faults or without, the answer to a query that passes the
-- checks and whose project's id the database accepts, when the query itself has no fault: the counts
-- of the stored events that have a route and are of the project, whose own time is in the interval of
-- whole hours that the checked filter asks for, and which are of the route and of the method that it
-- names, if it does; and an error if one of these counts is outside of the range of int64.
pub get_route_stats_summary_lem :
    (unicode : Text → Text) (cast_uuid : Text → Option Text)
    (es : List (Faults × GatewayAccessEvent)) (filter asked : RouteStatsFilter) (project_id : Text)
    → normalize_stats_filter unicode filter ≡ ok asked
    → cast_uuid asked.project_id ≡ some project_id
    → let db = store_all unicode cast_uuid es no_tables in
      let counts = tally (wanted project_id asked db.events) in
      let answer = get_route_stats_summary cast_uuid unicode none filter db.stats in
      (IsInt64 counts × (answer ≡ ok (summary_of counts)))
      ⊎ (¬ IsInt64 counts × ((e : Error Sentinel) × (answer ≡ err e)))
unfolding get_route_stats_summary query_summary
get_route_stats_summary_lem unicode cast_uuid es filter asked project_id n u =
    let db = store_all unicode cast_uuid es no_tables in
    let kept =
      store_all_invariant unicode cast_uuid (IsTotalled project_id asked)
        (Step-IsTotalled project_id asked) es no_tables (totals_none project_id asked) in
    let (first, last) = whole_hours unicode filter asked n in
    let same = kept ∙ ap tally (chosen-wanted project_id asked db.events first last) in
    elim (scan_cases (tally (wanted project_id asked db.events))) [
      | inl (fits, e) ↦ let read = ap scan same ∙ e in inl (fits, rw (n, u, read) refl)
      | inr (over, (f, e)) ↦
          let read = ap scan same ∙ e in
          inr (
            over,
            (
              wrap "get route stats summary" (wrap "query route stats summary" f),
              rw (n, u, read) refl,
            ),
          )
    ]
