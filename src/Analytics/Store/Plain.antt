-- ===== src/Analytics/Store/Plain.antt =====
-- The errors of `StoreGatewayAccess`: those of the database, with their context.
use edge_guard.Base.{
  Bool, true, false, Option, List, [], ◌∷◌, Result-cases, err, Error, sentinel, wrap, noted, opaque,
  ◌≡◌, arith, inl, inr,
}
use edge_guard.Text.{Text}
use edge_guard.Analytics.Event.{GatewayAccessEvent}
use edge_guard.Analytics.Store.{
  Sentinel, Key, Counts, StatsRow, Tables, Faults, upsert, row_of, stats_key, stats_values,
  insert_event, aggregate, store_transaction, store_gateway_access,
}

-- An error that wraps no sentinel.
abbrev pub is_plain : Error Sentinel → Bool
is_plain (sentinel _) = false
is_plain (wrap _ e) = is_plain e
is_plain (noted e _) = is_plain e
is_plain (opaque _) = true

-- No error of the store wraps a sentinel.
module _ (unicode : Text → Text) (cast_uuid : Text → Option Text) where
  upsert_error :
      (k : Key) (c : Counts) (rows : List StatsRow) (x : Error Sentinel)
      → upsert k c rows ≡ err x
      → is_plain x ≡ true
  unfolding upsert
  upsert_error k c [] x h = ground arith
  upsert_error k c ((l, old) ∷ rows) x h = elim (Result-cases (upsert k c rows)) [
    | inr (y, e) ↦ ground (arith, upsert_error k c rows y e)
    | inl (rest, e) ↦ ground arith
  ]

  row_error :
      (e : GatewayAccessEvent) (x : Error Sentinel)
      → row_of unicode cast_uuid e ≡ err x
      → is_plain x ≡ true
  unfolding row_of
  row_error e x h = ground arith

  aggregate_error :
      (e : GatewayAccessEvent) (rows : List StatsRow) (x : Error Sentinel)
      → aggregate unicode cast_uuid e rows ≡ err x
      → is_plain x ≡ true
  unfolding aggregate stats_key stats_values
  aggregate_error e rows x h = elim (Result-cases (stats_key unicode cast_uuid e)) [
    | inr (y, i) ↦ ground arith
    | inl (k, i) ↦ elim (Result-cases (stats_values unicode cast_uuid e)) [
      | inr (y, j) ↦ ground arith
      | inl (c, j) ↦ upsert_error k c rows x (ground arith)
    ]
  ]

  transaction_error :
      (f : Faults) (e : GatewayAccessEvent) (db : Tables) (x : Error Sentinel)
      → store_transaction unicode cast_uuid f e db ≡ err x
      → is_plain x ≡ true
  unfolding store_transaction insert_event
  transaction_error f e db x h = elim (Result-cases (row_of unicode cast_uuid e)) [
    | inr (y, i) ↦ ground (arith, row_error e y i)
    | inl (row, i) ↦ elim (Result-cases (aggregate unicode cast_uuid e db.stats)) [
      | inr (y, j) ↦ ground (arith, aggregate_error e db.stats y j)
      | inl (stats, j) ↦ ground arith
    ]
  ]

  pub store_error :
      (f : Faults) (e : GatewayAccessEvent) (db : Tables) (x : Error Sentinel)
      → (store_gateway_access unicode cast_uuid f e db).1 ≡ err x
      → is_plain x ≡ true
  unfolding store_gateway_access
  store_error f e db x h = elim (Result-cases (store_transaction unicode cast_uuid f e db)) [
    | inr (y, i) ↦ ground (arith, transaction_error f e db y i)
    | inl ((db', r), i) ↦ ground arith
  ]
