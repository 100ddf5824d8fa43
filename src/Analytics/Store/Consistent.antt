-- ===== src/Analytics/Store/Consistent.antt =====
-- What a run of `StoreGatewayAccess` leaves in the two tables, faults and redeliveries included.
use edge_guard.Base.{
  true, false, Option, none, some, List, [], ◌∷◌, Option-cases, Bool-cases, Result-cases, ok, ◌≡◌,
  ◌⊎◌, refl, sym, ◌∙◌, arith, inl, inr,
}
use edge_guard.Text.{Text}
use edge_guard.Text.Equal.{≟_refl}
use edge_guard.Analytics.Event.{GatewayAccessEvent}
use edge_guard.Analytics.Store.{
  EventRow, Key, StatsRow, Tables, Faults, upsert, row_of, stats_key, stats_values, has_event,
  IngestionResult, should_aggregate, insert_event, aggregate, store_transaction,
  store_gateway_access,
}
use edge_guard.Analytics.Store.Recount.{
  recount, lookup, row_key_of_aggregated, row_key_of_other, counts_of_row, upsert-recount,
  recount-other, tally, row_key,
}

abbrev pub no_tables : Tables
no_tables = record { events = []; stats = [] }

-- What a run of `StoreGatewayAccess` can do to the tables.
pub data Step : Tables → Tables → Type 0 where
  unchanged : (db : Tables) → Step db db
  uncounted :
      (db : Tables) (row : EventRow)
      → row_key row ≡ none
      → Step db (record { events = row ∷ db.events; stats = db.stats })
  counted :
      (db : Tables) (row : EventRow) (k : Key) (stats : List StatsRow)
      → row_key row ≡ some k
      → upsert k (tally (row ∷ [])) db.stats ≡ ok stats
      → Step db (record { events = row ∷ db.events; stats = stats })

at_end : (db a b : Tables) → Step db a → a ≡ b → Step db b
at_end db a b s e = rw (sym e) s

-- The statistics are those of the events.
abbrev pub IsRecounted : Tables → Type 0
IsRecounted db = (k : Key) → lookup k db.stats ≡ recount k db.events

Step-IsRecounted : (db db' : Tables) → Step db db' → IsRecounted db → IsRecounted db'
Step-IsRecounted _ _ (unchanged db) kept l = kept l
Step-IsRecounted _ _ (uncounted db row h) kept l = kept l ∙ sym (recount-other l row db.events h)
Step-IsRecounted _ _ (counted db row k stats h u) kept l =
    upsert-recount k row db.events db.stats stats h u kept l

module _ (unicode : Text → Text) (cast_uuid : Text → Option Text) where
  counted-Step :
      (e : GatewayAccessEvent) (row : EventRow) (db : Tables) (stats : List StatsRow)
      → row_of unicode cast_uuid e ≡ ok row
      → should_aggregate e ≡ true
      → aggregate unicode cast_uuid e db.stats ≡ ok stats
      → Step db (record { events = row ∷ db.events; stats = stats })
  unfolding aggregate
  counted-Step e row db stats r s a = elim (Result-cases (stats_key unicode cast_uuid e)) [
    | inr (fault, i) ↦ ground arith
    | inl (k, i) ↦ elim (Result-cases (stats_values unicode cast_uuid e)) [
      | inr (fault, j) ↦ ground arith
      | inl (c, j) ↦
          let counts = counts_of_row unicode cast_uuid e row c r j in
          counted db row k stats (row_key_of_aggregated unicode cast_uuid e row k r s i)
            (ground (arith, counts))
    ]
  ]

  transaction-Step :
      (f : Faults) (e : GatewayAccessEvent) (db db' : Tables) (result : IngestionResult)
      → store_transaction unicode cast_uuid f e db ≡ ok (db', result)
      → Step db db'
  unfolding store_transaction insert_event
  transaction-Step f e db db' result h = elim (Result-cases (row_of unicode cast_uuid e)) [
    | inr (fault, i) ↦ ground arith
    | inl (row, i) ↦ elim (Bool-cases (has_event e.event_id db.events)) [
      | inl known ↦ at_end db db db' (unchanged db) (ground arith)
      | inr new ↦ elim (Bool-cases (should_aggregate e)) [
        | inr other ↦
            at_end db (record { events = row ∷ db.events; stats = db.stats }) db'
              (uncounted db row (row_key_of_other unicode cast_uuid e row i other)) (ground arith)
        | inl summed ↦ elim (Result-cases (aggregate unicode cast_uuid e db.stats)) [
          | inr (fault, j) ↦ ground arith
          | inl (stats, j) ↦
              at_end db (record { events = row ∷ db.events; stats = stats }) db'
                (counted-Step e row db stats i summed j) (ground arith)
        ]
      ]
    ]
  ]

  store-Step :
      (f : Faults) (e : GatewayAccessEvent) (db : Tables)
      → Step db (store_gateway_access unicode cast_uuid f e db).0
  unfolding store_gateway_access
  store-Step f e db = elim (Result-cases (store_transaction unicode cast_uuid f e db)) [
    | inr (fault, h) ↦ rw (store_gateway_access, h) (unchanged db)
    | inl ((db', result), h) ↦ rw (store_gateway_access, h) (transaction-Step f e db db' result h)
  ]

  -- The tables after one event after the other.
  unfoldable pub store_all : List (Faults × GatewayAccessEvent) → Tables → Tables
  unfolding store_gateway_access
  store_all [] db = db
  store_all ((f, e) ∷ es) db = store_all es (store_gateway_access unicode cast_uuid f e db).0

  -- What the steps keep holds after any events.
  pub store_all_invariant :
      (P : Tables → Type 0)
      → ((db db' : Tables) → Step db db' → P db → P db')
      → (es : List (Faults × GatewayAccessEvent)) (db : Tables) → P db
      → P (store_all es db)
  unfolding store_all
  store_all_invariant P step [] db h = h
  store_all_invariant P step ((f, e) ∷ es) db h =
      let db' = (store_gateway_access unicode cast_uuid f e db).0 in
      store_all_invariant P step es db' (step db db' (store-Step f e db) h)

  -- Whatever events are stored into empty tables, in any order, with redeliveries and with faults of
  -- the database: the statistics under a key are those that one gets by counting the rows of the
  -- events' table anew, and there are none if no event has the key.
  pub lookup-store_all :
      (es : List (Faults × GatewayAccessEvent)) (k : Key)
      → lookup k (store_all es no_tables).stats ≡ recount k (store_all es no_tables).events
  unfolding recount lookup
  lookup-store_all es k =
      store_all_invariant IsRecounted Step-IsRecounted es no_tables (λ l. refl) k

  event_id_of_row :
      (e : GatewayAccessEvent) (row : EventRow)
      → row_of unicode cast_uuid e ≡ ok row
      → row.event_id ≡ e.event_id
  unfolding row_of
  event_id_of_row e row h = ground arith

  known_event :
      (f : Faults) (e : GatewayAccessEvent) (db : Tables) (row : EventRow)
      → row_of unicode cast_uuid e ≡ ok row
      → has_event e.event_id db.events ≡ true
      → ((store_gateway_access unicode cast_uuid f e db).0 ≡ db)
        × (((store_gateway_access unicode cast_uuid f e db).1
              ≡ ok (record { duplicate = true; aggregated = false }))
            ⊎ ((fault : Text) × ((f.begin ≡ some fault) ⊎ (f.insert ≡ some fault))))
  unfolding store_gateway_access store_transaction insert_event
  known_event f e db row made known = elim (Option-cases f.begin) [
    | inr (text, b) ↦ (ground arith, inr (text, inl b))
    | inl b ↦ elim (Option-cases f.insert) [
      | inr (text, i) ↦ (ground arith, inr (text, inr i))
      | inl i ↦ (ground arith, inl (ground arith))
    ]
  ]

  stored_transaction :
      (f : Faults) (e : GatewayAccessEvent) (db db' : Tables) (result : IngestionResult)
      → store_transaction unicode cast_uuid f e db ≡ ok (db', result)
      → (row : EventRow) × (row_of unicode cast_uuid e ≡ ok row)
        × (has_event e.event_id db'.events ≡ true)
  unfolding store_transaction insert_event has_event
  stored_transaction f e db db' result h = elim (Result-cases (row_of unicode cast_uuid e)) [
    | inr (fault, i) ↦ ground arith
    | inl (row, i) ↦
        let named : row.event_id ≡ e.event_id = event_id_of_row e row i in
        elim (Bool-cases (has_event e.event_id db.events)) [
          | inl known ↦ (row, i, ground arith)
          | inr new ↦ (row, i, ground (arith, ≟_refl e.event_id))
        ]
  ]

  pub keeps_known :
      (f : Faults) (e : GatewayAccessEvent) (id : Text) (db db' : Tables) (result : IngestionResult)
      → store_transaction unicode cast_uuid f e db ≡ ok (db', result)
      → has_event id db.events ≡ true
      → has_event id db'.events ≡ true
  unfolding store_transaction insert_event has_event
  keeps_known f e id db db' result h known = elim (Result-cases (row_of unicode cast_uuid e)) [
    | inr (fault, i) ↦ ground arith
    | inl (row, i) ↦ elim (Bool-cases (has_event e.event_id db.events)) [
      | inl old ↦ ground arith
      | inr new ↦ ground arith
    ]
  ]

  pub store_all_keeps_known :
      (es : List (Faults × GatewayAccessEvent)) (id : Text) (db : Tables)
      → has_event id db.events ≡ true
      → has_event id (store_all es db).events ≡ true
  unfolding store_all store_gateway_access
  store_all_keeps_known [] id db known = known
  store_all_keeps_known ((f, e) ∷ es) id db known =
      store_all_keeps_known es id (store_gateway_access unicode cast_uuid f e db).0
        (elim (Result-cases (store_transaction unicode cast_uuid f e db)) [
          | inr (fault, h) ↦ ground arith
          | inl ((db', result), h) ↦ ground (arith, keeps_known f e id db db' result h known)
        ])

  pub stored_known :
      (f : Faults) (e : GatewayAccessEvent) (db : Tables) (result : IngestionResult)
      → (store_gateway_access unicode cast_uuid f e db).1 ≡ ok result
      → (row : EventRow) × (row_of unicode cast_uuid e ≡ ok row)
        × (has_event e.event_id (store_gateway_access unicode cast_uuid f e db).0.events ≡ true)
  unfolding store_gateway_access
  stored_known f e db result h = elim (Result-cases (store_transaction unicode cast_uuid f e db)) [
    | inr (fault, i) ↦ ground arith
    | inl ((db', r), i) ↦
        let (row, made, known) = stored_transaction f e db db' r i in (row, made, ground arith)
  ]

  -- An event that was stored, as its first delivery told, is neither stored nor counted again by a
  -- redelivery, whatever else was stored in between and whatever fails. The redelivery is answered
  -- as a duplicate, unless the transaction or its first statement fails.
  pub redelivered :
      (first again : Faults) (e : GatewayAccessEvent) (between : List (Faults × GatewayAccessEvent))
      (db : Tables) (result : IngestionResult)
      → (store_gateway_access unicode cast_uuid first e db).1 ≡ ok result
      → let db' = store_all between (store_gateway_access unicode cast_uuid first e db).0 in
        ((store_gateway_access unicode cast_uuid again e db').0 ≡ db')
        × (((store_gateway_access unicode cast_uuid again e db').1
              ≡ ok (record { duplicate = true; aggregated = false }))
            ⊎ ((fault : Text) × ((again.begin ≡ some fault) ⊎ (again.insert ≡ some fault))))
  redelivered first again e between db result h =
      let (row, made, known) = stored_known first e db result h in
      let db' = (store_gateway_access unicode cast_uuid first e db).0 in
      known_event again e (store_all between db') row made
        (store_all_keeps_known between e.event_id db' known)
