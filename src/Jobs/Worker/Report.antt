-- ===== src/Jobs/Worker/Report.antt =====
-- internal/jobworker/infrastructure/report/generator.go: a report of the hourly statistics as a file.
-- The report directory is a list of names with contents. The encoders of JSON and CSV, the format of
-- times, package `filepath`, and the faults of the database and of the file system are ports. The time
-- of generation, which JSON reports hold, is the encoder's to add.
use edge_guard.Base.{
  ℕ, ◌+◌, ℤ, pos, Bool, true, false, not, ◌&&◌, ◌||◌, Option, none, some, List, [], ◌∷◌, ◌++◌,
  if◌then◌else◌, length, map, leb, ltb, ◌==◌, Result, ok, err, ◌>>=◌, ◌>>◌, guard,
}
use edge_guard.Base.Time.{Time, hour, microsecond, truncate, is_zero, before}
use edge_guard.Text.{Text, ◌≟◌, codes, trim_space, to_lower}
use edge_guard.Text.Format.{decimal}
use edge_guard.Analytics.Store.{Key, Counts, StatsRow}
use edge_guard.Analytics.Query.Hourly.{order_by}
use edge_guard.Jobs.Payload.{ReportPayload}
use edge_guard.Jobs.Worker.{Failure, plain, context, permanent}
pub mod Files

abbrev pub Files : Type 0
Files = List (Text × Text)

-- What the database says of the project: an error of the cast, another error, or whether it is there.
pub data ProjectAnswer : Type 0 where
  invalid_uuid : ProjectAnswer
  query_failed : Text → ProjectAnswer
  exists : Bool → ProjectAnswer

-- The steps on the file system, and what each fails with.
pub record FileFaults : Type 0 where
  pub mkdir : Option Text
  pub create : Option Text
  pub sync : Option Text
  pub close : Option Text
  pub rename : Option Text

pub record Ports : Type 0 where
  pub unicode : Text → Text
  pub text_le : Text → Text → Bool
  pub project_exists : Text → ProjectAnswer
  pub uuid_of : Text → Text
  pub query_fault : Option Text
  pub encode_json : Text → Time → Time → List StatsRow → Result Text Text
  pub encode_csv : List (List Text) → Result Text Text
  pub rfc3339 : Time → Text
  pub join : Text → Text → Text
  pub base : Text → Text
  pub temporary_name : Text
  pub faults : FileFaults

-- the WHERE clause of the report's query
unfoldable pub in_report : Text → Time → Time → Key → Bool
unfolding truncate
in_report project_id from to k =
    k.project_id ≟ project_id
    && leb (truncate from hour) k.bucket_start
    && ltb k.bucket_start (if to == truncate to hour then to else truncate to hour + hour)

unfoldable pub report_rows : Text → Time → Time → List StatsRow → List StatsRow
unfolding in_report
report_rows project_id from to [] = []
report_rows project_id from to ((k, c) ∷ rows) =
    let rest = report_rows project_id from to rows in
    if in_report project_id from to k then (k, c) ∷ rest else rest

abbrev failing : Text → Option Text → Result Failure (Unit {0})
failing what none = ok tt
failing what (some text) = err (context what (plain text))

abbrev within : {A : Type 0} → Text → Result Text A → Result Failure A
within what (ok a) = ok a
within what (err text) = err (context what (plain text))

abbrev csv_header : List Text
csv_header =
    codes "bucket_start"
    ∷ codes "route_name"
    ∷ codes "route_path_prefix"
    ∷ codes "method"
    ∷ codes "request_count"
    ∷ codes "status_1xx_count"
    ∷ codes "status_2xx_count"
    ∷ codes "status_3xx_count"
    ∷ codes "status_4xx_count"
    ∷ codes "status_5xx_count"
    ∷ codes "rate_limited_count"
    ∷ codes "total_duration_ms"
    ∷ codes "max_duration_ms"
    ∷ codes "total_response_bytes"
    ∷ []

-- os.Remove and os.Rename
unfoldable pub remove : Text → Files → Files
remove name [] = []
remove name ((other, content) ∷ files) =
    let rest = remove name files in if other ≟ name then rest else (other, content) ∷ rest

unfoldable pub read : Text → Files → Option Text
read name [] = none
read name ((other, content) ∷ files) = if other ≟ name then some content else read name files

module _ (p : Ports) where
  abbrev csv_record : StatsRow → List Text
  csv_record (k, c) =
      p.rfc3339 k.bucket_start
      ∷ k.route_name
      ∷ k.route_path_prefix
      ∷ k.method
      ∷ decimal (pos c.request_count)
      ∷ decimal (pos c.status_1xx)
      ∷ decimal (pos c.status_2xx)
      ∷ decimal (pos c.status_3xx)
      ∷ decimal (pos c.status_4xx)
      ∷ decimal (pos c.status_5xx)
      ∷ decimal (pos c.rate_limited)
      ∷ decimal (pos c.total_duration_ms)
      ∷ decimal (pos c.max_duration_ms)
      ∷ decimal (pos c.total_response_bytes)
      ∷ []

  -- A timestamp is sent to the microsecond.
  unfoldable pub load_rows : ReportPayload → List StatsRow → Result Failure (List StatsRow)
  unfolding report_rows order_by
  load_rows payload rows = do
    failing (codes "query report rows") p.query_fault
    let from = truncate payload.from microsecond
    let to = truncate payload.to microsecond
    ok (order_by p.text_le (report_rows (p.uuid_of payload.project_id) from to rows))

  -- projectExists
  unfoldable pub check_project : Text → Result Failure Bool
  check_project project_id = elim (p.project_exists project_id) [
    | invalid_uuid ↦ err (permanent (plain (codes "invalid report project id")))
    | query_failed text ↦ err (context (codes "check report project") (plain text))
    | exists b ↦ ok b
  ]

  -- writeJSON and writeCSV
  unfoldable pub encode : Text → ReportPayload → List StatsRow → Result Failure Text
  encode format payload items =
      if format ≟ codes "json"
      then within (codes "encode JSON report")
          (p.encode_json payload.project_id payload.from payload.to items)
      else within (codes "write CSV report") (p.encode_csv (csv_header ∷ map csv_record items))

  abbrev pub filename : Text → Text → Text → Text
  filename directory job_id format = p.join directory (p.base job_id ++ (codes "." ++ format))

  -- The checks and the reading, up to the first change of the directory: the name and the content.
  unfoldable pub prepare_report :
      Text → Text → ReportPayload → List StatsRow → Result Failure (Text × List StatsRow)
  unfolding check_project load_rows
  prepare_report directory job_id payload rows = do
    guard (not (is_zero payload.from || is_zero payload.to || not (before payload.from payload.to)))
        (permanent (plain (codes "invalid report range")))
    let format = to_lower p.unicode (trim_space payload.format)
    guard (format ≟ codes "json" || format ≟ codes "csv")
        (permanent (plain (codes "invalid report format")))
    there ← check_project payload.project_id
    guard there (permanent (plain (codes "report project not found")))
    items ← load_rows payload rows
    failing (codes "create report directory") (p.faults).mkdir
    ok (format, items)

  -- What the temporary file holds when it is renamed.
  unfoldable pub finish : Text → ReportPayload → List StatsRow → Result Failure Text
  unfolding encode
  finish format payload items = do
    content ← encode format payload items
    failing (codes "sync report") (p.faults).sync
    failing (codes "close report") (p.faults).close
    failing (codes "publish report") (p.faults).rename
    ok content

  -- From the temporary file on. It is empty at first, then has the content, and is removed at the end.
  unfoldable pub write_report :
      Text → Text → Text → ReportPayload → List StatsRow → Files → Files × Result Failure (Text × ℤ)
  unfolding finish remove
  write_report directory job_id format payload items files = elim (p.faults).create [
    | some text ↦ (files, err (context (codes "create temporary report") (plain text)))
    | none ↦ elim (finish format payload items) [
      | err e ↦ (remove p.temporary_name ((p.temporary_name, []) ∷ files), err e)
      | ok content ↦
          let name = filename directory job_id format in
          (
            remove p.temporary_name ((name, content) ∷ remove name files),
            ok (name, pos (length items)),
          )
    ]
  ]

  -- Generate
  unfoldable pub generate :
      Text → Text → ReportPayload → List StatsRow → Files → Files × Result Failure (Text × ℤ)
  unfolding prepare_report write_report
  generate directory job_id payload rows files =
      elim (prepare_report directory job_id payload rows) [
        | err e ↦ (files, err e)
        | ok (format, items) ↦ write_report directory job_id format payload items files
      ]
