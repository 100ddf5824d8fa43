-- ===== src/Jobs/Worker/Report/Files.antt =====
-- What a report leaves in the directory, and which rows it has.
use edge_guard.Base.{
  pos, true, false, some, List, [], ◌∷◌, length, Bool-cases, Option-cases, Result-cases, ok, err,
  ◌≡◌, ◌≢◌, ◌⊎◌, refl, arith, inl, inr, sym, ◌∙◌,
}
use edge_guard.Base.Time.{Time, hour, truncate}
use edge_guard.Text.{Text, ◌≟◌, codes}
use edge_guard.Text.Equal.{≟_iff, ≟_refl}
use edge_guard.Analytics.Store.{StatsRow}
use edge_guard.Analytics.Query.{where_clause, selects, ceil_hour}
use edge_guard.Jobs.Payload.{ReportPayload}
use edge_guard.Jobs.Worker.{Failure, plain, context}
use edge_guard.Jobs.Worker.Report.{
  Files, Ports, in_report, report_rows, remove, read, encode, prepare_report, finish, write_report,
  generate, filename,
}

-- The rows of a report are those that the analytics service selects for the hours that touch the
-- report's interval, of all routes and methods.
pub report_rows-where_clause :
    (project_id asked : Text) (from to : Time) (rows : List StatsRow)
    → report_rows project_id from to rows
      ≡ where_clause project_id
          (record {
            project_id = asked;
            from = truncate from hour;
            to = ceil_hour to;
            route_name = [];
            method = [];
          })
          rows
unfolding report_rows in_report where_clause selects ceil_hour
report_rows-where_clause project_id asked from to [] = refl
report_rows-where_clause project_id asked from to ((k, c) ∷ rows) =
    ground (arith, report_rows-where_clause project_id asked from to rows)

read-remove :
    (name other : Text) (files : Files)
    → name ≢ other
    → read name (remove other files) ≡ read name files
unfolding read remove
read-remove name other [] h = refl
read-remove name other ((n, content) ∷ files) h =
    ground (arith, ≟_iff n other, ≟_iff n name, h, read-remove name other files h)

differ : (path name : Text) → (path ≟ name) ≡ false → name ≢ path
differ path name h = λ e. ground (arith, ≟_iff path name, sym e)

read_first :
    (path name content : Text) (files : Files)
    → (path ≟ name) ≡ true
    → read name ((path, content) ∷ files) ≡ some content
unfolding read
read_first path name content files h = rw h refl

read_rest :
    (path name content : Text) (files : Files)
    → (path ≟ name) ≡ false
    → read name ((path, content) ∷ files) ≡ read name files
unfolding read
read_rest path name content files h = rw h refl

without_temporary :
    (temporary name content : Text) (files : Files)
    → name ≢ temporary
    → read name (remove temporary ((temporary, content) ∷ files)) ≡ read name files
unfolding read remove
without_temporary temporary name content files h =
    rw (≟_refl temporary) (read-remove name temporary files h)

written :
    (temporary path name content : Text) (files : Files)
    → name ≢ temporary
    → (path ≟ name) ≡ true
    → read name (remove temporary ((path, content) ∷ remove path files)) ≡ some content
written temporary path name content files h same =
    read-remove name temporary ((path, content) ∷ remove path files) h
    ∙ read_first path name content (remove path files) same

kept :
    (temporary path name content : Text) (files : Files)
    → name ≢ temporary
    → (path ≟ name) ≡ false
    → read name (remove temporary ((path, content) ∷ remove path files)) ≡ read name files
kept temporary path name content files h apart =
    read-remove name temporary ((path, content) ∷ remove path files) h
    ∙ (read_rest path name content (remove path files) apart
        ∙ read-remove name path files (differ path name apart))

finished :
    (p : Ports) (format : Text) (payload : ReportPayload) (items : List StatsRow) (content : Text)
    → finish p format payload items ≡ ok content
    → encode p format payload items ≡ ok content
unfolding finish
finished p format payload items content h = ground arith

-- A report is there as a whole or not at all. For the name of any file but the temporary one: a run
-- that fails leaves it as it was; a run that succeeds leaves every other file as it was, and under
-- the returned name the content that the encoder made of the rows that the run counted.
pub generate_whole :
    (p : Ports) (directory job_id : Text) (payload : ReportPayload) (rows : List StatsRow)
    (files : Files) (name : Text)
    → name ≢ p.temporary_name
    → let (files', outcome) = generate p directory job_id payload rows files in
      (((e : Failure) × (outcome ≡ err e) × (read name files' ≡ read name files)))
      ⊎ ((path : Text) × (format : Text) × (items : List StatsRow) × (content : Text) × (outcome
            ≡ ok (path, pos (length items)))
          × (prepare_report p directory job_id payload rows ≡ ok (format, items))
          × (encode p format payload items ≡ ok content)
          × (((name ≡ path) × (read name files' ≡ some content))
              ⊎ ((name ≢ path) × (read name files' ≡ read name files))))
unfolding generate write_report
generate_whole p directory job_id payload rows files name other =
    elim (Result-cases (prepare_report p directory job_id payload rows)) [
      | inr (e, r) ↦ inl (e, ground arith, ground arith)
      | inl ((format, items), r) ↦ elim (Option-cases (p.faults).create) [
        | inr (text, c) ↦ inl (
          context (codes "create temporary report") (plain text),
          rw (generate, write_report, r, c) refl,
          rw (generate, write_report, r, c) refl,
        )
        | inl c ↦ elim (Result-cases (finish p format payload items)) [
          | inr (e, f) ↦ inl (
            e,
            rw (generate, write_report, r, c, f) refl,
            rw (generate, write_report, r, c, f)
                (without_temporary p.temporary_name name [] files other),
          )
          | inl (content, f) ↦
              let path = filename p directory job_id format in
              inr (
                path,
                format,
                items,
                content,
                rw (generate, write_report, r, c, f) refl,
                r,
                finished p format payload items content f,
                elim (Bool-cases (path ≟ name)) [
                  | inl same ↦ inl (
                    sym ((≟_iff path name).0 same),
                    rw (generate, write_report, r, c, f)
                        (written p.temporary_name path name content files other same),
                  )
                  | inr apart ↦ inr (
                    differ path name apart,
                    rw (generate, write_report, r, c, f)
                        (kept p.temporary_name path name content files other apart),
                  )
                ],
              )
        ]
      ]
    ]
