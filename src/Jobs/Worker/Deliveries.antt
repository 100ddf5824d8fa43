-- ===== src/Jobs/Worker/Deliveries.antt =====
-- Tests of the webhook sender, the token cleaner and the report generator.
use edge_guard.Base.{
  pos, Bool, true, false, none, some, List, [], ◌∷◌, All, ok, err, ◌≡◌, ◌≢◌, ◌⊎◌, refl, arith,
  length,
}
use edge_guard.Base.Time.{Time}
use edge_guard.Text.{Text, codes, ◌≟◌, trim_space, to_lower, to_upper, contains}
use edge_guard.Auth.Tokens.{RefreshToken, by_id, find, is_active}
use edge_guard.Analytics.Store.{StatsRow}
use edge_guard.Jobs.Payload.{WebhookPayload, ReportPayload, CleanupPayload}
use edge_guard.Jobs.Worker.{Failure, plain, context, is_permanent}
use edge_guard.Jobs.Worker.Sender.{
  Target, WebhookRequest, Dialer, Tests, blocked_ip, parse_target, resolve_target, fixed_dialer,
  deliver, retryable_status,
}
use edge_guard.Jobs.Worker.Sender.Vetted.{
  IsPublic, IsUnknown, IsUnanswered, request_to, fixed_dialer-IsPublic, deliver_transient,
}
use edge_guard.Jobs.Worker.Cleaner.{cleanup_expired_tokens}
use edge_guard.Jobs.Worker.Cleaner.Kept.{IsKeyed, cleanup_expired_tokens_keeps}
use edge_guard.Jobs.Worker.Report.{
  Files, FileFaults, exists, read, prepare_report, encode, generate,
}
use edge_guard.Jobs.Worker.Report.Files.{generate_whole}

abbrev no_test : Text → Bool
no_test _ = false

-- Addresses are their texts here; the only loopback address is 127.0.0.1.
abbrev tests : Tests Text
tests = record {
  is_loopback = λ ip. ip ≟ codes "127.0.0.1";
  is_private = no_test;
  is_unspecified = no_test;
  is_multicast = no_test;
  is_link_local_unicast = no_test;
  is_link_local_multicast = no_test;
}

abbrev target : Target
target = record {
  scheme = codes "https";
  hostname = codes "hooks.test";
  has_user = false;
  text = codes "https://hooks.test/x";
}

abbrev network : edge_guard.Jobs.Worker.Sender.Ports Text
network = record {
  unicode = λ t. t;
  parse_url = λ _. some target;
  parse_ip = λ _. none;
  lookup = λ _. ok (codes "93.184.216.34" ∷ []);
  tests = tests;
  ip_text = λ ip. ip;
  quote = λ t. t;
  equal_fold = λ s t. s ≟ t;
  connect = λ _ _. none;
  new_request = λ _ _. none;
  set_header = λ headers name value. (name, value) ∷ headers;
  get_header = λ _ _. [];
  do_request = λ _ _. ok (pos 503);
}

resolved :
    resolve_target network [] (codes "https://hooks.test/x")
    ≡ ok (target, codes "93.184.216.34" ∷ [])
unfolding resolve_target ◌≟◌ contains
resolved = refl

fixed_dialer-IsPublic_example :
    All
      (IsPublic network)
      (fixed_dialer network
        (codes "hooks.test")
        (codes "93.184.216.34" ∷ [])
        (some (codes "hooks.test", codes "443"))).tried
unfolding contains
fixed_dialer-IsPublic_example =
    fixed_dialer-IsPublic network [] (codes "https://hooks.test/x") target
      (codes "93.184.216.34" ∷ []) (some (codes "hooks.test", codes "443")) resolved refl

abbrev hook : WebhookPayload
hook = record {
  url = codes "https://hooks.test/x";
  method = codes "post";
  headers = [];
  body = codes "{}";
}

abbrev unavailable : Failure
unavailable =
    edge_guard.Jobs.Worker.noted (plain (codes "unexpected webhook response status"))
      (codes "status=503")

failed : deliver network [] hook ≡ err unavailable
unfolding deliver ◌≟◌ contains to_upper trim_space edge_guard.Text.Format.decimal
failed = refl

deliver_transient_example :
    ((target : Target) × (parse_target network hook.url ≡ ok target)
      × IsUnknown network (to_lower network.unicode target.hostname))
    ⊎ ((target : Target) × (ips : List Text) × (resolve_target network [] hook.url
          ≡ ok (target, ips))
        × IsUnanswered network (
            network.do_request
              (fixed_dialer network target.hostname ips)
              (request_to network target hook)))
unfolding is_permanent
deliver_transient_example = deliver_transient network [] hook unavailable failed refl

abbrev token : Text → Time → RefreshToken
token id expires_at = record {
  id = id;
  user_id = codes "u";
  token_hash = id;
  expires_at = expires_at;
  revoked_at = none;
  created_at = 1;
}

abbrev tokens : List RefreshToken
tokens = token (codes "old") 5 ∷ token (codes "new") 90 ∷ []

abbrev cleanup : CleanupPayload
cleanup = record { before = 10; batch_size = pos 100 }

cleaned : (cleanup_expired_tokens none cleanup tokens).0 ≡ token (codes "new") 90 ∷ []
unfolding cleanup_expired_tokens ◌≟◌
cleaned = refl

distinct : codes "new" ≢ codes "old"
distinct = λ e. ground arith

keyed : IsKeyed tokens
keyed = ((distinct, tt), (tt, tt))

found : find by_id (codes "new") tokens ≡ some (token (codes "new") 90)
unfolding find ◌≟◌
found = refl

active : is_active (token (codes "new") 90) 12 ≡ true
unfolding is_active
active = refl

cleanup_expired_tokens_keeps_example :
    find by_id (codes "new") (cleanup_expired_tokens none cleanup tokens).0
    ≡ some (token (codes "new") 90)
cleanup_expired_tokens_keeps_example =
    cleanup_expired_tokens_keeps none cleanup tokens (codes "new") (token (codes "new") 90) 12 keyed
      found active (omega arith)

abbrev file_faults : FileFaults
file_faults = record {
  mkdir = none;
  create = none;
  sync = none;
  close = none;
  rename = some (codes "read-only");
}

abbrev disk : edge_guard.Jobs.Worker.Report.Ports
disk = record {
  unicode = λ t. t;
  text_le = λ _ _. true;
  project_exists = λ _. exists true;
  uuid_of = λ t. t;
  query_fault = none;
  encode_json = λ _ _ _ _. ok (codes "{}");
  encode_csv = λ _. ok (codes "bucket_start");
  rfc3339 = λ _. codes "t";
  join = λ directory name. name;
  base = λ name. name;
  temporary_name = codes ".edgeguard-report-1";
  faults = file_faults;
}

abbrev report : ReportPayload
report = record { project_id = codes "p"; from = 5; to = 9; format = codes "json" }

abbrev old_files : Files
old_files = (codes "j1.json", codes "old") ∷ []

abbrev old_name : Text
old_name = codes "j1.json"

other_name : old_name ≢ codes ".edgeguard-report-1"
other_name = λ e. ground arith

generate_whole_example :
    let (files', outcome) = generate disk (codes "d") (codes "j1") report [] old_files in
    (((e : Failure) × (outcome ≡ err e) × (read old_name files' ≡ read old_name old_files)))
    ⊎ ((path : Text) × (format : Text) × (items : List StatsRow) × (content : Text) × (outcome
          ≡ ok (path, pos (length items)))
        × (prepare_report disk (codes "d") (codes "j1") report [] ≡ ok (format, items))
        × (encode disk format report items ≡ ok content)
        × (((old_name ≡ path) × (read old_name files' ≡ some content))
            ⊎ ((old_name ≢ path) × (read old_name files' ≡ read old_name old_files))))
generate_whole_example =
    generate_whole disk (codes "d") (codes "j1") report [] old_files old_name other_name
