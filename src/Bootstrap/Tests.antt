-- ===== src/Bootstrap/Tests.antt =====
-- A ceremony on a small source, and the theorems at it.
use hermes_keel.Base.{
  ℕ, ◌≡◌, refl, ◌⊎◌, Bool, true, false, not, none, some, List, [], ◌∷◌, codes, if◌then◌else◌,
  str_eq,
}
use hermes_keel.Base.Int.{pos}
use hermes_keel.Base.Result.{Result, ok, err, raised, os_error}
use hermes_keel.Json.{Value, null, num, text, dict, Fields, fields}
use hermes_keel.Json.Prefix.Lawful.{
  prefix_codec, prefix_dumps, prefix_loads, prefix_codec-IsLawful, prefix_loads_line, digits,
}
use hermes_keel.Json.Normal.{insert, normal, normal_fields}
use hermes_keel.Json.Order.{key_ltb}
use hermes_keel.Broker.Authority.{Task, Run}
use hermes_keel.Broker.Ledger.File.{File, regular}
use hermes_keel.Broker.Request.{fixture_pre_state}
use hermes_keel.Package.Build.{manifest_text}
use hermes_keel.Package.Manifest.{members}
use hermes_keel.Package.Verify.{Entry, Directory}
use hermes_keel.Bootstrap.Binding.{
  Binding, read_binding, board_path, ceremony_host, ceremony_action,
}
use hermes_keel.Bootstrap.Bound.{IsBinding, read_binding-IsBinding}
use hermes_keel.Bootstrap.Fence.{CeremonyBoard, open_fence}
use hermes_keel.Bootstrap.Source.{seal}
use hermes_keel.Bootstrap.Changes.{IsAuthorised, main-IsAuthorised}
use hermes_keel.Bootstrap.Done.{IsResumed, IsFresh, main_zero}
use hermes_keel.Bootstrap.Again.{main_again}
use hermes_keel.Bootstrap.Failed.{IsVacant, main_failed}
use hermes_keel.Bootstrap.Kept.{sealed_by, main_keeps_installed}
use hermes_keel.Bootstrap.Run.{Scene, Site, FileWrite, prepare, main}

abbrev identity : Fields
identity = fields (("device", num (pos 1)) ∷ ("inode", num (pos 2)) ∷ [])

abbrev packet : Fields
packet = fields (
    ("schema", text "keel.phase0-binding.v1")
    ∷ ("task", text "t_912db980")
    ∷ ("run", num (pos 7))
    ∷ ("board", text board_path)
    ∷ ("board_identity", dict identity)
    ∷ ("host", text ceremony_host)
    ∷ ("source", text "/var/tmp/keel")
    ∷ ("manifest_sha256", text digits)
    ∷ ("action", text ceremony_action)
    ∷ ("nonce", text "abcdefghijklmnopqrstuvwxyz012345")
    ∷ ("created_at", num (pos 100))
    ∷ ("expires_at", num (pos 1900))
    ∷ ("packet_sha256", text digits)
    ∷ [])

abbrev binding_file : File
binding_file = record {
  kind = regular;
  owner = 1000;
  mode = 420;
  content = prefix_dumps (dict packet);
}

abbrev task : Task
task = record {
  id = "t_912db980";
  status = text "running";
  completed_at = null;
  body = some digits;
  block_kind = null;
  current_run_id = null;
}

abbrev run : Run
run = record {
  id = pos 7;
  task_id = "t_912db980";
  status = text "running";
  ended_at = null;
  outcome = null;
}

abbrev board : CeremonyBoard
board = record {
  openable = true;
  lockable = true;
  identity = identity;
  board = record {
    tasks = task ∷ [];
    runs = run ∷ [];
    comments = [];
    task_columns = [];
    run_columns = [];
  };
}

abbrev entry : List ℕ → Entry
entry content = record {
  kind = regular;
  owner = 1000;
  mode = 292;
  content = content;
  size = 3;
  device = 1;
  inode = 2;
}

abbrev source : Directory
source = record {
  owner = 1000;
  mode = 493;
  entries = λ name. some (
      entry (
        if str_eq name "MANIFEST"
        then manifest_text prefix_codec (λ n. []) members
        else codes name));
}

abbrev whole_write : FileWrite
whole_write = record { opens = true; takes = λ n. n; syncs = true }

-- a run under `/`, or of the fixture; the pre-state is captured or not
abbrev scene : Bool → Result Value → Scene
scene fixture pre_state = record {
  has_arguments = false;
  fixture = fixture;
  is_root = not fixture;
  is_slash = not fixture;
  captain = 1000;
  now = pos 150;
  fail_after = none;
  binding_file = some binding_file;
  board = board;
  source = some source;
  copying = record {
    makes = true;
    takes = λ n. 1000;
    later = source;
    replaces = true;
    is_root = not fixture;
  };
  installs = true;
  leaves = false;
  pre_state = pre_state;
  nonce = "abcdefghijklmnopqrstuvwxyz012345";
  time = pos 160;
  package_path = "/root/hermes-keel-staging/t_912db980-r7/package";
  request_path = "/var/lib/hermes-privileged-broker/requests/phase1.json";
  makes_directory = true;
  request_write = whole_write;
  receipt_write = whole_write;
  directory_syncs = true;
}

abbrev good : Scene
good = scene false (ok fixture_pre_state)

abbrev vacant : Site
vacant = record {
  staging = record { trusted = none; stage = none };
  installed = false;
  request = none;
  receipt = none;
}

abbrev left : Site
left = (main prefix_codec good vacant).1

first : main prefix_codec good vacant ≡ (ok 0, left)
unfolding main prefix_dumps prefix_loads normal insert key_ltb manifest_text
first = refl

-- the binding as it is read
abbrev bound : Binding
bound = record {
  packet = normal_fields packet;
  hash = digits;
  task = "t_912db980";
  run = pos 7;
  source = "/var/tmp/keel";
  manifest_sha256 = digits;
}

prepared : (pre_state : Result Value) → prepare prefix_codec (scene false pre_state) ≡ ok bound
unfolding prepare prefix_dumps prefix_loads normal insert key_ltb
prepared pre_state = refl

fenced : open_fence false bound board ≡ ok tt
unfolding open_fence normal insert key_ltb
fenced = refl

binding_read : read_binding prefix_codec false (pos 150) 1000 (some binding_file) ≡ ok bound
unfolding read_binding prefix_dumps prefix_loads normal insert key_ltb
binding_read = refl

packet_read : IsBinding prefix_codec false (pos 150) bound
packet_read =
    read_binding-IsBinding prefix_codec false (pos 150) 1000 (some binding_file) bound binding_read

main-IsAuthorised_example : (left ≡ vacant) ⊎ IsAuthorised prefix_codec good
main-IsAuthorised_example = main-IsAuthorised prefix_codec good vacant (ok 0) left first

main_zero_example :
    (b : Binding) × (prepare prefix_codec good ≡ ok b)
    × (open_fence false b board ≡ ok tt)
    × (IsResumed prefix_codec good b vacant left ⊎ IsFresh prefix_codec good b vacant left)
main_zero_example = main_zero prefix_codec good vacant left first

main_again_example : main prefix_codec good left ≡ (ok 0, left)
main_again_example =
    main_again prefix_codec prefix_codec-IsLawful prefix_loads_line good good bound vacant left
      (λ n. refl) (λ n. refl) first (prepared (ok fixture_pre_state))
      (prepared (ok fixture_pre_state)) fenced

-- a fixture whose pre-state cannot be read
abbrev failing : Scene
failing = scene true (err (raised os_error))

fails : main prefix_codec failing vacant ≡ (ok 1, (main prefix_codec failing vacant).1)
unfolding main prefix_dumps prefix_loads normal insert key_ltb manifest_text
fails = refl

vacant-IsVacant : IsVacant vacant
vacant-IsVacant = record {
  untrusted = refl;
  uninstalled = refl;
  unrequested = refl;
  unreceipted = refl;
}

main_failed_example : IsVacant (main prefix_codec failing vacant).1
main_failed_example =
    main_failed prefix_codec failing vacant (main prefix_codec failing vacant).1 refl refl
      vacant-IsVacant fails

-- the same in production
abbrev stranded : Scene
stranded = scene false (err (raised os_error))

stranded_sealed : (sealed_by prefix_codec stranded bound vacant).0 ≡ ok tt
unfolding seal manifest_text
stranded_sealed = refl

main_keeps_installed_example : main prefix_codec stranded vacant ≡ (
  ok 1,
  record vacant {
    staging = record (sealed_by prefix_codec stranded bound vacant).1 { trusted = none };
    installed = true;
  },
)
main_keeps_installed_example =
    main_keeps_installed prefix_codec stranded bound vacant (raised os_error) refl refl
      (prepared (err (raised os_error))) fenced refl stranded_sealed refl refl
