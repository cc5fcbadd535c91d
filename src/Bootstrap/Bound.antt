-- ===== src/Bootstrap/Bound.antt =====
-- What a binding and a fence guarantee once they are accepted.
use mathlib.Core.Path.{subst}
use hermes_keel.Base.{
  ℕ, String, ◌≡◌, refl, sym, ap, ◌∙◌, ◌⊎◌, inl, inr, Bool, true, false, not, ◌&&◌, ◌||◌, Option,
  none, some, arith, ltb, all, codes, count, has_prefix, has_part,
}
use hermes_keel.Base.Int.{ℤ, pos, ◌-ℤ◌, ◌≤ℤ◌, ◌<ℤ◌}
use hermes_keel.Base.Result.{ok, reject_if, >>=-eq-ok, >>-eq-ok, ok_injective}
use hermes_keel.Json.{Value, null, num, text, dict, Fields}
use hermes_keel.Json.Equality.{eq, eq-text}
use hermes_keel.Json.Access.{as_text, as_int, str_has_prefix, text_length_is}
use hermes_keel.Json.Codec.{Codec}
use hermes_keel.Broker.Authority.{Task, Run, joined, canonical_text, active_origin}
use hermes_keel.Broker.Ledger.File.{File}
use hermes_keel.Broker.Ledger.Chain.{get_value}
use hermes_keel.Broker.Request.{is_hex}
use hermes_keel.Bootstrap.Binding.{
  Binding, read_file, read_packet, packet_hash, is_positive, are_times, is_source, is_manifest_hash,
  stands_in_var_tmp, conditions, member_of, read_binding, board_path, ceremony_host,
  ceremony_action,
}
use hermes_keel.Bootstrap.Fence.{CeremonyBoard, waits_at_gate, is_authorised, open_fence}

-- The members of an accepted binding, at the time of the check.
pub record IsBinding (c : Codec) (fixture : Bool) (now : ℤ) (b : Binding) : Type 0 where
  pub hash_bound : b.hash ≡ packet_hash c b.packet
  pub hash_stated : get_value "packet_sha256" b.packet ≡ text b.hash
  pub host : get_value "host" b.packet ≡ text ceremony_host
  pub action : get_value "action" b.packet ≡ text ceremony_action
  pub board : (fixture ≡ true) ⊎ (get_value "board" b.packet ≡ text board_path)
  pub task : get_value "task" b.packet ≡ text b.task
  pub task_prefix : has_prefix "t_" b.task ≡ true
  pub run : get_value "run" b.packet ≡ num b.run
  pub run_positive : pos 0 <ℤ b.run
  pub nonce : text_length_is (λ n. not (ltb n 32)) (get_value "nonce" b.packet) ≡ true
  pub created : ℤ
  pub created_at : get_value "created_at" b.packet ≡ num created
  pub expires : ℤ
  pub expires_at : get_value "expires_at" b.packet ≡ num expires
  pub begun : created ≤ℤ now
  pub live : now <ℤ expires
  pub short : expires -ℤ now ≤ℤ pos 3600
  pub source : get_value "source" b.packet ≡ text b.source
  pub source_absolute : has_prefix "/" b.source ≡ true
  pub source_place : (fixture ≡ true) ⊎ (stands_in_var_tmp b.source ≡ true)
  pub manifest : get_value "manifest_sha256" b.packet ≡ text b.manifest_sha256
  pub manifest_length : count b.manifest_sha256 ≡ 64
  pub manifest_hex : all is_hex (codes b.manifest_sha256) ≡ true

are_times_lem :
    (now : ℤ) (v w : Value)
    → are_times now v w ≡ true
    → (created expires : ℤ) × (v ≡ num created)
      × (w ≡ num expires)
      × (created ≤ℤ now)
      × (now <ℤ expires)
      × (expires -ℤ now ≤ℤ pos 3600)
unfolding ◌-ℤ◌
are_times_lem now (num a) (num b) h = (a, b, refl, refl, ground arith, ground arith, ground arith)
are_times_lem now (num a) null h = cc
are_times_lem now (num a) _ h = cc
are_times_lem now null w h = cc
are_times_lem now _ w h = cc

as_text_lem : (v : Value) {s : String} → member_of (as_text v) ≡ ok s → v ≡ text s
as_text_lem (text s) h = cc
as_text_lem null h = cc
as_text_lem _ h = cc

as_int_lem : (v : Value) {n : ℤ} → member_of (as_int v) ≡ ok n → v ≡ num n
as_int_lem (num n) h = cc
as_int_lem null h = cc
as_int_lem _ h = cc

-- What the last check tests of each member.
record IsTested (fixture : Bool) (now : ℤ) (fs : Fields) : Type 0 where
  host : eq (get_value "host" fs) (text ceremony_host) ≡ true
  action : eq (get_value "action" fs) (text ceremony_action) ≡ true
  board : (fixture || eq (get_value "board" fs) (text board_path)) ≡ true
  run : is_positive (get_value "run" fs) ≡ true
  task : str_has_prefix "t_" (get_value "task" fs) ≡ true
  nonce : text_length_is (λ n. not (ltb n 32)) (get_value "nonce" fs) ≡ true
  times : are_times now (get_value "created_at" fs) (get_value "expires_at" fs) ≡ true
  source : is_source fixture (get_value "source" fs) ≡ true
  manifest : is_manifest_hash (get_value "manifest_sha256" fs) ≡ true

both_true : (a b : Bool) → (a && b) ≡ true → (a ≡ true) × (b ≡ true)
both_true true true h = (refl, refl)
both_true true false h = cc
both_true false b h = cc

not_rejected : (b : Bool) (message : String) → reject_if (not b) message ≡ ok tt → b ≡ true
not_rejected true message h = refl
not_rejected false message h = cc

conditions-IsTested :
    (fixture : Bool) (now : ℤ) (fs : Fields)
    → conditions fixture now fs ≡ true
    → IsTested fixture now fs
conditions-IsTested fixture now fs h =
    let (h1, manifest) = both_true _ _ h in
    let (h2, source) = both_true _ _ h1 in
    let (h3, times) = both_true _ _ h2 in
    let (h4, nonce) = both_true _ _ h3 in
    let (h5, task) = both_true _ _ h4 in
    let (h6, run) = both_true _ _ h5 in
    let (h7, board) = both_true _ _ h6 in
    let (host, action) = both_true _ _ h7 in
    record {
      host = host;
      action = action;
      board = board;
      run = run;
      task = task;
      nonce = nonce;
      times = times;
      source = source;
      manifest = manifest;
    }

either_true : (a b : Bool) → (a || b) ≡ true → (a ≡ true) ⊎ (b ≡ true)
either_true true b h = inl refl
either_true false b h = inr h

is_source_lem :
    (fixture : Bool) (p : String)
    → is_source fixture (text p) ≡ true
    → (has_prefix "/" p ≡ true) × ((fixture ≡ true) ⊎ (stands_in_var_tmp p ≡ true))
is_source_lem fixture p h = (ground arith, either_true fixture (stands_in_var_tmp p) (ground arith))

is_manifest_hash_lem :
    (m : String) → is_manifest_hash (text m) ≡ true → (count m ≡ 64) × (all is_hex (codes m) ≡ true)
is_manifest_hash_lem m h = (ground arith, ground arith)

board_lem :
    (fixture : Bool) (v : Value)
    → (fixture || eq v (text board_path)) ≡ true
    → (fixture ≡ true) ⊎ (v ≡ text board_path)
board_lem true v h = inl refl
board_lem false v h = inr (eq-text v board_path h)

module _ (c : Codec) (fixture : Bool) (now : ℤ) where
  IsTested-IsBinding :
      (b : Binding)
      → get_value "packet_sha256" b.packet ≡ text b.hash
      → b.hash ≡ packet_hash c b.packet
      → get_value "task" b.packet ≡ text b.task
      → get_value "run" b.packet ≡ num b.run
      → get_value "source" b.packet ≡ text b.source
      → get_value "manifest_sha256" b.packet ≡ text b.manifest_sha256
      → IsTested fixture now b.packet
      → IsBinding c fixture now b
  IsTested-IsBinding b stated bound task run source manifest t =
      let (created, expires, at_created, at_expires, begun, live, short) =
        are_times_lem now (get_value "created_at" b.packet) (get_value "expires_at" b.packet)
          t.times in
      let (absolute, placed) = is_source_lem fixture b.source (rw source at t.source) in
      let (long, hex) = is_manifest_hash_lem b.manifest_sha256 (rw manifest at t.manifest) in
      record {
        hash_bound = bound;
        hash_stated = stated;
        host = eq-text (get_value "host" b.packet) ceremony_host t.host;
        action = eq-text (get_value "action" b.packet) ceremony_action t.action;
        board = board_lem fixture (get_value "board" b.packet) t.board;
        task = task;
        task_prefix = ap (str_has_prefix "t_") (sym task) ∙ t.task;
        run = run;
        run_positive = ground (arith, ap is_positive (sym run) ∙ t.run);
        nonce = t.nonce;
        created = created;
        created_at = at_created;
        expires = expires;
        expires_at = at_expires;
        begun = begun;
        live = live;
        short = short;
        source = source;
        source_absolute = absolute;
        source_place = placed;
        manifest = manifest;
        manifest_length = long;
        manifest_hex = hex;
      }

  -- A binding that is accepted states the digest of its own content, names the ceremony's host, action,
  -- and, outside of the fixture, board and place of the source; it has a task, a positive run, a nonce of
  -- at least 32 characters and the digest of a manifest; it was created at or before the time of the
  -- check, and it expires after it, by an hour at most.
  pub read_binding-IsBinding :
      (owner : ℕ) (file : Option File) (b : Binding)
      → read_binding c fixture now owner file ≡ ok b
      → IsBinding c fixture now b
  unfolding read_binding
  read_binding-IsBinding owner file b h =
      let (raw, _, h1) = >>=-eq-ok (read_file owner file) _ h in
      let (fs, _, h2) = >>=-eq-ok (read_packet c raw) _ h1 in
      let (hashed, h3) =
        >>-eq-ok
          (reject_if (not (eq (get_value "packet_sha256" fs) (text (packet_hash c fs))))
            "binding-hash-mismatch")
          _ h2 in
      let (tested, h4) =
        >>-eq-ok (reject_if (not (conditions fixture now fs)) "invalid-binding") _ h3 in
      let (task, at_task, h5) = >>=-eq-ok (member_of (as_text (get_value "task" fs))) _ h4 in
      let (run, at_run, h6) = >>=-eq-ok (member_of (as_int (get_value "run" fs))) _ h5 in
      let (source, at_source, h7) = >>=-eq-ok (member_of (as_text (get_value "source" fs))) _ h6 in
      let (manifest, at_manifest, h8) =
        >>=-eq-ok (member_of (as_text (get_value "manifest_sha256" fs))) _ h7 in
      subst (IsBinding c fixture now) (ok_injective _ b h8) (
        IsTested-IsBinding
          (record {
            packet = fs;
            hash = packet_hash c fs;
            task = task;
            run = run;
            source = source;
            manifest_sha256 = manifest;
          })
          (eq-text (get_value "packet_sha256" fs) (packet_hash c fs)
            (not_rejected _ "binding-hash-mismatch" hashed))
          refl (as_text_lem (get_value "task" fs) at_task) (as_int_lem (get_value "run" fs) at_run)
          (as_text_lem (get_value "source" fs) at_source)
          (as_text_lem (get_value "manifest_sha256" fs) at_manifest)
          (conditions-IsTested fixture now fs (not_rejected _ "invalid-binding" tested)))

-- The board of a ceremony that may go on: it is locked and, outside of the fixture, the one that the
-- binding names; the run is active or waits at the human gate, and its task's text holds the hash.
pub record IsFenced (fixture : Bool) (b : Binding) (f : CeremonyBoard) : Type 0 where
  pub locked : f.lockable ≡ true
  pub bound : (fixture ≡ true) ⊎ (eq (dict f.identity) (get_value "board_identity" b.packet) ≡ true)
  pub task : Task
  pub run : Run
  pub row : joined f.board b.task b.run ≡ some (task, run)
  pub under_way : (active_origin task run ≡ true) ⊎ (waits_at_gate task run ≡ true)
  pub told : has_part b.hash (canonical_text f.board task) ≡ true

is_authorised_lem :
    (b : Binding) (f : CeremonyBoard) (row : Option (Task × Run))
    → is_authorised f.board b.hash row ≡ true
    → (t : Task) × (r : Run) × (row ≡ some (t, r))
      × ((active_origin t r ≡ true) ⊎ (waits_at_gate t r ≡ true))
      × (has_part b.hash (canonical_text f.board t) ≡ true)
unfolding is_authorised
is_authorised_lem b f none h = cc
is_authorised_lem b f (some (t, r)) h =
    (t, r, refl, either_true (active_origin t r) (waits_at_gate t r) (ground arith), ground arith)

pub open_fence-IsFenced :
    (fixture : Bool) (b : Binding) (f : CeremonyBoard)
    → open_fence fixture b f ≡ ok tt
    → IsFenced fixture b f
unfolding open_fence
open_fence-IsFenced fixture b f h =
    let same = eq (dict f.identity) (get_value "board_identity" b.packet) in
    let passed : is_authorised f.board b.hash (joined f.board b.task b.run) ≡ true = ground arith in
    let matched : (fixture || same) ≡ true = ground arith in
    let (t, r, row, active, told) = is_authorised_lem b f (joined f.board b.task b.run) passed in
    record {
      locked = ground arith;
      bound = either_true fixture same matched;
      task = t;
      run = r;
      row = row;
      under_way = active;
      told = told;
    }
