-- ===== src/Broker/Authority/Drift.antt =====
-- What opening the board establishes.
use hermes_keel.Base.{
  Bool, ℕ, String, ◌≡◌, ◌≢◌, true, false, not, ◌||◌, ◌&&◌, List, [], ◌∷◌, arith, ◌==◌,
}
use hermes_keel.Base.{Bool-cases, inl, inr, str_eq, eq_iff, contains_text}
use hermes_keel.Base.Int.{ℤ}
use hermes_keel.Base.Result.{ok, reject_if, >>=-eq-ok, >>-eq-ok}
use hermes_keel.Json.{Value, text, dict, Fields}
use hermes_keel.Json.Equality.{eq, eq-text}
use hermes_keel.Json.Access.{item}
use hermes_keel.Broker.Authority.{
  sqlite_failure, BoardFile, bound_keys, fence_keys, fixture_path, check_drift, check_identity,
  fence, open_bound_board, task_active,
}
use hermes_keel.Broker.Authority.Laws.{Authorised, task_active_iff}

-- Both values have the named members, and equal ones.
abbrev pub AgreeOn : List String → Value → Value → Type 0
AgreeOn keys a e =
    (k : String)
    → contains_text k keys ≡ true
    → (v w : Value) × (item k a ≡ ok v) × (item k e ≡ ok w) × (eq v w ≡ true)

check_drift-AgreeOn :
    (keys : List String) (a e : Value) → check_drift keys a e ≡ ok tt → AgreeOn keys a e
unfolding check_drift
check_drift-AgreeOn [] a e h k m = cc
check_drift-AgreeOn (j ∷ keys) a e h k m =
    let (v, at_v, h1) = >>=-eq-ok (item j a) _ h in
    let (w, at_w, h2) = >>=-eq-ok (item j e) _ h1 in
    let (same, h3) = >>-eq-ok (reject_if (not (eq v w)) "authoritative-board-drift") _ h2 in
    elim (Bool-cases (str_eq k j)) [
      | inl here ↦ rw ((eq_iff k j).0 here) (v, w, at_v, at_w, ground arith)
      | inr there ↦ check_drift-AgreeOn keys a e h3 k (ground arith)
    ]

-- What a successful opening for writing establishes.
pub record Fenced (euid : ℕ) (f : BoardFile) (req : Value) (task : String) (run : ℤ) (h : String)
    : Type 0 where
  pub owned : ((f.owner == 0) || (f.owner == euid)) ≡ true
  pub locked : f.lockable ≡ true
  pub steady : AgreeOn fence_keys (dict f.fenced) (dict f.identity)
  pub authorised : Authorised f.board task run h
  pub pre : Value
  pub expected : Value
  pub pre_found : item "expected_pre_state" req ≡ ok pre
  pub expected_found : item "board_identity" pre ≡ ok expected
  pub bound :
      item "path" expected ≢ ok (text fixture_path) → AgreeOn bound_keys (dict f.identity) expected

check_identity-AgreeOn :
    (f : BoardFile) (expected : Value)
    → check_identity f expected ≡ ok tt
    → item "path" expected ≢ ok (text fixture_path)
    → AgreeOn bound_keys (dict f.identity) expected
unfolding check_identity
check_identity-AgreeOn f expected h other =
    let (path, at_path, h1) = >>=-eq-ok (item "path" expected) _ h in
    elim (Bool-cases (eq path (text fixture_path))) [
      | inl fixture ↦ absurd (other (cc (at_path, eq-text path fixture_path fixture)))
      | inr real ↦ check_drift-AgreeOn bound_keys (dict f.identity) expected (rw real at h1)
    ]

-- Opening the board for writing succeeds only on a file of root or the caller, under SQLite's write
-- lock, with device, inode and schema unchanged across the lock, for a request that the board
-- authorises; and unless the request names the fixture's path, the file is the one that it was
-- sealed with. The identity returned is the one measured under the lock.
pub open_bound_board-Fenced :
    (euid : ℕ) (f : BoardFile) (req : Value) (task : String) (run : ℤ) (h : String)
    {actual : Fields}
    → open_bound_board euid f req task run h true ≡ ok actual
    → Fenced euid f req task run h × (actual ≡ f.fenced)
unfolding open_bound_board fence
open_bound_board-Fenced euid f req task run h opened =
    let (can_open, h1) = >>-eq-ok (reject_if (not f.openable) "unsafe-board") _ opened in
    let (safe, h2) =
      >>-eq-ok (reject_if (not (f.regular && (f.owner == 0 || f.owner == euid))) "unsafe-board") _
        h1 in
    let (connected, h3) =
      >>-eq-ok (reject_if (not f.connectable) "canonical-mutation-fence-unavailable") _ h2 in
    let (pre, pre_found, h4) = >>=-eq-ok (item "expected_pre_state" req) _ h3 in
    let (expected, expected_found, h5) = >>=-eq-ok (item "board_identity" pre) _ h4 in
    let (same, h6) = >>-eq-ok (check_identity f expected) _ h5 in
    let (got, fenced, h7) = >>=-eq-ok (fence f true) _ h6 in
    let (locked, h8) =
      >>-eq-ok (reject_if (not f.lockable) "canonical-mutation-fence-unavailable") _ fenced in
    let (steady, h9) = >>-eq-ok (check_drift fence_keys (dict f.fenced) (dict f.identity)) _ h8 in
    let (active, h10) = >>-eq-ok (task_active f.board task run h) _ h7 in
    (
      record {
        owned = ground arith;
        locked = ground arith;
        steady = check_drift-AgreeOn fence_keys (dict f.fenced) (dict f.identity) steady;
        authorised = (task_active_iff f.board task run h).0 active;
        pre = pre;
        expected = expected;
        pre_found = pre_found;
        expected_found = expected_found;
        bound = check_identity-AgreeOn f expected same;
      },
      cc,
    )

-- Opening the board, for reading or for writing, includes the query of the authority.
pub open_bound_board-task_active :
    (euid : ℕ) (f : BoardFile) (req : Value) (task : String) (run : ℤ) (h : String)
    (writable : Bool) {actual : Fields}
    → open_bound_board euid f req task run h writable ≡ ok actual
    → task_active f.board task run h ≡ ok tt
unfolding open_bound_board
open_bound_board-task_active euid f req task run h writable opened =
    let (can_open, h1) = >>-eq-ok (reject_if (not f.openable) "unsafe-board") _ opened in
    let (safe, h2) =
      >>-eq-ok (reject_if (not (f.regular && (f.owner == 0 || f.owner == euid))) "unsafe-board") _
        h1 in
    let (connected, h3) = >>-eq-ok (reject_if (not f.connectable) (sqlite_failure writable)) _ h2 in
    let (pre, pre_found, h4) = >>=-eq-ok (item "expected_pre_state" req) _ h3 in
    let (expected, expected_found, h5) = >>=-eq-ok (item "board_identity" pre) _ h4 in
    let (same, h6) = >>-eq-ok (check_identity f expected) _ h5 in
    let (got, fenced, h7) = >>=-eq-ok (fence f writable) _ h6 in
    let (active, h8) = >>-eq-ok (task_active f.board task run h) _ h7 in active

-- A request that names the fixture's path is bound to no board: any file of root or the caller whose
-- rows authorise it will do, whatever identity the request states and the file has.
pub open_bound_board_fixture :
    (euid : ℕ) (f : BoardFile) (req pre expected : Value) (task : String) (run : ℤ) (h : String)
    → f.openable ≡ true
    → f.regular ≡ true
    → ((f.owner == 0) || (f.owner == euid)) ≡ true
    → f.connectable ≡ true
    → item "expected_pre_state" req ≡ ok pre
    → item "board_identity" pre ≡ ok expected
    → item "path" expected ≡ ok (text fixture_path)
    → Authorised f.board task run h
    → open_bound_board euid f req task run h false ≡ ok f.identity
unfolding open_bound_board check_identity fence
open_bound_board_fixture euid f req pre expected task run h opens regular owned connects at_pre
      at_board at_path a =
    rw (
      opens,
      regular,
      owned,
      connects,
      at_pre,
      at_board,
      at_path,
      (task_active_iff f.board task run h).1 a,
    )
