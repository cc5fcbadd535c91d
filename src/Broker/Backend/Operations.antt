-- ===== src/Broker/Backend/Operations.antt =====
-- `check_pre`, `mutate` and `rollback` of the backend.
use hermes_keel.Base.{ℕ, String, not, Option, none, some, List, [], ◌∷◌, map, str_eq, if◌then◌else◌}
use hermes_keel.Base.Int.{pos, eq_ℤ}
use hermes_keel.Base.Result.{Result, ok, err, reject_if, raised, os_error}
use hermes_keel.Json.{Value, num, text, arr, dict, fields, items}
use hermes_keel.Json.Equality.{eq}
use hermes_keel.Json.Access.{item}
use hermes_keel.Json.Codec.{Codec}
use hermes_keel.Broker.Config.{host, service, new_sha256, old_binary, old_sha256, old_version}
use hermes_keel.Broker.Ledger.File.{File}
use hermes_keel.Broker.Ledger.Chain.{digest}
use hermes_keel.Broker.Backend.Captured.{Captured, state_fields, state_value, assert_local_unique}
use hermes_keel.Broker.Backend.Machine.{
  Machine, World, Act, Completed, WriteEnd, wrote, write_raised, sync_raised, pure, lift, call,
  ◌>>=◌, ◌>>◌,
}
use hermes_keel.Broker.Backend.Checks.{
  check_target, is_some, report, check_restored, made_file, check_owner, check_content,
}

abbrev pub reload_argv : List String
reload_argv = "/usr/bin/systemctl" ∷ "daemon-reload" ∷ []

abbrev pub restart_argv : List String
restart_argv = "/usr/bin/systemctl" ∷ "restart" ∷ service ∷ []

-- `decode` is `bytes.decode()` of ASCII.
module _ (c : Codec) (decode : List ℕ → String) where
  module _ {m : Machine} where
    unfoldable pub capture : Act m Captured
    unfolding call
    capture w = call (m.capture w.dropin) w

    -- `_run`
    unfoldable pub run : List String → Act m Completed
    unfolding call
    run argv w = call (m.run argv) (record w { commands = argv ∷ w.commands })

    -- `_checked`
    unfoldable pub checked : List String → String → Act m Completed
    unfolding run
    checked argv label = do
      cp ← run argv
      if eq_ℤ cp.status (pos 0)
          then pure cp
          else lift (
              err (
                report c decode (
                  ("failure", text label)
                  ∷ ("status", num cp.status)
                  ∷ ("stdout", text cp.stdout)
                  ∷ ("stderr", text cp.stderr)
                  ∷ [])))

    unfoldable pub check_pre : Value → Act m (Unit {0})
    unfolding capture eq state_fields assert_local_unique
    check_pre req = do
      name ← λ w. let (n, s) = m.hostname w.state in (ok n, record w { state = s })
      lift (reject_if (not (str_eq name host)) "pre-state-host-or-new-hash")
      hash ← call m.hash_new
      lift (reject_if (not (str_eq hash new_sha256)) "pre-state-host-or-new-hash")
      λ w. (reject_if (is_some w.dropin) "dropin-exists", w)
      actual ← capture
      expected ← lift (item "expected_pre_state" req)
      lift (reject_if (not (eq (state_value actual) expected)) "sealed-pre-state-drift")
      lift (assert_local_unique actual old_binary old_sha256 old_version)

    abbrev filled : WriteEnd → World m → Result (Unit {0}) × World m
    filled (wrote n) w = (ok tt, record w { dropin = some (made_file c decode n) })
    filled write_raised w =
        (err (raised os_error), record w { dropin = some (made_file c decode 0) })
    filled (sync_raised n) w =
        (err (raised os_error), record w { dropin = some (made_file c decode n) })

    -- with `O_EXCL`, so that the file is new
    unfoldable pub create_dropin : Act m (Unit {0})
    create_dropin = do
      call m.open_parent
      call m.open_dropin
      λ w. (if is_some w.dropin then err (raised os_error) else ok tt, w)
      λ w. let (end, s) = m.write w.state in filled end (record w { state = s })

    unfoldable pub mutate : Value → Act m (Unit {0})
    unfolding capture eq state_fields create_dropin checked
    mutate req = do
      actual ← capture
      expected ← lift (item "expected_pre_state" req)
      lift (reject_if (not (eq (state_value actual) expected)) "pre-mutation-drift")
      create_dropin
      checked reload_argv "daemon-reload"
      checked restart_argv "restart"
      pure tt

    abbrev pub unlinked : Result (Unit {0}) → World m → Result (Unit {0}) × World m
    unlinked (ok _) w = (ok tt, record w { dropin = none })
    unlinked (err e) w = (err e, w)

    unfoldable pub unlink_dropin : Act m (Unit {0})
    unlink_dropin w = let (r, s) = m.unlink w.state in unlinked r (record w { state = s })

    unfoldable pub remove_file : Option File → Act m (Unit {0})
    unfolding check_owner check_content unlink_dropin
    remove_file none = pure tt
    remove_file (some f) = do
      lift (check_owner c decode f)
      call m.open_dropin
      lift (check_content c decode f)
      unlink_dropin

    -- the file at the path, if there is one
    unfoldable pub remove_found : Act m (Unit {0})
    unfolding remove_file
    remove_found w = remove_file w.dropin w

    unfoldable pub remove_dropin : Act m (Unit {0})
    unfolding remove_found
    remove_dropin = do call m.open_parent; remove_found; call m.sync

    -- one round of the loop over the commands: its evidence
    unfoldable pub rerun : List String → String → Act m Value
    unfolding run
    rerun argv label = do
      cp ← run argv
      let evidence =
          ("argv", arr (items (map text argv)))
          ∷ ("status", num cp.status)
          ∷ ("stdout", text cp.stdout)
          ∷ ("stderr", text cp.stderr)
          ∷ []
      if eq_ℤ cp.status (pos 0)
          then pure (dict (fields evidence))
          else lift (err (report c decode (("failure", text label) ∷ evidence)))

    unfoldable pub rollback : Value → Act m Value
    unfolding capture check_target remove_dropin rerun check_restored assert_local_unique
    rollback req = do
      current ← capture
      expected ← lift (item "expected_pre_state" req)
      lift (check_target current expected)
      remove_dropin
      reloaded ← rerun reload_argv "rollback-daemon-reload"
      restarted ← rerun restart_argv "rollback-restart"
      restored ← capture
      lift (check_restored c decode restored expected)
      lift (assert_local_unique restored old_binary old_sha256 old_version)
      pure (
          dict (
            fields (
              ("commands", arr (items (reloaded ∷ restarted ∷ [])))
              ∷ ("restored_pre_state_sha256", text (digest c (state_value restored)))
              ∷ [])))
