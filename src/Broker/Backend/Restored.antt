-- ===== src/Broker/Backend/Restored.antt =====
-- What a rollback that returns has done.
use mathlib.Core.Path.{subst}
use hermes_keel.Base.{
  ℕ, String, ◌≡◌, refl, sym, ap, ◌∙◌, ◌⊎◌, inl, inr, Bool, true, false, not, ◌||◌, none, List, [],
  ◌∷◌, str_eq, eq_iff, contains_text, if◌then◌else◌, Bool-cases,
}
use hermes_keel.Base.Result.{Result, Error, ok, err, >>=-eq-ok}
use hermes_keel.Json.{Value}
use hermes_keel.Json.Equality.{eq}
use hermes_keel.Json.Access.{item}
use hermes_keel.Json.Codec.{Codec}
use hermes_keel.Broker.Config.{old_binary, old_sha256, old_version}
use hermes_keel.Broker.Backend.Captured.{Captured, state_value, assert_local_unique, IsLocalUnique}
use hermes_keel.Broker.Backend.Unique.{assert_local_unique_iff}
use hermes_keel.Broker.Backend.Machine.{Machine, World, pure, lift}
use hermes_keel.Broker.Backend.Checks.{stable_keys, all_same, listed, check_target, check_restored}
use hermes_keel.Broker.Backend.Operations.{
  reload_argv, restart_argv, remove_dropin, capture, rerun, rollback,
}
use hermes_keel.Broker.Backend.Does.{
  bind-eq-ok, Does-lift, Does-pure, returned, Does-capture, Does-rerun, Does-remove_dropin,
}

-- The member is there in both dicts and is equal.
abbrev SameMember : String → Value → Value → Type 0
SameMember k v w =
    (a : Value) × (b : Value) × (item k v ≡ ok a) × (item k w ≡ ok b) × (eq a b ≡ true)

all_same_lem :
    (ks : List String) (v w : Value)
    → all_same ks v w ≡ ok true
    → (k : String) → contains_text k ks ≡ true
    → SameMember k v w
unfolding all_same
all_same_lem [] v w h k there = cc
all_same_lem (j ∷ ks) v w h k there =
    let (a, found, h1) = >>=-eq-ok (item j v) _ h in
    let (b, found', h2) = >>=-eq-ok (item j w) _ h1 in
    elim (Bool-cases (eq a b)) [
      | inr other ↦ cc (rw (other) at h2)
      | inl same ↦
          of_key a b found found' same (all_same_lem ks v w (rw (same) at h2) k)
            (Bool-cases (str_eq k j))
    ]
  where
    of_key :
        (a b : Value)
        → item j v ≡ ok a
        → item j w ≡ ok b
        → eq a b ≡ true
        → (contains_text k ks ≡ true → SameMember k v w)
        → (str_eq k j ≡ true) ⊎ (str_eq k j ≡ false)
        → SameMember k v w
    of_key a b found found' same rest (inl at_) =
        subst (λ i. SameMember i v w) (sym ((eq_iff k j).0 at_)) (a, b, found, found', same)
    of_key a b found found' same rest (inr other) = rest (rw (other) at there)

-- What a rollback that returned leaves: no drop-in; the unit reloaded, then restarted, after the file
-- was gone; and a state, captured after that, that agrees with the sealed one, with the old runtime as
-- its one daemon. `at_end` is the world at the second capture.
pub record IsRolledBack (c : Codec) (decode : List ℕ → String) (m : Machine) (req : Value)
    (w w' : World m) : Type 0 where
  pub gone : w'.dropin ≡ none
  pub commands_run : w'.commands ≡ restart_argv ∷ reload_argv ∷ w.commands
  pub expected : Value
  pub expected_found : item "expected_pre_state" req ≡ ok expected
  pub restored : Captured
  pub at_end : World m
  pub end_gone : at_end.dropin ≡ none
  pub end_commands : at_end.commands ≡ restart_argv ∷ reload_argv ∷ w.commands
  pub captured_last : capture c decode at_end ≡ (ok restored, w')
  pub as_before :
      (k : String)
      → contains_text k stable_keys ≡ true
      → SameMember k (state_value restored) expected
  pub unique : IsLocalUnique restored old_binary old_sha256 old_version

lift_world :
    {m : Machine} {A : Type 0} (r : Result A) (w : World m) {w' : World m} {a : A}
    → lift r w ≡ (ok a, w')
    → w ≡ w'
unfolding lift
lift_world r w h = ap (λ x. x.1) h

pure_world :
    {m : Machine} {A : Type 0} (b : A) (w : World m) {w' : World m} {a : A}
    → pure b w ≡ (ok a, w')
    → w ≡ w'
unfolding pure
pure_world b w h = ap (λ x. x.1) h

module _ (c : Codec) (decode : List ℕ → String) where
  stable_of :
      (stable other : Bool) (e : Error)
      → ◌≡◌ {A = Result (Unit {0})} (if not stable || other then err e else ok tt) (ok tt)
      → stable ≡ true
  stable_of true other e h = refl
  stable_of false other e h = cc

  check_restored_lem :
      (s : Captured) (expected : Value)
      → check_restored c decode s expected ≡ ok tt
      → all_same stable_keys (state_value s) expected ≡ ok true
  unfolding check_restored
  check_restored_lem s expected h =
      let (stable, found, h1) = >>=-eq-ok (all_same stable_keys (state_value s) expected) _ h in
      let (before, _, h2) = >>=-eq-ok (listed expected) _ h1 in
      found ∙ ap ok (stable_of stable _ _ h2)

  rolled_back :
      {m : Machine} (req : Value) (w w1 w2 w3 w4 w5 w6 w7 w8 w9 w' : World m)
      {current restored : Captured} {expected reloaded restarted v : Value} (v' : Value)
      → capture c decode w ≡ (ok current, w1)
      → lift (item "expected_pre_state" req) w1 ≡ (ok expected, w2)
      → lift (check_target current expected) w2 ≡ (ok tt, w3)
      → remove_dropin c decode w3 ≡ (ok tt, w4)
      → rerun c decode reload_argv "rollback-daemon-reload" w4 ≡ (ok reloaded, w5)
      → rerun c decode restart_argv "rollback-restart" w5 ≡ (ok restarted, w6)
      → capture c decode w6 ≡ (ok restored, w7)
      → lift (check_restored c decode restored expected) w7 ≡ (ok tt, w8)
      → lift (assert_local_unique restored old_binary old_sha256 old_version) w8 ≡ (ok tt, w9)
      → pure v' w9 ≡ (ok v, w')
      → IsRolledBack c decode m req w w'
  rolled_back {m} req w w1 w2 w3 w4 w5 w6 w7 w8 w9 w' {restored = restored} {expected = expected}
        {v = v} v' e1 e2 e3 e4 e5 e6 e7 e8 e9 e10 =
      let (_, c1) = (Does-capture c decode).at w w1 _ e1 in
      let (_, c2) = (Does-lift _).at w1 w2 _ e2 in
      let (_, c3) = (Does-lift _).at w2 w3 _ e3 in
      let (d4, c4) = (Does-remove_dropin c decode).at w3 w4 _ e4 in
      let (d5, c5) = (Does-rerun c decode reload_argv _).at w4 w5 _ e5 in
      let (d6, c6) = (Does-rerun c decode restart_argv _).at w5 w6 _ e6 in
      let (d7, c7) = (Does-capture c decode).at w6 w7 _ e7 in
      let (d8, c8) = (Does-lift _).at w7 w8 _ e8 in
      let (d9, c9) = (Does-lift _).at w8 w9 _ e9 in
      let (d10, c10) = (Does-pure _).at w9 w' v e10 in
      let ran : w6.commands ≡ restart_argv ∷ reload_argv ∷ w.commands =
        c6 ∙ ap (λ cs. restart_argv ∷ cs) (c5 ∙ ap (λ cs. reload_argv ∷ cs) (c4 ∙ c3 ∙ c2 ∙ c1)) in
      let kept : w7 ≡ w' = lift_world _ w7 e8 ∙ lift_world _ w8 e9 ∙ pure_world _ w9 e10 in
      record {
        gone = d10 ∙ d9 ∙ d8 ∙ d7 ∙ d6 ∙ d5 ∙ d4;
        commands_run = c10 ∙ c9 ∙ c8 ∙ c7 ∙ ran;
        expected = expected;
        expected_found = returned _ w1 e2;
        restored = restored;
        at_end = w6;
        end_gone = d6 ∙ d5 ∙ d4;
        end_commands = ran;
        captured_last = e7 ∙ ap (λ v. (ok restored, v)) kept;
        as_before =
            all_same_lem stable_keys (state_value restored) expected
              (check_restored_lem restored expected (returned _ w7 e8));
        unique =
            (assert_local_unique_iff restored old_binary old_sha256 old_version).0
              (returned _ w8 e9);
      }

  -- If `rollback` returns, the drop-in is gone, the daemon was reloaded and then the service restarted,
  -- and the last call of the machine captured, with the drop-in gone and after both commands, a state
  -- that agrees with the sealed pre-state on every key but the process and its listeners; the old runtime is its one daemon, on the loopback addresses only.
  pub rollback-IsRolledBack :
      {m : Machine} (req : Value) (w w' : World m) (evidence : Value)
      → rollback c decode req w ≡ (ok evidence, w')
      → IsRolledBack c decode m req w w'
  unfolding rollback
  rollback-IsRolledBack {m} req w w' v h0 =
      let (current, w1, e1, h1) = bind-eq-ok (capture c decode) _ w w' v h0 in
      let (expected, w2, e2, h2) = bind-eq-ok (lift (item "expected_pre_state" req)) _ w1 w' v h1 in
      let (_, w3, e3, h3) = bind-eq-ok (lift (check_target current expected)) _ w2 w' v h2 in
      let (_, w4, e4, h4) = bind-eq-ok (remove_dropin c decode) _ w3 w' v h3 in
      let (_, w5, e5, h5) = bind-eq-ok (rerun c decode reload_argv _) _ w4 w' v h4 in
      let (_, w6, e6, h6) = bind-eq-ok (rerun c decode restart_argv _) _ w5 w' v h5 in
      let (restored, w7, e7, h7) = bind-eq-ok (capture c decode) _ w6 w' v h6 in
      let (_, w8, e8, h8) =
        bind-eq-ok (lift (check_restored c decode restored expected)) _ w7 w' v h7 in
      let (_, w9, e9, h9) =
        bind-eq-ok (lift (assert_local_unique restored old_binary old_sha256 old_version)) _ w8 w' v
          h8 in
      rolled_back req w w1 w2 w3 w4 w5 w6 w7 w8 w9 w' _ e1 e2 e3 e4 e5 e6 e7 e8 e9 h9
