-- ===== src/Broker/Backend/Unique.antt =====
-- `_assert_local_unique` against its description.
use hermes_keel.Base.{
  String, ◌≡◌, ◌≢◌, ◌↔◌, refl, sym, ap, ◌∙◌, true, false, not, ◌||◌, List, [], ◌∷◌, map, arith,
  eq_iff, any, length, Bool-cases, inl, inr,
}
use hermes_keel.Base.Int.{ℤ, pos, eq_ℤ, eq_ℤ_iff}
use hermes_keel.Base.Result.{ok, >>-eq-ok, passed, unnegated, or_false_left, or_false_right}
use hermes_keel.Broker.Config.{port}
use hermes_keel.Broker.Backend.Captured.{
  Listener, Captured, assert_local_unique, is_other, is_foreign, is_empty, eq_ints, distinct,
  IsLocal, All, IsLocalUnique,
}

eq_ints_one : (ns : List ℤ) (n : ℤ) → eq_ints ns (n ∷ []) ≡ true → ns ≡ n ∷ []
eq_ints_one [] n h = cc
eq_ints_one (a ∷ []) n h = ground (arith, eq_ℤ_iff a n)
eq_ints_one (a ∷ b ∷ ns) n h = ground arith

eq_ints_refl : (n : ℤ) → eq_ints (n ∷ []) (n ∷ []) ≡ true
eq_ints_refl n = ground (arith, eq_ℤ_iff n n)

owned_listener : (pid : ℤ) (l : Listener) → is_foreign pid l ≡ false → IsLocal pid l
owned_listener pid l h = record {
  loopback = ground (arith, h);
  at_port = ground (arith, h, eq_ℤ_iff l.port (pos port));
  owned = ground (arith, h, eq_ℤ_iff l.pid pid);
}

own_listener : (pid : ℤ) (l : Listener) → IsLocal pid l → is_foreign pid l ≡ false
own_listener pid l k =
    rw (k.loopback, (eq_ℤ_iff l.port (pos port)).1 k.at_port, (eq_ℤ_iff l.pid pid).1 k.owned) refl

owned_listeners :
    (pid : ℤ) (ls : List Listener) → any (is_foreign pid) ls ≡ false → All (IsLocal pid) ls
owned_listeners pid [] h = tt
owned_listeners pid (l ∷ ls) h = elim (Bool-cases (is_foreign pid l)) [
  | inl foreign ↦ absurd (true≢false (ground (arith, foreign, h)))
  | inr own ↦ (owned_listener pid l own, owned_listeners pid ls (rw own at h))
]
  where
    true≢false : true ≡ false → ⊥
    true≢false e = cc

none_foreign :
    (pid : ℤ) (ls : List Listener) → All (IsLocal pid) ls → any (is_foreign pid) ls ≡ false
none_foreign pid [] k = refl
none_foreign pid (l ∷ ls) (k, ks) = rw (own_listener pid l k, none_foreign pid ls ks) refl

-- so the last check of the source always passes
one_process :
    (pid : ℤ) (ls : List Listener)
    → All (IsLocal pid) ls
    → ls ≢ []
    → length (distinct (map (λ (l : Listener). l.pid) ls)) ≡ 1
one_process pid [] k full = absurd (full refl)
one_process pid (l ∷ []) k full = refl
one_process pid (l ∷ l' ∷ ls) (k, (k', ks)) full =
    let same : eq_ℤ l.pid l'.pid ≡ true = (eq_ℤ_iff l.pid l'.pid).1 (k.owned ∙ sym k'.owned) in
    rw (same) (one_process pid (l' ∷ ls) (k', ks) (λ e. cc))

some_listener : (ls : List Listener) → is_empty ls ≡ false → ls ≢ []
some_listener [] h e = cc
some_listener (l ∷ ls) h e = cc

is_empty_of_full : (ls : List Listener) → ls ≢ [] → is_empty ls ≡ false
is_empty_of_full [] full = absurd (full refl)
is_empty_of_full (l ∷ ls) full = refl

unique_of_passed :
    (s : Captured) (executable sha256 version : String)
    → assert_local_unique s executable sha256 version ≡ ok tt
    → IsLocalUnique s executable sha256 version
unfolding assert_local_unique
unique_of_passed s executable sha256 version h =
    let (h1, k1) = >>-eq-ok _ _ h in
    let (h2, k2) = >>-eq-ok _ _ k1 in
    let (h3, k3) = >>-eq-ok _ _ k2 in
    let identity = passed (is_other s executable sha256 version) _ h1 in
    let daemons = passed (not (eq_ints s.daemon_pids (s.main_pid ∷ []))) _ h2 in
    let listeners = passed (is_empty s.listeners || any (is_foreign s.main_pid) s.listeners) _ h3 in
    record {
      active_unit = ground (arith, identity);
      same_executable = ground (arith, identity, eq_iff s.process_executable executable);
      same_sha256 = ground (arith, identity, eq_iff s.process_sha256 sha256);
      same_version = ground (arith, identity, eq_iff s.version version);
      one_daemon = eq_ints_one s.daemon_pids s.main_pid (unnegated _ daemons);
      listening = λ e. some_listener s.listeners (or_false_left _ _ listeners) e;
      all_local = owned_listeners s.main_pid s.listeners (or_false_right _ _ listeners);
    }

passed_of_unique :
    (s : Captured) (executable sha256 version : String)
    → IsLocalUnique s executable sha256 version
    → assert_local_unique s executable sha256 version ≡ ok tt
unfolding assert_local_unique
passed_of_unique s executable sha256 version u =
    rw
      (
        u.active_unit,
        (eq_iff s.process_executable executable).1 u.same_executable,
        (eq_iff s.process_sha256 sha256).1 u.same_sha256,
        (eq_iff s.version version).1 u.same_version,
        ap (λ ns. eq_ints ns (s.main_pid ∷ [])) u.one_daemon ∙ eq_ints_refl s.main_pid,
        is_empty_of_full s.listeners u.listening,
        none_foreign s.main_pid s.listeners u.all_local,
        one_process s.main_pid s.listeners u.all_local u.listening,
      )
      refl

-- `_assert_local_unique` passes exactly if the unit is active, its process has the executable, the
-- digest and the version, it is the only daemon, and there are listeners, each on a loopback address
-- at the port and owned by that process. So the check for a second process in the list decides nothing.
pub assert_local_unique_iff :
    (s : Captured) (executable sha256 version : String)
    → (assert_local_unique s executable sha256 version ≡ ok tt)
      ↔ IsLocalUnique s executable sha256 version
assert_local_unique_iff s executable sha256 version =
    (unique_of_passed s executable sha256 version, passed_of_unique s executable sha256 version)
