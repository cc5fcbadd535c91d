-- ===== src/Supervisor/Classify.antt =====
-- When a restart counts as complete.
use hermes_keel.Base.{
  String, ◌≡◌, refl, inl, inr, true, false, Option, none, some, arith, Bool-cases,
}
use hermes_keel.Base.Int.{ℤ, pos, eq_ℤ, eq_ℤ_iff}
use hermes_keel.Base.Result.{ok, >>=-eq-ok}
use hermes_keel.Supervisor.State.{
  Unicode, Properties, is_active, has_pid, classify_post, classify_restart, classify_result,
}

-- What `systemctl` must have said and done.
pub record Restarted (u : Unicode) (restart_exit : Option ℤ) (post : Option Properties)
    (post_error : Option String) : Type 0 where
  pub queried : post_error ≡ none
  pub exited : restart_exit ≡ some (pos 0)
  pub properties : Properties
  pub read : post ≡ some properties
  pub active : is_active properties ≡ true
  pub alive : has_pid u properties ≡ ok true

module _ (u : Unicode) where
  classify_post_lem :
      (ps : Properties) (detail : String)
      → classify_post u ps ≡ ok (pos 0, detail)
      → (is_active ps ≡ true) × (has_pid u ps ≡ ok true)
  unfolding classify_post
  classify_post_lem ps detail h = elim (Bool-cases (is_active ps)) [
    | inr dead ↦ absurd (ground (arith, dead, h))
    | inl active ↦
        let (alive, found, h1) = >>=-eq-ok (has_pid u ps) _ (rw active at h) in
        (active, ground arith)
  ]

  classify_read_lem :
      (post : Option Properties) (detail : String)
      → classify_restart u (some (pos 0)) post ≡ ok (pos 0, detail)
      → Restarted u (some (pos 0)) post none
  unfolding classify_restart
  classify_read_lem none detail h = ground arith
  classify_read_lem (some ps) detail h =
      let (active, alive) = classify_post_lem ps detail h in
      record {
        queried = refl;
        exited = refl;
        properties = ps;
        read = refl;
        active = active;
        alive = alive;
      }

  classify_restart_lem :
      (restart_exit : Option ℤ) (post : Option Properties) (detail : String)
      → classify_restart u restart_exit post ≡ ok (pos 0, detail)
      → Restarted u restart_exit post none
  unfolding classify_restart
  classify_restart_lem none post detail h = ground arith
  classify_restart_lem (some code) post detail h = elim (Bool-cases (eq_ℤ code (pos 0))) [
    | inl zero ↦
        let e : code ≡ pos 0 = (eq_ℤ_iff code (pos 0)).0 zero in
        rw e (classify_read_lem post detail (rw e at h))
    | inr failed ↦ absurd (ground (arith, failed, h, eq_ℤ_iff code (pos 0)))
  ]

  Restarted-classify :
      (restart_exit : Option ℤ) (post : Option Properties) (post_error : Option String)
      → Restarted u restart_exit post post_error
      → classify_result u false restart_exit post post_error ≡ ok (pos 0, "restart-complete")
  unfolding classify_result classify_restart classify_post
  Restarted-classify restart_exit post post_error r =
      rw (r.queried, r.exited, r.read, r.active, r.alive) refl

  classify_result_lem :
      (restart_exit : Option ℤ) (post : Option Properties) (post_error : Option String)
      (detail : String)
      → classify_result u false restart_exit post post_error ≡ ok (pos 0, detail)
      → Restarted u restart_exit post post_error
  unfolding classify_result
  classify_result_lem restart_exit post (some e) detail h = ground arith
  classify_result_lem restart_exit post none detail h =
      classify_restart_lem restart_exit post detail h

  -- A request that is no dry run is classified with exit status 0 exactly when the service was
  -- queried without an error, the restart exited with 0, and the service is active and running with a
  -- process id above 0. The detail is then `restart-complete`.
  pub classify_result_iff :
      (restart_exit : Option ℤ) (post : Option Properties) (post_error : Option String)
      → (((detail : String) × (classify_result u false restart_exit post post_error
              ≡ ok (pos 0, detail)))
          → Restarted u restart_exit post post_error)
        × (Restarted u restart_exit post post_error
            → classify_result u false restart_exit post post_error ≡ ok (pos 0, "restart-complete"))
  classify_result_iff restart_exit post post_error = (
    (λ (detail, h). classify_result_lem restart_exit post post_error detail h),
    Restarted-classify restart_exit post post_error,
  )
