-- ===== src/Supervisor/Ended.antt =====
-- What has happened when `handle` returns.
use hermes_keel.Base.{
  ℕ, ◌≡◌, refl, sym, ap, ◌∙◌, ◌⊎◌, inl, inr, Bool, true, false, Option, List, ◌∷◌,
}
use mathlib.Core.Path.{subst}
use hermes_keel.Base.Int.{ℤ}
use hermes_keel.Base.Result.{ok, ok_injective}
use hermes_keel.Json.{Value}
use hermes_keel.Json.Codec.{Codec}
use hermes_keel.Supervisor.State.{Unicode}
use hermes_keel.Supervisor.Handle.{
  Host, Act, recorded, restarted, World, Caller, ask, Plan, admit, consume, restart_unless, finish,
  act, perform, handle,
}
use hermes_keel.Supervisor.Once.{
  next_ok, next_at, write_receipt_ok, write_receipt_value, admit-Untouched,
}

-- The acts of a run that went through: two receipts, and between them the restart of a live run.
abbrev pub Through : Value → Value → List Act → List Act → Type 0
Through request result before acts =
    (acts ≡ recorded result ∷ recorded request ∷ before)
    ⊎ (acts ≡ recorded result ∷ restarted ∷ recorded request ∷ before)

module _ (c : Codec) (u : Unicode) (caller : Caller) {h : Host} where
  restart_unless_ok :
      (dry_run : Bool) (w : World h) {code : Option ℤ}
      → (restart_unless c u caller dry_run w).0 ≡ ok code
      → ((dry_run ≡ true) × ((restart_unless c u caller dry_run w).1.acts ≡ w.acts))
        ⊎ ((dry_run ≡ false) × ((restart_unless c u caller dry_run w).1.acts ≡ restarted ∷ w.acts))
  unfolding restart_unless
  restart_unless_ok true w e = inl (refl, refl)
  restart_unless_ok false w e = inr (refl, refl)

  finish_ok :
      (p : Plan) (request : Value) (code : Option ℤ) (w : World h) {rq rs : Value}
      → (finish c u caller p request code w).0 ≡ ok (rq, rs)
      → (rq ≡ request) × ((finish c u caller p request code w).1.acts ≡ recorded rs ∷ w.acts)
  unfolding finish
  finish_ok p request code w e =
      let (outcome, classified, e1) = next_ok _ _ e in
      let (result, written, e2) = next_ok _ _ e1 in
      let same = ok_injective _ _ e2 in
      let here = write_receipt_value c u caller _ _ written in
      let acts = write_receipt_ok c u caller (λ _. Unit) _ _ written in
      (
        sym (ap (λ r. r.0) same),
        ap (λ x. x.1.acts) (next_at _ _ _ classified)
            ∙ ap (λ x. x.1.acts) (next_at _ _ _ written)
            ∙ acts
            ∙ ap (λ r. recorded r ∷ w.acts) (sym here ∙ ap (λ r. r.1) same),
      )

  act_ok :
      (p : Plan) (request : Value) (before : List Act) (w : World h) {rq rs : Value}
      → w.acts ≡ recorded request ∷ before
      → (act c u caller p request w).0 ≡ ok (rq, rs)
      → Through rq rs before (act c u caller p request w).1.acts
  unfolding act
  act_ok p request before w {rq} {rs} at e =
      let (code, done, e1) = next_ok _ _ e in
      let (same, acts) = finish_ok p request code _ e1 in
      let whole = ap (λ x. x.1.acts) (next_at _ (finish c u caller p request) code done) ∙ acts in
      elim (restart_unless_ok p.request.dry_run w done) [
        | inl (dry, still) ↦ inl (
            whole
            ∙ ap (λ t. recorded rs ∷ t) (still ∙ at ∙ ap (λ r. recorded r ∷ before) (sym same)))
        | inr (live, went) ↦ inr (
            whole
            ∙ ap (λ t. recorded rs ∷ t)
                (went ∙ ap (λ t. restarted ∷ t) (at ∙ ap (λ r. recorded r ∷ before) (sym same))))
      ]

  perform_ok :
      (p : Plan) (w : World h) {rq rs : Value}
      → (perform c u caller p w).0 ≡ ok (rq, rs)
      → Through rq rs w.acts (perform c u caller p w).1.acts
  unfolding perform consume
  perform_ok p w {rq} {rs} e =
      let (request, written, e1) = next_ok _ _ e in
      let value = write_receipt_value c u caller _ _ written in
      let at =
        write_receipt_ok c u caller (λ _. Unit) _ _ written
        ∙ ap (λ r. recorded r ∷ w.acts) (sym value) in
      subst (λ x. Through rq rs w.acts x.1.acts)
        (sym (next_at _ (act c u caller p) request written)) (act_ok p request w.acts _ at e1)

  -- If `handle` returns, then exactly these things have happened in this order: the receipt of the
  -- request that it returns was written to the end, the service was restarted or not, and the receipt
  -- of the result that it returns was written to the end.
  pub handle_ok :
      (raw : List ℕ) (w : World h) {rq rs : Value}
      → (handle c u caller raw w).0 ≡ ok (rq, rs)
      → Through rq rs w.acts (handle c u caller raw w).1.acts
  unfolding handle
  handle_ok raw w {rq} {rs} e =
      let (p, admitted, e1) = next_ok _ _ e in
      let same = (admit-Untouched c u caller raw (h.time w.state).0 (ask h.time w).1).same_acts in
      let w1 : World h = (admit c u caller raw (h.time w.state).0 (ask h.time w).1).1 in
      subst (λ x. Through rq rs w.acts x.1.acts) (sym (next_at _ (perform c u caller) p admitted))
        (subst (λ t. Through rq rs t (perform c u caller p w1).1.acts) same (perform_ok p w1 e1))
