-- ===== src/Broker/Backend/Removed.antt =====
-- What a rollback does to the drop-in, on every path.

use hermes_keel.Base.{
  ℕ, ◌+◌, String, ◌≡◌, refl, sym, ◌∙◌, ◌⊎◌, inl, inr, true, not, ◌||◌, Option, none, some, List,
  arith, ◌==◌, str_eq, eq_iff, length, take,
}
use hermes_keel.Base.Result.{Result, Error, ok, err, Result-cases, passed, unnegated, or_false_left}
use hermes_keel.Json.{Value}
use hermes_keel.Json.Access.{item}
use hermes_keel.Json.Codec.{Codec}
use hermes_keel.Broker.Ledger.File.{File, Kind, regular, symlink, special}
use hermes_keel.Broker.Backend.Captured.{Captured}
use hermes_keel.Broker.Backend.Machine.{Machine, World, Act, lift, call, continue, ◌>>=◌}
use hermes_keel.Broker.Backend.Checks.{
  check_target, dropin_bytes, is_regular_file, check_owner, check_content,
}
use hermes_keel.Broker.Backend.Operations.{
  unlink_dropin, unlinked, remove_file, remove_found, remove_dropin, capture, rollback,
}
use hermes_keel.Broker.Backend.Spares.{
  Spares, Spares-call, Spares-lift, Spares-pure, Spares-bind, capture-Spares, rerun-Spares,
}

-- The file that a rollback may remove: a regular file of root with the digest of the sealed bytes.
pub record IsSealedFile (c : Codec) (decode : List ℕ → String) (f : File) : Type 0 where
  pub regular_file : f.kind ≡ regular
  pub of_root : f.owner ≡ 0
  pub same_digest :
      c.sha256 (take (length (dropin_bytes c decode) + 1) f.content)
      ≡ c.sha256 (dropin_bytes c decode)

-- Why a rollback that starts here may stop before the drop-in is removed.
pub data Hindrance {m : Machine} (c : Codec) (decode : List ℕ → String) (req : Value) (w : World m)
    : Type 0 where
  uncaptured : (e : Error) → (capture c decode w).0 ≡ err e → Hindrance c decode req w
  unsealed : (e : Error) → item "expected_pre_state" req ≡ err e → Hindrance c decode req w
  drifted :
      (current : Captured) (expected : Value) (e : Error)
      → (capture c decode w).0 ≡ ok current
      → item "expected_pre_state" req ≡ ok expected
      → check_target current expected ≡ err e
      → Hindrance c decode req w
  parent_closed : (s : m.State) (e : Error) → (m.open_parent s).0 ≡ err e → Hindrance c decode req w
  unowned :
      (f : File) (e : Error)
      → w.dropin ≡ some f
      → check_owner c decode f ≡ err e
      → Hindrance c decode req w
  unreadable : (s : m.State) (e : Error) → (m.open_dropin s).0 ≡ err e → Hindrance c decode req w
  altered :
      (f : File) (e : Error)
      → w.dropin ≡ some f
      → check_content c decode f ≡ err e
      → Hindrance c decode req w
  unremovable : (s : m.State) (e : Error) → (m.unlink s).0 ≡ err e → Hindrance c decode req w

-- Either it raised for one of these reasons, with the drop-in as it was and no command run; or nothing
-- stands at the path, where nothing stood before or a sealed file.
abbrev pub Unseals :
    {m : Machine} {A : Type 0} (c : Codec) (decode : List ℕ → String) (req : Value)
    → World m
    → Result A × World m
    → Type 0
Unseals c decode req w (r, w') =
    (((e : Error) × (r ≡ err e))
      × (w'.dropin ≡ w.dropin)
      × (w'.commands ≡ w.commands)
      × Hindrance c decode req w)
    ⊎ ((w'.dropin ≡ none)
        × ((w.dropin ≡ none) ⊎ ((f : File) × (w.dropin ≡ some f) × IsSealedFile c decode f)))

regular_of : (k : Kind) → is_regular_file k ≡ true → k ≡ regular
regular_of regular h = refl
regular_of symlink h = cc
regular_of special h = cc

module _ (c : Codec) (decode : List ℕ → String) where
  abbrev sealed_digest : String
  sealed_digest = c.sha256 (dropin_bytes c decode)

  -- of what a rollback reads
  abbrev pub digest_of : File → String
  digest_of f = c.sha256 (take (length (dropin_bytes c decode) + 1) f.content)

  sealed_of_checks :
      (f : File)
      → check_owner c decode f ≡ ok tt
      → check_content c decode f ≡ ok tt
      → IsSealedFile c decode f
  unfolding check_owner check_content
  sealed_of_checks f identity content =
      let kind_or_owner = passed (not (is_regular_file f.kind) || not (f.owner == 0)) _ identity in
      let other = passed (not (str_eq (digest_of f) sealed_digest)) _ content in
      record {
        regular_file = regular_of f.kind (unnegated _ (or_false_left _ _ kind_or_owner));
        of_root = ground (arith, kind_or_owner);
        same_digest = (eq_iff (digest_of f) sealed_digest).0 (unnegated _ other);
      }

module _ (c : Codec) (decode : List ℕ → String) {m : Machine} (req : Value) (w : World m) where
  abbrev UnsealsHere : {A : Type 0} → Result A × World m → Type 0
  UnsealsHere x = Unseals c decode req w x

  -- the first call raises here, or the rest goes on from here
  Unseals-step :
      {A B : Type 0} (f : Act m A) (k : A → Act m B) (w' : World m)
      → ((e : Error) → (f w').0 ≡ err e → UnsealsHere {A = B} (err e, (f w').1))
      → ((a : A) → (f w').0 ≡ ok a → UnsealsHere (k a (f w').1))
      → UnsealsHere ((f >>= k) w')
  unfolding ◌>>=◌
  Unseals-step {A} {B} f k w' failed rest = go (f w').0 refl
    where
      go : (r : Result A) → (f w').0 ≡ r → UnsealsHere (continue r k (f w').1)
      go (ok a) h = rest a h
      go (err e) h = failed e h

  Unseals-lift :
      {A B : Type 0} (r : Result A) (k : A → Act m B) (w' : World m)
      → ((e : Error) → r ≡ err e → UnsealsHere {A = B} (err e, w'))
      → ((a : A) → r ≡ ok a → UnsealsHere (k a w'))
      → UnsealsHere ((lift r >>= k) w')
  unfolding lift
  Unseals-lift r k w' failed rest = Unseals-step (lift r) k w' failed rest

  -- calls that spare the drop-in come after
  Unseals-continue :
      {A B : Type 0} (r : Result A) (k : A → Act m B) (w' : World m)
      → UnsealsHere (r, w')
      → ((a : A) → Spares (k a))
      → UnsealsHere (continue r k w')
  Unseals-continue (ok a) k w' (inl ((_, h), _, _, _)) s = cc
  Unseals-continue (ok a) k w' (inr (gone, before)) s = inr ((s a).at w' ∙ gone, before)
  Unseals-continue (err e) k w' (inl (_, same, idle, why)) s = inl ((e, refl), same, idle, why)
  Unseals-continue (err e) k w' (inr (gone, before)) s = inr (gone, before)

  Unseals-bind :
      {A B : Type 0} (f : Act m A) (k : A → Act m B) (w' : World m)
      → UnsealsHere (f w')
      → ((a : A) → Spares (k a))
      → UnsealsHere ((f >>= k) w')
  unfolding ◌>>=◌
  Unseals-bind f k w' h s = Unseals-continue (f w').0 k (f w').1 h s

  unlink-Unseals :
      (f : File)
      → IsSealedFile c decode f
      → (w' : World m) → w.dropin ≡ some f
      → w'.dropin ≡ w.dropin
      → w'.commands ≡ w.commands
      → UnsealsHere (unlink_dropin c decode w')
  unfolding unlink_dropin
  unlink-Unseals f sealed w' at_ same idle = after (m.unlink w'.state).0 refl
    where
      after :
          (r : Result (Unit {0}))
          → (m.unlink w'.state).0 ≡ r
          → UnsealsHere (unlinked c decode r (record w' { state = (m.unlink w'.state).1 }))
      after (ok _) h = inr (refl, inr (f, at_, sealed))
      after (err e) h = inl ((e, refl), same, idle, unremovable w'.state e h)

  remove_file-Unseals :
      (o : Option File) (w' : World m)
      → w.dropin ≡ o
      → w'.dropin ≡ w.dropin
      → w'.commands ≡ w.commands
      → UnsealsHere (remove_file c decode o w')
  unfolding remove_file ◌>>=◌
  remove_file-Unseals none w' at_ same idle = inr (same ∙ at_, inl at_)
  remove_file-Unseals (some f) w' at_ same idle = elim (Result-cases (check_owner c decode f)) [
    | inl (e, refused) ↦ rw (refused) (inl ((e, refl), same, idle, unowned f e at_ refused))
    | inr (_, identity) ↦ elim (Result-cases (m.open_dropin w'.state).0) [
      | inl (e, closed) ↦
          rw (identity, closed) (inl ((e, refl), same, idle, unreadable w'.state e closed))
      | inr (_, opened) ↦ elim (Result-cases (check_content c decode f)) [
        | inl (e, refused) ↦
            rw (identity, opened, refused) (inl ((e, refl), same, idle, altered f e at_ refused))
        | inr (_, content) ↦
            rw (identity, opened, content)
              (unlink-Unseals f (sealed_of_checks c decode f identity content) _ at_ same idle)
      ]
    ]
  ]

  remove_found-Unseals :
      (w' : World m)
      → w'.dropin ≡ w.dropin
      → w'.commands ≡ w.commands
      → UnsealsHere (remove_found c decode w')
  unfolding remove_found
  remove_found-Unseals w' same idle = remove_file-Unseals w'.dropin w' (sym same) same idle

  remove_dropin-Unseals :
      (w' : World m)
      → w'.dropin ≡ w.dropin
      → w'.commands ≡ w.commands
      → UnsealsHere (remove_dropin c decode w')
  unfolding remove_dropin ◌>>=◌
  remove_dropin-Unseals w' same idle = elim (Result-cases (m.open_parent w'.state).0) [
    | inl (e, closed) ↦ rw (closed) (inl ((e, refl), same, idle, parent_closed w'.state e closed))
    | inr (_, opened) ↦ rw (opened) (
        Unseals-bind (remove_found c decode) (λ _. call m.sync)
          (record w' { state = (m.open_parent w'.state).1 })
          (remove_found-Unseals (record w' { state = (m.open_parent w'.state).1 }) same idle)
          (λ _. Spares-call m.sync))
  ]

module _ (c : Codec) (decode : List ℕ → String) {m : Machine} where
  capture_idle : (w : World m) → (capture c decode w).1.commands ≡ w.commands
  unfolding capture
  capture_idle w = refl

  -- However a rollback ends: either it raised with the drop-in as it was and without a command, since
  -- the state could not be captured, the request seals none, the target drifted, the file is not root's
  -- regular file with the sealed digest, or a call that opens or unlinks it raised; or nothing stands at
  -- the path, where before nothing stood or a regular file of root with the sealed digest.
  pub rollback-Unseals :
      (req : Value) (w : World m) → Unseals c decode req w (rollback c decode req w)
  unfolding rollback
  rollback-Unseals req w =
      let w1 = (capture c decode w).1 in
      let same = (capture-Spares c decode).at w in
      let idle = capture_idle w in
      Unseals-step c decode req w (capture c decode) _ w
        (λ e failed. inl ((e, refl), same, idle, uncaptured e failed))
        (λ current captured.
          Unseals-lift c decode req w (item "expected_pre_state" req) _ w1
            (λ e failed. inl ((e, refl), same, idle, unsealed e failed))
            (λ expected found.
              Unseals-lift c decode req w (check_target current expected) _ w1
                (λ e drift.
                  inl ((e, refl), same, idle, drifted current expected e captured found drift))
                (λ _ _.
                  Unseals-bind c decode req w (remove_dropin c decode) _ w1
                    (remove_dropin-Unseals c decode req w w1 same idle)
                    (λ _. Spares-bind _ _ (rerun-Spares c decode _ _) (λ reloaded.
                      Spares-bind _ _ (rerun-Spares c decode _ _) (λ restarted.
                        Spares-bind _ _ (capture-Spares c decode) (λ restored.
                          Spares-bind _ _ (Spares-lift _)
                            (λ _. Spares-bind _ _ (Spares-lift _) (λ _. Spares-pure _)))))))))
