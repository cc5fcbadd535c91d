-- ===== src/Broker/Backend/Does.antt =====
-- What the parts of a rollback do to the drop-in and the commands.

use hermes_keel.Base.{
  ℕ, String, ◌≡◌, refl, sym, ap, ◌∙◌, Bool, true, false, Option, none, some, List, ◌∷◌,
  if◌then◌else◌,
}
use hermes_keel.Base.Result.{Result, ok, err}
use hermes_keel.Base.Int.{eq_ℤ, pos}
use hermes_keel.Json.Codec.{Codec}
use hermes_keel.Broker.Ledger.File.{File}
use hermes_keel.Broker.Backend.Machine.{Machine, World, Act, pure, lift, call, continue, ◌>>=◌}
use hermes_keel.Broker.Backend.Checks.{check_owner, check_content}
use hermes_keel.Broker.Backend.Operations.{
  unlink_dropin, unlinked, remove_file, remove_found, remove_dropin, capture, run, rerun,
}

-- A call that returned, in two parts.
pub bind-eq-ok :
    {m : Machine} {A B : Type 0} (f : Act m A) (k : A → Act m B) (w w' : World m) (b : B)
    → (f >>= k) w ≡ (ok b, w')
    → (a : A) × (w1 : World m) × (f w ≡ (ok a, w1)) × (k a w1 ≡ (ok b, w'))
unfolding ◌>>=◌
bind-eq-ok {m} {A} {B} f k w w' b h = of_first (f w) refl h
  where
    of_first :
        (x : Result A × World m)
        → f w ≡ x
        → continue x.0 k x.1 ≡ (ok b, w')
        → (a : A) × (w1 : World m) × (f w ≡ (ok a, w1)) × (k a w1 ≡ (ok b, w'))
    of_first (ok a, w1) first rest = (a, w1, first, rest)
    of_first (err e, w1) first rest = cc

-- What a call that returned has done to the drop-in and the commands.
pub record Does {m : Machine} {A : Type 0} (P : World m → World m → Type 0) (f : Act m A)
    : Type 0 where
  pub at : (w w' : World m) (a : A) → f w ≡ (ok a, w') → P w w'

module _ {m : Machine} where
  abbrev Nothing : World m → World m → Type 0
  Nothing w w' = (w'.dropin ≡ w.dropin) × (w'.commands ≡ w.commands)

  abbrev Removes : World m → World m → Type 0
  Removes w w' = (w'.dropin ≡ none) × (w'.commands ≡ w.commands)

  abbrev Runs : List String → World m → World m → Type 0
  Runs argv w w' = (w'.dropin ≡ w.dropin) × (w'.commands ≡ argv ∷ w.commands)

  ends_of :
      {A : Type 0} {x : Result A × World m} {r : Result A} {w' : World m}
      → x ≡ (r, w')
      → (w'.dropin ≡ x.1.dropin) × (w'.commands ≡ x.1.commands)
  ends_of h =
      let ends = ap (λ x. x.1) h in
      (sym (ap (λ (v : World m). v.dropin) ends), sym (ap (λ (v : World m). v.commands) ends))

  Does-call : {A : Type 0} (f : m.State → Result A × m.State) → Does Nothing (call {m = m} f)
  unfolding call
  Does-call f = record { at = λ w w' a h. ends_of h }

  pub Does-lift : {A : Type 0} (r : Result A) → Does Nothing (lift {m = m} r)
  unfolding lift
  Does-lift r = record { at = λ w w' a h. ends_of h }

  pub Does-pure : {A : Type 0} (a : A) → Does Nothing (pure {m = m} a)
  unfolding pure
  Does-pure a = record { at = λ w w' b h. ends_of h }

  Does-if :
      {A : Type 0} {P : World m → World m → Type 0} (b : Bool) (f g : Act m A)
      → Does P f
      → Does P g
      → Does P (if b then f else g)
  Does-if true f g df dg = df
  Does-if false f g df dg = dg

  pub returned :
      {A : Type 0} (r : Result A) (w : World m) {w' : World m} {a : A}
      → lift r w ≡ (ok a, w')
      → r ≡ ok a
  unfolding lift
  returned r w h = ap (λ x. x.0) h

module _ (c : Codec) (decode : List ℕ → String) {m : Machine} where
  pub Does-capture : Does Nothing (capture c decode {m = m})
  unfolding capture
  Does-capture = record { at = λ w w' a h. ends_of h }

  Does-run : (argv : List String) → Does (Runs argv) (run c decode {m = m} argv)
  unfolding run
  Does-run argv = record { at = λ w w' a h. ends_of h }

  pub Does-rerun :
      (argv : List String) (label : String) → Does (Runs argv) (rerun c decode {m = m} argv label)
  unfolding rerun
  Does-rerun argv label = record {
    at = λ w w' v h.
        let (cp, w1, ran, rest) = bind-eq-ok (run c decode argv) _ w w' v h in
        let (d1, c1) = (Does-run argv).at w w1 cp ran in
        let (d2, c2) =
          (Does-if {P = Nothing} (eq_ℤ cp.status (pos 0)) _ _ (Does-pure _) (Does-lift _)).at w1 w'
            v rest in
        (d2 ∙ d1, c2 ∙ c1);
  }

  Does-remove_found : Does Removes (remove_found c decode {m = m})
  unfolding remove_found remove_file unlink_dropin
  Does-remove_found = record { at = λ w w' _ h. of_file w.dropin w w' refl h }
    where
      of_unlink :
          (r : Result (Unit {0})) (w w' : World m)
          → unlinked c decode r w ≡ (ok tt, w')
          → Removes w w'
      of_unlink (ok _) w w' h = ends_of h
      of_unlink (err e) w w' h = cc

      of_file :
          (o : Option File) (w w' : World m)
          → w.dropin ≡ o
          → remove_file c decode o w ≡ (ok tt, w')
          → Removes w w'
      of_file none w w' at_ h = let (d, c1) = (Does-pure tt).at w w' tt h in (d ∙ at_, c1)
      of_file (some f) w w' at_ h =
          let (_, w1, identity, h1) = bind-eq-ok (lift (check_owner c decode f)) _ w w' tt h in
          let (_, w2, opened, h2) = bind-eq-ok (call m.open_dropin) _ w1 w' tt h1 in
          let (_, w3, content, h3) = bind-eq-ok (lift (check_content c decode f)) _ w2 w' tt h2 in
          let (_, c1) = (Does-lift _).at w w1 _ identity in
          let (_, c2) = (Does-call m.open_dropin).at w1 w2 _ opened in
          let (_, c3) = (Does-lift _).at w2 w3 _ content in
          let (d4, c4) = of_unlink (m.unlink w3.state).0 _ w' h3 in (d4, c4 ∙ c3 ∙ c2 ∙ c1)

  pub Does-remove_dropin : Does Removes (remove_dropin c decode {m = m})
  unfolding remove_dropin
  Does-remove_dropin = record {
    at = λ w w' _ h.
        let (_, w1, opened, h1) = bind-eq-ok (call m.open_parent) _ w w' tt h in
        let (_, w2, removed, h2) = bind-eq-ok (remove_found c decode) _ w1 w' tt h1 in
        let (_, c1) = (Does-call m.open_parent).at w w1 _ opened in
        let (d2, c2) = Does-remove_found.at w1 w2 tt removed in
        let (d3, c3) = (Does-call m.sync).at w2 w' tt h2 in (d3 ∙ d2, c3 ∙ c2 ∙ c1);
  }
