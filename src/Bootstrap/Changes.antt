-- ===== src/Bootstrap/Changes.antt =====
-- What comes before a change of the site.

use hermes_keel.Base.{ℕ, ◌≡◌, refl, ap, ◌∙◌, ◌⊎◌, inl, inr, true, false, arith, Bool-cases}
use hermes_keel.Base.Result.{Result, Error, ok, err, ◌>>◌, >>=-eq-ok, >>-eq-ok}
use hermes_keel.Json.Codec.{Codec}
use hermes_keel.Bootstrap.Binding.{Binding, read_binding}
use hermes_keel.Bootstrap.Fence.{open_fence}
use hermes_keel.Bootstrap.Bound.{IsBinding, read_binding-IsBinding, IsFenced, open_fence-IsFenced}
use hermes_keel.Bootstrap.Run.{
  Scene, Site, World, starting, configuration, after_fence, take_back, conclude, ceremony,
  check_board_path, prepare, after_prepare, main,
}

module _ (c : Codec) (s : Scene) where
  -- The ceremony was started rightly and may go on.
  pub record IsAuthorised : Type 0 where
    pub no_arguments : s.has_arguments ≡ false
    pub privileged : (s.fixture ≡ true) ⊎ (s.is_root ≡ true)
    pub binding : Binding
    pub accepted : prepare c s ≡ ok binding
    pub is_binding : IsBinding c s.fixture s.now binding
    pub is_fenced : IsFenced s.fixture binding s.board

  check_board_path_lem : (b : Binding) {d : Binding} → check_board_path b ≡ ok d → b ≡ d
  unfolding check_board_path
  check_board_path_lem b h = ground arith

  configuration_lem :
      configuration s ≡ ok tt
      → (s.has_arguments ≡ false) × ((s.fixture ≡ true) ⊎ (s.is_root ≡ true))
  unfolding configuration
  configuration_lem h = elim (Bool-cases s.fixture) [
    | inl fixture ↦ (ground arith, inl fixture)
    | inr production ↦ (ground arith, inr (ground arith))
  ]

  pub prepare_lem :
      (b : Binding)
      → prepare c s ≡ ok b
      → (configuration s ≡ ok tt) × (read_binding c s.fixture s.now s.captain s.binding_file ≡ ok b)
  unfolding prepare
  prepare_lem b h =
      let read = read_binding c s.fixture s.now s.captain s.binding_file in
      let (d, before, checked) = >>=-eq-ok (configuration s >> read) check_board_path h in
      let (configured, accepted) = >>-eq-ok (configuration s) read before in
      (configured, accepted ∙ ap ok (check_board_path_lem d checked))

  take_back_start : (site : Site) → take_back s (starting site) ≡ site
  unfolding take_back
  take_back_start site = ground arith

  pub conclude_left :
      (e : Error) (w : World) {r : Result ℕ} {left : Site}
      → conclude s (err e, w) ≡ (r, left)
      → left ≡ take_back s w
  unfolding conclude
  conclude_left e w h = cc

  pub ceremony_start :
      (b : Binding) (site : Site) {p : Result ℕ × Site}
      → ceremony c s b site ≡ p
      → conclude s (after_fence c s b (open_fence s.fixture b s.board) (starting site)) ≡ p
  unfolding ceremony
  ceremony_start b site h = h

  -- If a run leaves the site other than it found it, then it had no arguments, ran as root or in the
  -- fixture, its binding was accepted, and its fence was open on the board of that binding.
  pub main-IsAuthorised :
      (site : Site) (r : Result ℕ) (left : Site)
      → main c s site ≡ (r, left)
      → (left ≡ site) ⊎ IsAuthorised
  unfolding main
  main-IsAuthorised site r left h = after (prepare c s) refl h
    where
      authorised :
          (b : Binding) → prepare c s ≡ ok b → open_fence s.fixture b s.board ≡ ok tt → IsAuthorised
      authorised b made is_open =
          let (configured, accepted) = prepare_lem b made in
          let (bare, privileged) = configuration_lem configured in
          record {
            no_arguments = bare;
            privileged = privileged;
            binding = b;
            accepted = made;
            is_binding =
                read_binding-IsBinding c s.fixture s.now s.captain s.binding_file b accepted;
            is_fenced = open_fence-IsFenced s.fixture b s.board is_open;
          }

      fenced :
          (b : Binding) (f : Result (Unit {0}))
          → prepare c s ≡ ok b
          → open_fence s.fixture b s.board ≡ f
          → conclude s (after_fence c s b f (starting site)) ≡ (r, left)
          → (left ≡ site) ⊎ IsAuthorised
      fenced b (err e) made is_open h =
          inl (rw (take_back_start site) at (conclude_left e (starting site) h))
      fenced b (ok tt) made is_open h = inr (authorised b made is_open)

      after :
          (p : Result Binding)
          → prepare c s ≡ p
          → after_prepare c s p site ≡ (r, left)
          → (left ≡ site) ⊎ IsAuthorised
      after (err e) made h = inl (cc)
      after (ok b) made h =
          fenced b (open_fence s.fixture b s.board) made refl (ceremony_start b site h)
