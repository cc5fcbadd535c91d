-- ===== src/Base/Writing.antt =====
-- The loop that appends bytes to a file.
use hermes_keel.Base.{
  ℕ, zero, suc, Bool, true, false, List, [], ◌∷◌, ◌++◌, ◌≡◌, refl, ap, ◌∙◌, take, drop,
  take-drop-append,
}

-- How the calls that append to a file end: whether the file opens, what each `os.write` returns until
-- one raises, and whether `os.fsync` returns.
pub record Writing : Type 0 where
  pub opens : Bool
  pub counts : List ℕ
  pub syncs : Bool

-- The loop over `os.write`: the bytes written, and whether they are all. A write is never longer than its bytes.
unfoldable pub write_all : List ℕ → List ℕ → List ℕ × Bool
write_all counts [] = ([], true)
write_all [] (b ∷ bs) = ([], false)
write_all (zero ∷ ns) (b ∷ bs) = ([], false)
write_all (suc n ∷ ns) (b ∷ bs) =
    let (written, complete) = write_all ns (drop n bs) in (b ∷ take n bs ++ written, complete)

-- If all bytes are written, they are those of the argument.
pub write_all_lem :
    (counts bytes : List ℕ) → (write_all counts bytes).1 ≡ true → (write_all counts bytes).0 ≡ bytes
unfolding write_all
write_all_lem [] [] h = refl
write_all_lem (n ∷ ns) [] h = refl
write_all_lem [] (b ∷ bs) h = cc
write_all_lem (zero ∷ ns) (b ∷ bs) h = cc
write_all_lem (suc n ∷ ns) (b ∷ bs) h =
    ap (λ r. b ∷ r)
      (ap (λ r. take n bs ++ r) (write_all_lem ns (drop n bs) h) ∙ take-drop-append n bs)
