-- ===== src/FileHandle/Refine.antt =====
-- Any sequence of calls on a FileHandle against the file as bytes and an offset.
mod Tests
use base_utilities_esp.Base.{
  ℕ, ◌+◌, ◌<◌, ◌≡◌, refl, some, List, [], ◌∷◌, ◌++◌, length, ℤ, arith, length-append,
}
use base_utilities_esp.Posix.{Posix, FileLaws, WriteLaws}
use base_utilities_esp.FileHandle.{File}
use base_utilities_esp.FileHandle.Calls.{Call, Reply, to_write}
use base_utilities_esp.FileHandle.Runs.{call, run}
use base_utilities_esp.FileHandle.Content.{Content, whole, Explains, length-whole-le}
use base_utilities_esp.FileHandle.Replies.{Shows, call-Keeps}

module _ (P : Posix) (At : P.World → ℤ → List ℕ → List ℕ → Type 0) (L : FileLaws P At)
    (W : WriteLaws P At) where
  run-cons :
      (fuel : ℕ) (k : Call) (ks : List Call) (f f₁ f₂ : File P) (r : Reply) (rs : List Reply)
      → call P fuel k f ≡ some (r, f₁)
      → run P fuel ks f₁ ≡ some (rs, f₂)
      → run P fuel (k ∷ ks) f ≡ some (r ∷ rs, f₂)
  unfolding run
  run-cons fuel k ks f f₁ f₂ r rs done ran = rw (done, run) (rw (ran, run) refl)

  -- Any sequence of reads, getline, operator>>, read_all, write, operator<<, tell, size, available,
  -- has_available and seeks to the start on a FileHandle that is open on a regular file, without
  -- O_APPEND: with fuel for the bytes of the file and those to be written it returns, the replies are
  -- ones that the file as bytes and an offset allows, and the handle then shows the file that these
  -- lead to.
  pub run-refines :
      (fuel : ℕ) (ks : List Call) (f : File P) (c : Content)
      → Shows P At L W f c
      → length (whole c) + to_write ks < fuel
      → (rs : List Reply) × (f' : File P) × (c' : Content) × (run P fuel ks f ≡ some (rs, f'))
        × Explains ks c rs c'
        × Shows P At L W f' c'
  unfolding run
  run-refines fuel [] f c h enough = ([], f, c, refl, refl, h)
  run-refines fuel (k ∷ ks) f c h enough =
      let behind = length-append c.before c.after in
      let (r, f₁, c₁, done, allowed, h₁) =
        call-Keeps P At L W fuel k f c h (omega (arith, behind)) in
      let (rs, f₂, c₂, ran, explained, h₂) =
        run-refines fuel ks f₁ c₁ h₁ (omega (arith, length-whole-le k ks c r c₁ allowed)) in
      (r ∷ rs, f₂, c₂, run-cons fuel k ks f f₁ f₂ r rs done ran, (c₁, allowed, explained), h₂)
