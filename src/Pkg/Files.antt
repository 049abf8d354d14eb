-- ===== src/Pkg/Files.antt =====
-- Paths of module files, described without the code: a directory, a name, ".ko" and a packing.
pub mod Parts
use micro_container.Prelude.{All, ℕ, ◌≡◌, ◌≢◌, List, [], ◌∷◌, ◌++◌}
use micro_container.Pkg.Deps.{dot_ko}

-- No character of the text is `c`.
abbrev pub Lacks : ℕ → List ℕ → Type 0
Lacks c s = All (λ x. x ≢ c) s

-- A directory is empty, or ends in a slash.
pub data IsDir : List ℕ → Type 0 where
  no_dir : IsDir []
  slash_behind : (d : List ℕ) → IsDir (d ++ b'/' ∷ [])

-- Names are the same up to '-' and '_'.
pub data SameName : List ℕ → List ℕ → Type 0 where
  no_letter : SameName [] []
  same_letter : (c : ℕ) (a b : List ℕ) → SameName a b → SameName (c ∷ a) (c ∷ b)
  dash_first : (a b : List ℕ) → SameName a b → SameName (b'-' ∷ a) (b'_' ∷ b)
  dash_second : (a b : List ℕ) → SameName a b → SameName (b'_' ∷ a) (b'-' ∷ b)

-- What may stand behind ".ko".
pub data IsPacking : List ℕ → Type 0 where
  unpacked : IsPacking []
  gzip : IsPacking (b'.' ∷ b'g' ∷ b'z' ∷ [])
  xz : IsPacking (b'.' ∷ b'x' ∷ b'z' ∷ [])
  zstd : IsPacking (b'.' ∷ b'z' ∷ b's' ∷ b't' ∷ [])

-- The path of a file of the module `base`, packed or not.
pub record IsFile (path base : List ℕ) : Type 0 where
  pub dir : List ℕ
  pub tail : List ℕ
  pub is_dir : IsDir dir
  pub bare : Lacks b'/' base
  pub packing : IsPacking tail
  pub parts : path ≡ dir ++ (base ++ (dot_ko ++ tail))
