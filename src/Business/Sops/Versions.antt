-- ===== src/Business/Sops/Versions.antt =====
-- The versions of a procedure's text: they are numbered from one, in the order of their writing.
use at_nova_platform.Prelude.{ℕ, ◌+◌, String, ◌≡◌, List, [], ◌∷◌, length, get_or}
use at_nova_platform.Business.{SopDetail, Shop}
use at_nova_platform.Business.Sops.{details_of, first_version}

-- The details carry the numbers from `k` on.
abbrev pub Numbered : ℕ → List SopDetail → Type 0
Numbered k [] = Unit
Numbered k (d ∷ ds) = (d.version ≡ k) × Numbered (k + 1) ds

-- A procedure has the versions 1 to `n`.
abbrev pub HasVersions : Shop → String → ℕ → Type 0
HasVersions shop id n = Numbered 1 (details_of shop id) × (length (details_of shop id) ≡ n)

top : List SopDetail → ℕ
top ds = get_or (first_version ds) 0
