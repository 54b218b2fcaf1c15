-- ===== src/Catalog/Generations/Active.antt =====
-- Which generation is active, under the statements of internal/enginev2/catalog/sqlite/registry.go.
use grepai.Base.{ℕ, List, [], ◌∷◌, ◌≡◌, refl, ◌≢◌, arith}
use grepai.Base.Text.{Text, same_iff}
use grepai.Catalog.Tables.{GenerationRow, update_where, count_where, find_where}
use grepai.Catalog.Generations.{generation_at, active_in, activated, retire_row, generation_of}

-- The number of active rows of a repository, and of rows of a generation.
abbrev pub actives : Text → List GenerationRow → ℕ
actives repo = count_where (active_in repo)

abbrev pub rows_of : Text → ℕ → List GenerationRow → ℕ
rows_of repo gen = count_where (generation_at repo gen)

abbrev pub retired_rows : Text → List GenerationRow → List GenerationRow
retired_rows repo = update_where (active_in repo) retire_row

abbrev pub activated_rows : Text → ℕ → List GenerationRow → List GenerationRow
activated_rows repo gen = update_where (generation_at repo gen) activated

pub actives-retired :
    (repo : Text) (gs : List GenerationRow) → actives repo (retired_rows repo gs) ≡ 0
unfolding count_where update_where active_in
actives-retired repo [] = refl
actives-retired repo (g ∷ gs) = ground (arith, actives-retired repo gs)

pub actives-retired_other :
    (r repo : Text) (gs : List GenerationRow)
    → r ≢ repo
    → actives r (retired_rows repo gs) ≡ actives r gs
unfolding count_where update_where active_in
actives-retired_other r repo [] d = refl
actives-retired_other r repo (g ∷ gs) d = ground (
  arith,
  actives-retired_other r repo gs d,
  same_iff g.repository_id r,
  same_iff g.repository_id repo,
)

pub rows_of-retired :
    (r : Text) (gen : ℕ) (repo : Text) (gs : List GenerationRow)
    → rows_of r gen (retired_rows repo gs) ≡ rows_of r gen gs
unfolding count_where update_where generation_at
rows_of-retired r gen repo [] = refl
rows_of-retired r gen repo (g ∷ gs) = ground (arith, rows_of-retired r gen repo gs)

pub rows_of-activated :
    (r : Text) (n : ℕ) (repo : Text) (gen : ℕ) (gs : List GenerationRow)
    → rows_of r n (activated_rows repo gen gs) ≡ rows_of r n gs
unfolding count_where update_where generation_at
rows_of-activated r n repo gen [] = refl
rows_of-activated r n repo gen (g ∷ gs) = ground (arith, rows_of-activated r n repo gen gs)

-- With none active before, the rows that are activated are the active ones.
pub actives-activated :
    (repo : Text) (gen : ℕ) (gs : List GenerationRow)
    → actives repo gs ≡ 0
    → actives repo (activated_rows repo gen gs) ≡ rows_of repo gen gs
unfolding count_where update_where generation_at active_in
actives-activated repo gen [] h = refl
actives-activated repo gen (g ∷ gs) h = ground (arith, actives-activated repo gen gs)

pub actives-activated_other :
    (r repo : Text) (gen : ℕ) (gs : List GenerationRow)
    → r ≢ repo
    → actives r (activated_rows repo gen gs) ≡ actives r gs
unfolding count_where update_where generation_at active_in
actives-activated_other r repo gen [] d = refl
actives-activated_other r repo gen (g ∷ gs) d = ground (
  arith,
  actives-activated_other r repo gen gs d,
  same_iff g.repository_id r,
  same_iff g.repository_id repo,
)

pub find-activated :
    (repo : Text) (gen : ℕ) (gs : List GenerationRow)
    → actives repo gs ≡ 0
    → rows_of repo gen gs ≢ 0
    → generation_of (find_where (active_in repo) (activated_rows repo gen gs)) ≡ gen
unfolding count_where find_where update_where generation_at active_in
find-activated repo gen [] h k = absurd (k refl)
find-activated repo gen (g ∷ gs) h k = ground (arith, find-activated repo gen gs)
