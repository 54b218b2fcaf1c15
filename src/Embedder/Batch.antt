-- ===== src/Embedder/Batch.antt =====
-- embedder/batch.go: the chunks of many files, cut into batches under two limits.
pub mod Building
pub mod Limits
use grepai.Base.{
  ℕ, zero, suc, ◌+◌, ◌-◌, ◌/◌, ◌<◌, ◌≤◌, Bool, true, false, ◌&&◌, ◌||◌, List, [], ◌∷◌, ◌++◌,
  if◌then◌else◌, ltb, leb, ◌==◌, length, arith,
}
use grepai.Base.Int.{ℤ, pos, negsuc}
use grepai.Base.Text.{Text}

abbrev pub max_batch_size : ℕ
max_batch_size = 2000

abbrev pub max_batch_tokens : ℕ
max_batch_tokens = 280000

unfoldable pub estimate_tokens : Text → ℕ
estimate_tokens text = (length text + 3) / 4

pub record BatchEntry : Type 0 where
  pub file_index : ℕ
  pub chunk_index : ℕ
  pub content : Text

pub record Batch : Type 0 where
  pub entries : List BatchEntry
  pub index : ℕ

pub record FileChunks : Type 0 where
  pub file_index : ℕ
  pub chunks : List Text

-- batchBuilder.
pub record Builder : Type 0 where
  pub batches : List Batch
  pub current : Batch
  pub current_tokens : ℕ
  pub max_size : ℕ

unfoldable pub new_builder : ℕ → Builder
new_builder max_size = record {
  batches = [];
  current = record { entries = []; index = 0 };
  current_tokens = 0;
  max_size = max_size;
}

unfoldable pub is_full : Builder → ℕ → Bool
is_full b additional =
    leb b.max_size (length b.current.entries)
    || (ltb 0 (length b.current.entries) && ltb max_batch_tokens (b.current_tokens + additional))

unfoldable pub finalize_current : Builder → Builder
finalize_current b =
    let done = b.batches ++ (b.current ∷ []) in
    record b {
      batches = done;
      current = record { entries = []; index = length done };
      current_tokens = 0;
    }

unfoldable pub add : Builder → BatchEntry → ℕ → Builder
add b e tokens = record b {
  current = record { entries = b.current.entries ++ (e ∷ []); index = b.current.index };
  current_tokens = b.current_tokens + tokens;
}

unfoldable pub build : Builder → List Batch
build b = if ltb 0 (length b.current.entries) then b.batches ++ (b.current ∷ []) else b.batches

-- The body of the two loops, at one chunk.
unfoldable pub put : Builder → BatchEntry → Builder
unfolding is_full finalize_current add estimate_tokens
put b e =
    let tokens = estimate_tokens e.content in
    add (if is_full b tokens then finalize_current b else b) e tokens

unfoldable pub put_all : Builder → List BatchEntry → Builder
unfolding put
put_all b [] = b
put_all b (e ∷ es) = put_all (put b e) es

-- The chunks of one file with their places, and of all files, in the order of the loops.
unfoldable pub entries_from : ℕ → ℕ → List Text → List BatchEntry
entries_from file k [] = []
entries_from file k (c ∷ cs) =
    record { file_index = file; chunk_index = k; content = c } ∷ entries_from file (k + 1) cs

unfoldable pub all_entries : List FileChunks → List BatchEntry
unfolding entries_from
all_entries [] = []
all_entries (f ∷ fs) = entries_from f.file_index 0 f.chunks ++ all_entries fs

unfoldable pub count_total_chunks : List FileChunks → ℕ
count_total_chunks [] = 0
count_total_chunks (f ∷ fs) = length f.chunks + count_total_chunks fs

-- The size cap in force: one that is not positive, or above the ceiling, is replaced.
unfoldable pub size_cap : ℤ → ℕ
size_cap (negsuc n) = max_batch_size
size_cap (pos n) = if (n == 0) || ltb max_batch_size n then max_batch_size else n

unfoldable pub form_batches_with_size : List FileChunks → ℤ → List Batch
unfolding new_builder put_all build all_entries count_total_chunks size_cap
form_batches_with_size files max_size =
    if count_total_chunks files == 0
    then []
    else build (put_all (new_builder (size_cap max_size)) (all_entries files))

unfoldable pub form_batches : List FileChunks → List Batch
unfolding form_batches_with_size
form_batches files = form_batches_with_size files (pos max_batch_size)
