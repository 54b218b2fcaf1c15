-- ===== src/Engine/Reconcile/Converges.antt =====
-- A reconciliation's jobs bring the view to the truth (internal/enginev2/reconcile/reconciler.go).
use grepai.Base.{
  ℕ, Bool, true, false, List, [], ◌∷◌, ◌++◌, Option, none, some, ◌≡◌, refl, ap, ap₂, sym, subst,
  ◌∙◌, ◌↔◌, inl, inr, if◌then◌else◌, select, Bool-cases, Option-cases, arith,
}
use grepai.Base.Text.{Text, same, same→eq, same_self}
use grepai.Core.Job.{Job, op_upsert, op_delete}
use grepai.Catalog.Tables.{delete_where}
use grepai.Engine.Reconcile.Sorted.{select_append, OneAtMost, select-sort_by}
use grepai.Engine.Reconcile.{
  Hashes, lookup, is_unchanged, upsert_for, delete_for, upserts, deletes, unless_some, job_before,
  plan,
}

-- What the view holds once a job is done: the desired hash at its path, or nothing.
unfoldable pub perform : Job → Hashes → Hashes
unfolding delete_where
perform j m = elim j.operation [
  | op_upsert ↦ (j.path, j.desired_hash) ∷ m
  | op_delete ↦ delete_where (λ r. same r.0 j.path) m
]

unfoldable pub perform_all : List Job → Hashes → Hashes
unfolding perform
perform_all [] m = m
perform_all (j ∷ js) m = perform_all js (perform j m)

-- No path stands twice: the pairs of a map.
abbrev pub IsMap : Hashes → Type 0
IsMap [] = Unit
IsMap ((p, h) ∷ rest) = (lookup p rest ≡ none) × IsMap rest

abbrev outcome : Job → Option Text
outcome j = elim j.operation [ op_upsert ↦ some j.desired_hash | op_delete ↦ none ]

abbrev at : Text → Job → Bool
at path j = same j.path path

lookup-delete :
    (p path : Text) (m : Hashes)
    → lookup path (delete_where (λ r. same r.0 p) m) ≡ (if same p path then none else lookup path m)
unfolding lookup delete_where
lookup-delete p path [] = ground arith
lookup-delete p path ((q, h) ∷ m) =
    let rest = lookup-delete p path m in
    elim (Bool-cases (same p path)) [
      | inl here ↦
          let alike = ap (same q) (same→eq p path here) in ground (arith, here, alike, rest)
      | inr other ↦ elim (Bool-cases (same q p)) [
        | inl gone ↦
            let alike = ap (λ t. same t path) (same→eq q p gone) in
            ground (arith, other, gone, alike, rest)
        | inr kept ↦ ground (arith, other, kept, rest)
      ]
    ]

lookup-perform :
    (j : Job) (path : Text) (m : Hashes)
    → lookup path (perform j m) ≡ (if at path j then outcome j else lookup path m)
unfolding lookup perform
lookup-perform j path m =
    elim j.operation
      as (λ op.
        lookup path (elim op [
          | op_upsert ↦ (j.path, j.desired_hash) ∷ m
          | op_delete ↦ delete_where (λ r. same r.0 j.path) m
        ])
        ≡ (if at path j
            then elim op [ op_upsert ↦ some j.desired_hash | op_delete ↦ none ]
            else lookup path m)) [ op_upsert ↦ refl | op_delete ↦ lookup-delete j.path path m ]

abbrev final : Text → List Job → Option Text → Option Text
final path [] o = o
final path (j ∷ js) o = final path js (if at path j then outcome j else o)

lookup-perform_all :
    (js : List Job) (path : Text) (m : Hashes)
    → lookup path (perform_all js m) ≡ final path js (lookup path m)
unfolding perform_all
lookup-perform_all [] path m = refl
lookup-perform_all (j ∷ js) path m =
    lookup-perform_all js path (perform j m) ∙ ap (final path js) (lookup-perform j path m)

final-select :
    (path : Text) (js : List Job) (o : Option Text)
    → final path js o ≡ final path (select (at path) js) o
final-select path [] o = refl
final-select path (j ∷ js) o =
    ground (arith, final-select path js (outcome j), final-select path js o)

module _ (wt : Text) (gen : ℕ) (path : Text) where
  abbrev changed : Option Text → Option Text → List Job
  changed none i = []
  changed (some dh) i = if is_unchanged dh i then [] else upsert_for wt gen path dh ∷ []

  abbrev dropped : Option Text → Option Text → List Job
  dropped none d = []
  dropped (some ih) d = unless_some d (delete_for wt gen path) []

  upsert_here :
      (indexed : Hashes) (dh : Text) (jobs : List Job)
      → select (at path) jobs ≡ []
      → select
          (at path)
          (if is_unchanged dh (lookup path indexed) then jobs else upsert_for wt gen path dh ∷ jobs)
        ≡ changed (some dh) (lookup path indexed)
  upsert_here indexed dh jobs e = ground (arith, e, same_self path)

  delete_here :
      (desired : Hashes) (ih : Text) (jobs : List Job)
      → select (at path) jobs ≡ []
      → select (at path) (unless_some (lookup path desired) (delete_for wt gen path) jobs)
        ≡ dropped (some ih) (lookup path desired)
  delete_here desired ih jobs e = elim (Option-cases (lookup path desired)) [
    | inl nothing ↦ ground (arith, e, nothing, same_self path)
    | inr (dh, found) ↦ ground (arith, e, found)
  ]

  delete_there :
      (o : Option Text) (q : Text) (jobs : List Job)
      → same q path ≡ false
      → select (at path) (unless_some o (delete_for wt gen q) jobs) ≡ select (at path) jobs
  delete_there none q jobs other = ground (arith, other)
  delete_there (some dh) q jobs other = refl

  select-upserts :
      (indexed desired : Hashes)
      → IsMap desired
      → select (at path) (upserts wt gen indexed desired)
        ≡ changed (lookup path desired) (lookup path indexed)
  unfolding upserts lookup
  select-upserts indexed [] h = refl
  select-upserts indexed ((q, dh) ∷ desired) h =
      let rest = select-upserts indexed desired (h.1) in
      elim (Bool-cases (same q path)) [
        | inl here ↦
            let alike = same→eq q path here in
            let nothing : lookup path desired ≡ none =
              ap (λ t. lookup t desired) (sym alike) ∙ h.0 in
            subst
              (λ t.
                select (at path) (
                  if is_unchanged dh (lookup t indexed)
                  then upserts wt gen indexed desired
                  else upsert_for wt gen t dh ∷ upserts wt gen indexed desired)
                ≡ changed (if same t path then some dh else lookup path desired)
                    (lookup path indexed))
              (sym alike)
              (upsert_here indexed dh (upserts wt gen indexed desired)
                  (rest ∙ ap (λ o. changed o (lookup path indexed)) nothing)
                ∙ ap
                    (λ b.
                      changed (if b then some dh else lookup path desired) (lookup path indexed))
                    (sym (same_self path)))
        | inr other ↦ ground (arith, other, rest)
      ]

  select-deletes :
      (desired indexed : Hashes)
      → IsMap indexed
      → select (at path) (deletes wt gen desired indexed)
        ≡ dropped (lookup path indexed) (lookup path desired)
  unfolding deletes lookup
  select-deletes desired [] h = refl
  select-deletes desired ((q, ih) ∷ indexed) h =
      let rest = select-deletes desired indexed (h.1) in
      elim (Bool-cases (same q path)) [
        | inl here ↦
            let alike = same→eq q path here in
            let nothing : lookup path indexed ≡ none =
              ap (λ t. lookup t indexed) (sym alike) ∙ h.0 in
            subst
              (λ t.
                select (at path) (
                  unless_some (lookup t desired) (delete_for wt gen t)
                    (deletes wt gen desired indexed))
                ≡ dropped (if same t path then some ih else lookup path indexed)
                    (lookup path desired))
              (sym alike)
              (delete_here desired ih (deletes wt gen desired indexed)
                  (rest ∙ ap (λ o. dropped o (lookup path desired)) nothing)
                ∙ ap
                    (λ b.
                      dropped (if b then some ih else lookup path indexed) (lookup path desired))
                    (sym (same_self path)))
        | inr other ↦
            delete_there (lookup q desired) q (deletes wt gen desired indexed) other
            ∙ rest
            ∙ ap (λ b. dropped (if b then some ih else lookup path indexed) (lookup path desired))
                (sym other)
      ]

  one_job : (d i : Option Text) → OneAtMost (changed d i ++ dropped i d)
  one_job none none = tt
  one_job none (some ih) = tt
  one_job (some dh) none = tt
  one_job (some dh) (some ih) =
      elim (same ih dh)
        as (λ b. OneAtMost ((if b then [] else upsert_for wt gen path dh ∷ []) ++ [])) [
          | true ↦ tt
          | false ↦ tt
        ]

  final-job : (d i : Option Text) → final path (changed d i ++ dropped i d) i ≡ d
  final-job none none = refl
  final-job none (some ih) = ground (arith, same_self path)
  final-job (some dh) none = ground (arith, same_self path)
  final-job (some dh) (some ih) = ground (arith, same_self path, same→eq ih dh)

  select-plan :
      (indexed desired : Hashes)
      → IsMap indexed
      → IsMap desired
      → select (at path) (plan wt gen indexed desired)
        ≡ changed (lookup path desired) (lookup path indexed)
          ++ dropped (lookup path indexed) (lookup path desired)
  unfolding plan
  select-plan indexed desired m d =
      let ups = upserts wt gen indexed desired in
      let dels = deletes wt gen desired indexed in
      let parts : select (at path) (ups ++ dels)
          ≡ changed (lookup path desired) (lookup path indexed)
            ++ dropped (lookup path indexed) (lookup path desired) =
        select_append (at path) ups dels
        ∙ ap₂ (λ a b. a ++ b) (select-upserts indexed desired d)
            (select-deletes desired indexed m) in
      select-sort_by job_before (at path) (ups ++ dels)
        (subst OneAtMost (sym parts) (one_job (lookup path desired) (lookup path indexed)))
      ∙ parts

-- Where a view's pairs and the truth's have each path once, doing the planned jobs in their order
-- brings every path to its hash in the truth, and takes away the paths that the truth does not
-- have.
pub perform_all-plan :
    (wt : Text) (gen : ℕ) (indexed desired : Hashes) (path : Text)
    → IsMap indexed
    → IsMap desired
    → lookup path (perform_all (plan wt gen indexed desired) indexed) ≡ lookup path desired
perform_all-plan wt gen indexed desired path m d =
    lookup-perform_all (plan wt gen indexed desired) path indexed
    ∙ final-select path (plan wt gen indexed desired) (lookup path indexed)
    ∙ ap (λ js. final path js (lookup path indexed)) (select-plan wt gen path indexed desired m d)
    ∙ final-job wt gen path (lookup path desired) (lookup path indexed)

nothing_left : (js : List Job) → ((path : Text) → select (at path) js ≡ []) → js ≡ []
nothing_left [] none_at = refl
nothing_left (j ∷ js) none_at = let e = none_at (j.path) in ground (arith, e, same_self j.path)

-- Every path has the same hash in both.
abbrev pub IsFresh : Hashes → Hashes → Type 0
IsFresh indexed desired = (path : Text) → lookup path indexed ≡ lookup path desired

nothing_to_do :
    (wt : Text) (gen : ℕ) (path : Text) (o : Option Text)
    → changed wt gen path o o ++ dropped wt gen path o o ≡ []
nothing_to_do wt gen path none = refl
nothing_to_do wt gen path (some h) = ground (arith, same_self h)

-- Where the pairs of the view and of the truth have each path once, the plan has no job exactly if
-- both have the same hash, or none, at every path.
pub plan-IsFresh :
    (wt : Text) (gen : ℕ) (indexed desired : Hashes)
    → IsMap indexed
    → IsMap desired
    → (plan wt gen indexed desired ≡ []) ↔ IsFresh indexed desired
unfolding perform_all
plan-IsFresh wt gen indexed desired m d = (
  λ e path.
      sym (ap (λ js. lookup path (perform_all js indexed)) e)
      ∙ perform_all-plan wt gen indexed desired path m d,
  λ fresh. nothing_left (plan wt gen indexed desired) (λ path.
      select-plan wt gen path indexed desired m d
      ∙ ap
          (λ o.
            changed wt gen path (lookup path desired) o
            ++ dropped wt gen path o (lookup path desired))
          (fresh path)
      ∙ nothing_to_do wt gen path (lookup path desired)),
)
