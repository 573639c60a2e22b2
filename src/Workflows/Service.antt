-- ===== src/Workflows/Service.antt =====
-- services/workflow_service.py: looking workflows up, and creating them.
use schedora.Base.{
  ℕ, String, false, Option, none, some, ◌≡◌, ◌≢◌, ◌==◌, ◌||◌, ◌⊎◌, ◌↔◌, inl, inr, is_some,
  if◌then◌else◌, nat_eq, string_eq, Option-cases, ap, ◌∙◌, sym, refl, arith, eq→≡, ≡→eq, eq_self,
  ne→eq_false,
}
use schedora.Errors.{ok, err, workflow_not_found, duplicate_workflow}
use schedora.Models.{JobTable, Workflow, WorkflowTable}
use schedora.Store.{Memberships}
use schedora.Store.Laws.{first-key}
use schedora.Workflows.{Db, create, get_by_workflow_id, get_by_name, create_workflow, get_workflow}

module _ (jobs : JobTable) (workflows : WorkflowTable) (members : Memberships) where
  open workflows use {
    get, first, insert, get_key, first_sound, first_complete, get-insert, insert_unique,
    insert_accepts,
  }

  -- Looking a workflow up by its id.
  pub get_workflow_found :
      (k : ℕ) (x : Workflow) (s : Db jobs workflows members)
      → get k s.workflow_rows ≡ some x
      → get_workflow jobs workflows members k s ≡ (ok x, s)
  unfolding get_workflow get_by_workflow_id
  get_workflow_found k x s found = ground (arith, first-key workflows k s.workflow_rows)

  pub get_workflow_missing :
      (k : ℕ) (s : Db jobs workflows members)
      → get k s.workflow_rows ≡ none
      → get_workflow jobs workflows members k s ≡ (err workflow_not_found, s)
  unfolding get_workflow get_by_workflow_id
  get_workflow_missing k s gone = ground (arith, first-key workflows k s.workflow_rows)

  get_by_name-none :
      (name : String) (s : Db jobs workflows members) (k : ℕ) (x : Workflow)
      → get_by_name jobs workflows members name s ≡ none
      → get k s.workflow_rows ≡ some x
      → x.name ≢ name
  unfolding get_by_name
  get_by_name-none name s k x missed found same =
      cc (
        first_complete (λ w. w.name == name) s.workflow_rows k x missed found,
        ≡→eq x.name name same,
      )

  -- A name that is taken is refused.
  pub create_workflow_taken :
      (workflow_id : ℕ) (others : Db jobs workflows members → Db jobs workflows members)
      (name : String) (description config : Option String) (s : Db jobs workflows members) (k : ℕ)
      (x : Workflow)
      → get k s.workflow_rows ≡ some x
      → x.name ≡ name
      → create_workflow jobs workflows members workflow_id others name description config s
        ≡ (err duplicate_workflow, s)
  unfolding create_workflow
  create_workflow_taken workflow_id others name description config s k x found same =
      elim (Option-cases (get_by_name jobs workflows members name s)) [
        | inl missed ↦ absurd (get_by_name-none name s k x missed found same)
        | inr (y, e) ↦ ground arith
      ]

  module _ (workflow_id : ℕ) (others : Db jobs workflows members → Db jobs workflows members)
      (name : String) (description config : Option String) (s : Db jobs workflows members) where
    abbrev new_row : Workflow
    new_row = record {
      workflow_id = workflow_id;
      name = name;
      description = description;
      config = config;
    }

    data Created : Type 0 where
      known :
          (x : Workflow)
          → get_by_name jobs workflows members name s ≡ some x
          → create_workflow jobs workflows members workflow_id others name description config s
            ≡ (err duplicate_workflow, s)
          → Created
      refused :
          get_by_name jobs workflows members name s ≡ none
          → insert new_row (others s).workflow_rows ≡ none
          → create_workflow jobs workflows members workflow_id others name description config s
            ≡ (err duplicate_workflow, others s)
          → Created
      added :
          (t : workflows.State)
          → get_by_name jobs workflows members name s ≡ none
          → insert new_row (others s).workflow_rows ≡ some t
          → create_workflow jobs workflows members workflow_id others name description config s
            ≡ (ok new_row, record (others s) { workflow_rows = t })
          → Created

    create_workflow-Created : Created
    unfolding create_workflow create
    create_workflow-Created = elim (Option-cases (get_by_name jobs workflows members name s)) [
      | inr (x, e) ↦ known x e (ground arith)
      | inl e ↦ elim (Option-cases (insert new_row (others s).workflow_rows)) [
        | inl f ↦ refused e f (ground arith)
        | inr (t, f) ↦ added t e f (ground arith)
      ]
    ]

    -- A workflow that was created has the arguments as its fields, and `get_workflow` finds it by its
    -- id. All other rows, the jobs and the links are those that the other sessions left. Creating a
    -- workflow with the same name again raises DuplicateWorkflowError and changes nothing.
    pub create_workflow-get_workflow :
        (c : Workflow) (t : Db jobs workflows members)
        → create_workflow jobs workflows members workflow_id others name description config s
          ≡ (ok c, t)
        → (c ≡ record {
          workflow_id = workflow_id;
          name = name;
          description = description;
          config = config;
        })
          × (get_workflow jobs workflows members workflow_id t ≡ (ok c, t))
          × ((k : ℕ)
              → get k t.workflow_rows
                ≡ (if workflow_id == k then some c else get k (others s).workflow_rows))
          × (t.job_rows ≡ (others s).job_rows)
          × (t.links ≡ (others s).links)
          × ((i : ℕ) (more : Db jobs workflows members → Db jobs workflows members)
                (text more_config : Option String)
              → create_workflow jobs workflows members i more name text more_config t
                ≡ (err duplicate_workflow, t))
    create_workflow-get_workflow c t h = elim create_workflow-Created [
      | known x _ e ↦ absurd (ground arith)
      | refused _ _ e ↦ absurd (ground arith)
      | added u free done e ↦
          let same : c ≡ new_row = ground arith in
          let rows : t ≡ record (others s) { workflow_rows = u } = ap (λ r. r.1) (sym h ∙ e) in
          let held : (k : ℕ)
              → get k t.workflow_rows
                ≡ (if workflow_id == k then some c else get k (others s).workflow_rows) =
            λ k.
              ap (λ d. get k d.workflow_rows) rows
              ∙ get-insert k new_row (others s).workflow_rows u done
              ∙ rw same refl in
          let mine : get workflow_id t.workflow_rows ≡ some c =
            held workflow_id ∙ rw (eq_self workflow_id) refl in
          (
            same,
            get_workflow_found workflow_id c t mine,
            held,
            ap (λ d. d.job_rows) rows,
            ap (λ d. d.links) rows,
            λ i more text more_config.
                create_workflow_taken i more name text more_config t workflow_id c mine
                  (ap (λ r. r.name) same),
          )
    ]

    apart_false :
        (x : Workflow)
        → x.workflow_id ≢ workflow_id
        → x.name ≢ name
        → x.workflow_id == workflow_id || x.name == name ≡ false
    apart_false x a b = rw (ne→eq_false x.workflow_id workflow_id a) (ne→eq_false x.name name b)

    clash_false :
        (x : Workflow)
        → x.workflow_id == workflow_id || x.name == name ≡ false
        → (x.workflow_id ≢ workflow_id) × (x.name ≢ name)
    clash_false x h = (
      λ a. ground (arith, ≡→eq x.workflow_id workflow_id a),
      λ b. ground (arith, ≡→eq x.name name b),
    )

    named :
        (x : Workflow)
        → get_by_name jobs workflows members name s ≡ some x
        → first (λ w. w.name == name) s.workflow_rows ≡ some x
    unfolding get_by_name
    named x e = e

    -- A workflow is created exactly when its name is free in the table, and neither its name nor its id
    -- is taken in what the other sessions leave. Otherwise the call raises DuplicateWorkflowError, and
    -- nothing but the work of the others is in the table.
    pub create_workflow_iff :
        (((c : Workflow) × ((create_workflow jobs workflows members workflow_id others name
                description config s).0
              ≡ ok c))
          ↔ (((k : ℕ) (x : Workflow) → get k s.workflow_rows ≡ some x → x.name ≢ name)
              × ((k : ℕ) (x : Workflow)
                  → get k (others s).workflow_rows ≡ some x
                  → (x.workflow_id ≢ workflow_id) × (x.name ≢ name))))
        × (((c : Workflow) × ((create_workflow jobs workflows members workflow_id others name
                  description config s).0
                ≡ ok c))
            ⊎ ((create_workflow jobs workflows members workflow_id others name description config s
                  ≡ (err duplicate_workflow, s))
                ⊎ (create_workflow jobs workflows members workflow_id others name description config
                      s
                    ≡ (err duplicate_workflow, others s))))
    create_workflow_iff = elim create_workflow-Created [
      | known x e run ↦ (
        (
          λ (c, f). absurd (ground arith),
          λ (free, _).
              let (held, same) = first_sound (λ w. w.name == name) s.workflow_rows x (named x e) in
              absurd (free x.workflow_id x held (eq→≡ x.name name same)),
        ),
        inr (inl run),
      )
      | refused e f run ↦ (
        (
          λ (c, g). absurd (ground arith),
          λ (free, clear).
              let fits =
                insert_accepts new_row (others s).workflow_rows refl
                  (λ k x found. let (a, b) = clear k x found in apart_false x a b) in
              absurd (cc (fits, ap is_some f)),
        ),
        inr (inr run),
      )
      | added t e f run ↦ (
        (
          λ (c, g). (
            λ k x. get_by_name-none name s k x e,
            λ k x found.
                clash_false x (insert_unique k new_row x (others s).workflow_rows t f found),
          ),
          λ clear. (new_row, ap (λ r. r.0) run),
        ),
        inl (new_row, ap (λ r. r.0) run),
      )
    ]
