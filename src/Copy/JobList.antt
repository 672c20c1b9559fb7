-- ===== src/Copy/JobList.antt =====
-- The deep copy of a list of jobs (api/v1beta1/zz_generated.deepcopy.go).
use fms_lm_eval_service.Prelude.{
  suc, length, ◌≡◌, refl, ap, sym, subst, ◌∙◌, Option, none, some, List, [], ◌∷◌, All,
}
use fms_lm_eval_service.Api.Job.{LmEvalJob}
use fms_lm_eval_service.Copy.Memory.{Address, Cmd, Grows, Grows-refl, Grows-trans}
use fms_lm_eval_service.Copy.Layout.{
  Machinery, Slice, array_of, Cell, StoredJob, StoredJobList, as_job_list, job_list_cell, as_jobs,
  jobs_cell, At, Lists,
}
use fms_lm_eval_service.Copy.Generated.{
  deep_copy_job_into, copy_items, deep_copy_job_list_into, deep_copy_job_list, copy_slice,
}
use fms_lm_eval_service.Copy.Machinery.{IsMachinery}
use fms_lm_eval_service.Copy.Copied.{
  Copied, Copied-pure, Copied-bind, Copied-weaken, Fresh, All-Fresh-Grows,
}
use fms_lm_eval_service.Copy.Fields.{Lists-Grows, copy_slice-Copied, deep_copy_by-Copied}
use fms_lm_eval_service.Copy.Job.{
  IsStoredJob, CopiesJob, CopiesJob-Grows, deep_copy_job_into-Copied,
}

module _ {T : Machinery} {copy_time : Address → Cmd (Cell T) Address}
    {copy_meta : T.Meta → Cmd (Cell T) T.Meta}
    {copy_list_meta : T.ListMeta → Cmd (Cell T) T.ListMeta}
    (X : IsMachinery T copy_time copy_meta copy_list_meta) where
  -- The jobs of an array stand for the values in their order.
  abbrev pub IsItems : List (Cell T) → List (StoredJob T) → List LmEvalJob → Type 0
  IsItems m [] [] = Unit
  IsItems m [] (v ∷ vs) = ⊥
  IsItems m (j ∷ js) [] = ⊥
  IsItems m (j ∷ js) (v ∷ vs) = IsStoredJob X m j v × IsItems m js vs

  -- The jobs of the second array are copies of those of the first, in their order.
  abbrev pub CopiesItems :
      List (Cell T)
      → List (StoredJob T)
      → List LmEvalJob
      → List (Cell T)
      → List (StoredJob T)
      → Type 0
  CopiesItems b [] [] m' [] = Unit
  CopiesItems b (j ∷ js) (v ∷ vs) m' (j' ∷ js') =
      CopiesJob X b j v m' j' × CopiesItems b js vs m' js'
  CopiesItems b _ _ m' _ = ⊥

  CopiesItems-Grows :
      (b : List (Cell T)) (js : List (StoredJob T)) (vs : List LmEvalJob) (m m' : List (Cell T))
      (js' : List (StoredJob T))
      → Grows m m'
      → CopiesItems b js vs m js'
      → CopiesItems b js vs m' js'
  CopiesItems-Grows b [] [] m m' [] g h = tt
  CopiesItems-Grows b [] [] m m' (j' ∷ js') g h = h
  CopiesItems-Grows b [] (v ∷ vs) m m' js' g h = h
  CopiesItems-Grows b (j ∷ js) [] m m' js' g h = h
  CopiesItems-Grows b (j ∷ js) (v ∷ vs) m m' [] g h = h
  CopiesItems-Grows b (j ∷ js) (v ∷ vs) m m' (j' ∷ js') g h =
      (CopiesJob-Grows X b j v m m' j' g h.0, CopiesItems-Grows b js vs m m' js' g h.1)

  CopiesItems-length :
      (b : List (Cell T)) (js : List (StoredJob T)) (vs : List LmEvalJob) (m : List (Cell T))
      (js' : List (StoredJob T))
      → CopiesItems b js vs m js'
      → length js' ≡ length js
  CopiesItems-length b [] [] m [] h = refl
  CopiesItems-length b [] [] m (j' ∷ js') h = absurd h
  CopiesItems-length b [] (v ∷ vs) m js' h = absurd h
  CopiesItems-length b (j ∷ js) [] m js' h = absurd h
  CopiesItems-length b (j ∷ js) (v ∷ vs) m [] h = absurd h
  CopiesItems-length b (j ∷ js) (v ∷ vs) m (j' ∷ js') h =
      ap suc (CopiesItems-length b js vs m js' h.1)

  copy_items-Copied :
      (b m : List (Cell T)) (js : List (StoredJob T)) (vs : List LmEvalJob)
      → Grows b m
      → IsItems b js vs
      → Copied m (copy_items copy_time copy_meta copy_list_meta js) (CopiesItems b js vs)
  unfolding copy_items
  copy_items-Copied b m [] [] g h = Copied-pure m [] _ tt
  copy_items-Copied b m [] (v ∷ vs) g h = absurd h
  copy_items-Copied b m (j ∷ js) [] g h = absurd h
  copy_items-Copied b m (j ∷ js) (v ∷ vs) g h =
      Copied-bind m (deep_copy_job_into copy_time copy_meta copy_list_meta j) _ (CopiesJob X b j v)
        _ (deep_copy_job_into-Copied X b m j v g h.0)
        (λ j' m1 g1 c1.
          Copied-bind m1 (copy_items copy_time copy_meta copy_list_meta js) _ (CopiesItems b js vs)
            _ (copy_items-Copied b m1 js vs (Grows-trans b m m1 g g1) h.1)
            (λ js' m2 g2 c2.
              Copied-pure m2 (j' ∷ js') _ (CopiesJob-Grows X b j v m1 m2 j' g2 c1, c2)))

  -- What a copied array of jobs is.
  abbrev CopiesArray :
      List (Cell T) → List (StoredJob T) → List LmEvalJob → List (Cell T) → Option Slice → Type 0
  CopiesArray b js vs m' q =
      Fresh b (array_of q)
      × ((js' : List (StoredJob T)) × Lists m' as_jobs q js' × CopiesItems b js vs m' js')

  no_items :
      (b m : List (Cell T)) (js : List (StoredJob T)) (vs : List LmEvalJob)
      → js ≡ []
      → IsItems b js vs
      → CopiesItems b js vs m []
  no_items b m [] [] e h = tt
  no_items b m [] (v ∷ vs) e h = h
  no_items b m (j ∷ js) vs e h = absurd cc

  copy_array :
      (b m : List (Cell T)) (p : Option Slice) (js : List (StoredJob T)) (vs : List LmEvalJob)
      → Grows b m
      → Lists b as_jobs p js
      → IsItems b js vs
      → Copied m
          (copy_slice as_jobs jobs_cell (copy_items copy_time copy_meta copy_list_meta) p)
          (CopiesArray b js vs)
  copy_array b m none js vs g e h = Copied-pure m none _ (tt, ([], refl, no_items b m js vs e h))
  copy_array b m (some s) js vs g e h =
      Copied-weaken m
        (copy_slice as_jobs jobs_cell (copy_items copy_time copy_meta copy_list_meta) (some s)) _ _
        (copy_slice-Copied as_jobs jobs_cell (λ x. refl) b m
          (copy_items copy_time copy_meta copy_list_meta) (CopiesItems b js vs) s js
          (CopiesItems-Grows b js vs) g e
          (λ m1 g1.
            Copied-weaken m1 (copy_items copy_time copy_meta copy_list_meta js) _ _
              (copy_items-Copied b m1 js vs g1 h)
              (λ m' js' g' c. (CopiesItems-length b js vs m' js' c, c))))
        (λ m' q g' c.
          let (a', js', p, there, copies, fresh) = c in
          subst (CopiesArray b js vs m') (sym p) (fresh, (js', there, copies)))

  -- What a list of jobs stands for.
  pub record IsJobList (m : List (Cell T)) (l : StoredJobList T) (js : List (StoredJob T))
      (meta_view : X.ListView) (vs : List LmEvalJob) : Type 0 where
    pub meta : X.IsListMeta m l.meta meta_view
    pub array : Lists m as_jobs l.items js
    pub items : IsItems m js vs

  -- A copy of a list, made behind the cells of `b`: its metadata, its array and its jobs are new.
  pub record CopiesJobList (b : List (Cell T)) (l : StoredJobList T) (js : List (StoredJob T))
      (meta_view : X.ListView) (vs : List LmEvalJob) (m' : List (Cell T)) (l' : StoredJobList T)
      : Type 0 where
    pub type_meta : l'.type_meta ≡ l.type_meta
    pub meta : X.IsListMeta m' l'.meta meta_view
    pub fresh : All (Fresh b) (X.list_meta_owned m' l'.meta)
    pub new_array : Fresh b (array_of l'.items)
    pub items :
        (js' : List (StoredJob T)) × Lists m' as_jobs l'.items js' × CopiesItems b js vs m' js'

  CopiesJobList-Grows :
      (b : List (Cell T)) (l : StoredJobList T) (js : List (StoredJob T)) (meta_view : X.ListView)
      (vs : List LmEvalJob) (m m' : List (Cell T)) (l' : StoredJobList T)
      → Grows m m'
      → CopiesJobList b l js meta_view vs m l'
      → CopiesJobList b l js meta_view vs m' l'
  CopiesJobList-Grows b l js meta_view vs m m' l' g h = record {
    type_meta = h.type_meta;
    meta = X.IsListMeta_grows m m' l'.meta meta_view g h.meta;
    fresh =
        subst (All (Fresh b)) (sym (X.list_meta_owned_grows m m' l'.meta meta_view g h.meta))
          h.fresh;
    new_array = h.new_array;
    items =
        let (js', there, copies) = h.items in
        (
          js',
          Lists-Grows as_jobs m m' l'.items js' g there,
          CopiesItems-Grows b js vs m m' js' g copies,
        );
  }

  deep_copy_job_list_into-Copied :
      (b m : List (Cell T)) (l : StoredJobList T) (js : List (StoredJob T)) (meta_view : X.ListView)
      (vs : List LmEvalJob)
      → Grows b m
      → IsJobList b l js meta_view vs
      → Copied m
          (deep_copy_job_list_into copy_time copy_meta copy_list_meta l)
          (CopiesJobList b l js meta_view vs)
  unfolding deep_copy_job_list_into
  deep_copy_job_list_into-Copied b m l js meta_view vs g h =
      Copied-bind m (copy_list_meta l.meta) _ _ _
        (X.list_meta_copied m l.meta meta_view (X.IsListMeta_grows b m l.meta meta_view g h.meta))
        (λ meta m1 g1 c1.
          Copied-bind m1
            (copy_slice as_jobs jobs_cell (copy_items copy_time copy_meta copy_list_meta) l.items) _
            (CopiesArray b js vs) _
            (copy_array b m1 l.items js vs (Grows-trans b m m1 g g1) h.array h.items)
            (λ items m2 g2 c2. Copied-pure m2 _ _ (record {
              type_meta = refl;
              meta = X.IsListMeta_grows m1 m2 meta meta_view g2 c1.0;
              fresh =
                  subst (All (Fresh b)) (sym (X.list_meta_owned_grows m1 m2 meta meta_view g2 c1.0))
                    (All-Fresh-Grows b m (X.list_meta_owned m1 meta) g c1.1);
              new_array = c2.0;
              items = c2.1;
            })))

  -- For a pointer to a list of jobs that stand for values, `DeepCopy` ends and gives a pointer to
  -- a new list, whose metadata stands for the same; the cells there are left as they are; the new
  -- list, its array and what its metadata points to are new, and its jobs are copies of the first
  -- list's in their order, each new but for the arrays of its secrets.
  pub deep_copy_job_list-copies :
      (m : List (Cell T)) (a : Address) (l : StoredJobList T) (js : List (StoredJob T))
      (meta_view : X.ListView) (vs : List LmEvalJob)
      → At m as_job_list a l
      → IsJobList m l js meta_view vs
      → (a' : Address) × (l' : StoredJobList T) × (m' : List (Cell T)) × (deep_copy_job_list
            copy_time copy_meta copy_list_meta
            (some a)
            m
          ≡ some (some a', m'))
        × Grows m m'
        × At m' as_job_list a' l'
        × Fresh m (some a')
        × CopiesJobList m l js meta_view vs m' l'
  unfolding deep_copy_job_list
  deep_copy_job_list-copies m a l js meta_view vs h view =
      let (q, m', e, g, (a', l', p, there, copies, fresh)) =
        deep_copy_by-Copied as_job_list job_list_cell (λ x. refl) m m
          (deep_copy_job_list_into copy_time copy_meta copy_list_meta)
          (CopiesJobList m l js meta_view vs) a l (CopiesJobList-Grows m l js meta_view vs)
          (Grows-refl m) h
          (λ m1 g1. deep_copy_job_list_into-Copied m m1 l js meta_view vs g1 view) in
      (a', l', m', e ∙ ap (λ z. some (z, m')) p, g, there, fresh, copies)
