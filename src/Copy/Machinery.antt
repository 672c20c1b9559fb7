-- ===== src/Copy/Machinery.antt =====
-- What the code may rely on of apimachinery's own deep copies.
use fms_lm_eval_service.Prelude.{◌≡◌, Option, some, List, All}
use fms_lm_eval_service.Api.Core.{Time, ObjectMeta}
use fms_lm_eval_service.Copy.Memory.{Address, Cmd, Grows}
use fms_lm_eval_service.Copy.Layout.{Machinery, Cell, as_time, At}
use fms_lm_eval_service.Copy.Copied.{Copied, Fresh}

-- For the metadata of an object and of a list: what they stand for in a memory, and what they point to
-- there; neither changes where cells are added. A deep copy stands for the same, and all that it points
-- to is new.
pub record IsMachinery (T : Machinery) (copy_time : Address → Cmd (Cell T) Address)
    (copy_meta : T.Meta → Cmd (Cell T) T.Meta)
    (copy_list_meta : T.ListMeta → Cmd (Cell T) T.ListMeta) : Type 1 where
  pub ListView : Type 0
  pub IsMeta : List (Cell T) → T.Meta → ObjectMeta → Type 0
  pub IsListMeta : List (Cell T) → T.ListMeta → ListView → Type 0
  pub meta_owned : List (Cell T) → T.Meta → List (Option Address)
  pub list_meta_owned : List (Cell T) → T.ListMeta → List (Option Address)
  pub IsMeta_grows :
      (m m' : List (Cell T)) (x : T.Meta) (v : ObjectMeta)
      → Grows m m'
      → IsMeta m x v
      → IsMeta m' x v
  pub IsListMeta_grows :
      (m m' : List (Cell T)) (x : T.ListMeta) (v : ListView)
      → Grows m m'
      → IsListMeta m x v
      → IsListMeta m' x v
  pub meta_owned_grows :
      (m m' : List (Cell T)) (x : T.Meta) (v : ObjectMeta)
      → Grows m m'
      → IsMeta m x v
      → meta_owned m' x ≡ meta_owned m x
  pub list_meta_owned_grows :
      (m m' : List (Cell T)) (x : T.ListMeta) (v : ListView)
      → Grows m m'
      → IsListMeta m x v
      → list_meta_owned m' x ≡ list_meta_owned m x
  pub time_copied :
      (m : List (Cell T)) (a : Address) (t : Time)
      → At m as_time a t
      → Copied m (copy_time a) (λ m' a'. At m' as_time a' t × Fresh m (some a'))
  pub meta_copied :
      (m : List (Cell T)) (x : T.Meta) (v : ObjectMeta)
      → IsMeta m x v
      → Copied m (copy_meta x) (λ m' x'. IsMeta m' x' v × All (Fresh m) (meta_owned m' x'))
  pub list_meta_copied :
      (m : List (Cell T)) (x : T.ListMeta) (v : ListView)
      → IsListMeta m x v
      → Copied m
          (copy_list_meta x)
          (λ m' x'. IsListMeta m' x' v × All (Fresh m) (list_meta_owned m' x'))
