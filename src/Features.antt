-- ===== src/Features.antt =====
-- kernel/os/feature_registry.h and kernel/os/feature_registry.c: the registry of the system's features.
-- -1 and the null pointer are `none`; the label of a status is left out.
pub mod Counts
mod Examples
use thunity_os.Base.{
  ℕ, zero, suc, ◌+◌, Bool, true, false, Option, none, some, List, [], ◌∷◌, map, get_or, set, leb,
  if◌then◌else◌,
}
use thunity_os.CStrings.{ncopy}

abbrev pub feat_name_max : ℕ
feat_name_max = 40

abbrev pub feat_max : ℕ
feat_max = 80

pub data FeatStatus : Type 0 where
  implemented host_tested compile_only design_only not_verified : FeatStatus

-- `==` of two statuses.
abbrev pub same_status : FeatStatus → FeatStatus → Bool
same_status implemented implemented = true
same_status host_tested host_tested = true
same_status compile_only compile_only = true
same_status design_only design_only = true
same_status not_verified not_verified = true
same_status _ _ = false

pub record Feature : Type 0 where
  pub name : List ℕ
  pub status : FeatStatus
  pub used : Bool

pub record FeatureRegistry : Type 0 where
  pub items : List Feature
  pub n : ℕ

-- A slot out of range, which no loop reaches.
abbrev pub no_feature : Feature
no_feature = record { name = []; status = implemented; used = false }

unfoldable pub feat_init : FeatureRegistry → FeatureRegistry
feat_init r = record { items = map (λ (f : Feature). record f { used = false }) r.items; n = 0 }

unfoldable pub feat_add : FeatureRegistry → List ℕ → FeatStatus → Option ℕ × FeatureRegistry
feat_add r name st = if leb feat_max r.n then (none, r) else (
  some r.n,
  record {
    items = set r.items r.n (record { name = ncopy name feat_name_max; status = st; used = true });
    n = r.n + 1;
  },
)

-- The loop of `feat_count_by` at `i`, with `left` rounds left.
unfoldable pub count_by_loop : ℕ → ℕ → List Feature → FeatStatus → ℕ → ℕ
count_by_loop zero i items st n = n
count_by_loop (suc left) i items st n =
    count_by_loop left (i + 1) items st
      (if same_status (get_or items i no_feature).status st then n + 1 else n)

unfoldable pub feat_count_by : FeatureRegistry → FeatStatus → ℕ
feat_count_by r st = count_by_loop r.n 0 r.items st 0

-- A negative index, which is refused, has no counterpart here.
unfoldable pub feat_get : FeatureRegistry → ℕ → Option Feature
feat_get r idx = if leb r.n idx then none else some (get_or r.items idx no_feature)
