-- ===== src/Features/Counts.antt =====
-- The counts of kernel/os/feature_registry.c.
use thunity_os.Base.{
  ℕ, zero, suc, ◌+◌, ◌<◌, ◌≡◌, subst, ◌∙◌, inl, inr, true, List, length, get_or, set, get_or-set,
  leb, if◌then◌else◌, Bool-cases, arith,
}
use thunity_os.CStrings.{ncopy}
use thunity_os.Features.{
  feat_max, feat_name_max, FeatStatus, same_status, Feature, FeatureRegistry, no_feature, feat_add,
  count_by_loop, feat_count_by,
}

-- The round at the end of the loop, apart, on a table with one entry written there.
count_by_loop-set :
    (left i : ℕ) (items : List Feature) (f : Feature) (st : FeatStatus) (n : ℕ)
    → i + left < length items
    → count_by_loop (suc left) i (set items (i + left) f) st n
      ≡ count_by_loop left i items st n + (if same_status f.status st then 1 else 0)
unfolding count_by_loop
count_by_loop-set zero i items f st n lt =
    let at : get_or (set items (i + 0) f) i no_feature ≡ f =
      get_or-set items (i + 0) i f no_feature lt ∙ ground arith in
    rw at (ground arith)
count_by_loop-set (suc left) i items f st n lt =
    let e : i + 1 + left ≡ i + suc left = omega arith in
    let at : get_or (set items (i + suc left) f) i no_feature ≡ get_or items i no_feature =
      get_or-set items (i + suc left) i f no_feature lt ∙ ground arith in
    rw at (
      subst
        (λ k.
          count_by_loop (suc left) (i + 1) (set items k f) st
            (if same_status (get_or items i no_feature).status st then n + 1 else n)
          ≡ count_by_loop left (i + 1) items st
              (if same_status (get_or items i no_feature).status st then n + 1 else n)
            + (if same_status f.status st then 1 else 0))
        e
        (count_by_loop-set left (i + 1) items f st
          (if same_status (get_or items i no_feature).status st then n + 1 else n) (omega arith)))

-- On a table of 80 entries, adding a feature raises the count of its status by one and that of no other,
-- or changes no count when the table is full.
pub feat_count_by-add :
    (r : FeatureRegistry) (name : List ℕ) (status st : FeatStatus)
    → length r.items ≡ feat_max
    → feat_count_by (feat_add r name status).1 st
      ≡ feat_count_by r st
        + (if leb feat_max r.n then 0 else if same_status status st then 1 else 0)
unfolding feat_count_by feat_add
feat_count_by-add r name status st room = elim (Bool-cases (leb feat_max r.n)) [
  | inl full ↦ rw full (omega arith)
  | inr free ↦
      let f : Feature = record { name = ncopy name feat_name_max; status = status; used = true } in
      let n1 : r.n + 1 ≡ suc r.n = omega arith in
      let z : 0 + r.n ≡ r.n = omega arith in
      rw (free, n1)
        (subst
          (λ k.
            count_by_loop (suc r.n) 0 (set r.items k f) st 0
            ≡ count_by_loop r.n 0 r.items st 0 + (if same_status status st then 1 else 0))
          z (count_by_loop-set r.n 0 r.items f st 0 (ground (arith, room))))
]
