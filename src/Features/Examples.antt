-- ===== src/Features/Examples.antt =====
-- Tests of the registry of kernel/os/feature_registry.c.
use thunity_os.Base.{replicate}
use thunity_os.Features.{FeatureRegistry, no_feature}

abbrev empty : FeatureRegistry
empty = record { items = replicate 80 no_feature; n = 0 }
