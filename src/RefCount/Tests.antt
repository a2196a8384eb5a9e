-- ===== src/RefCount/Tests.antt =====
-- An object that is referenced once more and then released by both of its holders.
use hall.Prelude.{◌≡◌, refl, some, List, [], ◌∷◌, arith}
use hall.RefCount.{
  RefCount, Use, reference, dereference, use_all, rfc_init, rfc_pre_init, use_all_lem,
}

abbrev uses : List Use
uses = reference ∷ dereference ∷ dereference ∷ []

use_all_example :
    (r : RefCount) × (use_all (rfc_init rfc_pre_init) uses ≡ some r)
    × (r.reference_count ≡ 0)
    × (r.frees ≡ 1)
use_all_example = use_all_lem uses 0 (omega arith) refl
