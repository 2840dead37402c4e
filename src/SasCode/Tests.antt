-- ===== src/SasCode/Tests.antt =====
-- The code of one string of six bytes.
use sendingnetwork_ios.Common.{ℕ, ◌≡◌, ◌≤◌, refl, some, List, [], ◌∷◌, All, arith}
use sendingnetwork_ios.SasCode.{decimal_representation_for_sas}
use sendingnetwork_ios.SasCode.Numbers.{
  IsByte, decimal_representation_for_sas-groups, decimal_representation_for_sas-bounds,
}

abbrev sas : List ℕ
sas = 255 ∷ 1 ∷ 128 ∷ 66 ∷ 7 ∷ 193 ∷ []

decimal_representation_for_sas-groups_example :
    decimal_representation_for_sas sas ≡ some (9160 ∷ 2537 ∷ 1259 ∷ [])
decimal_representation_for_sas-groups_example =
    decimal_representation_for_sas-groups 255 1 128 66 7 (193 ∷ [])
      (omega arith, (omega arith, (omega arith, (omega arith, (omega arith, tt)))))

decimal_representation_for_sas-bounds_example :
    All (λ n. (1000 ≤ n) × (n ≤ 9191)) (9160 ∷ 2537 ∷ 1259 ∷ [])
unfolding decimal_representation_for_sas
decimal_representation_for_sas-bounds_example =
    decimal_representation_for_sas-bounds 255 1 128 66 7 (193 ∷ []) (9160 ∷ 2537 ∷ 1259 ∷ [])
      (omega arith, (omega arith, (omega arith, (omega arith, (omega arith, tt))))) refl

abbrev bytes : All IsByte sas
bytes = (omega arith, (omega arith, (omega arith, (omega arith, (omega arith, (omega arith, tt))))))
