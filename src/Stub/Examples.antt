-- ===== src/Stub/Examples.antt =====
-- Runs of the helpers of cpp/scripts/gene-gtest-stub.cpp.
use c_workspace.Common.{◌≡◌, refl}
use c_workspace.Utils.Text.{codes}
use c_workspace.Stub.{count_method_params}

no_params :
    (count_method_params (codes "int f( void )") ≡ 0)
    × (count_method_params (codes "int f()") ≡ 0)
    × (count_method_params (codes "int f(int n)") ≡ 1)
unfolding count_method_params
no_params = (refl, refl, refl)
