-- ===== src/Tests/Utilities.antt =====
-- The data of the unit tests.
use cdump.Prelude.{ℕ, ◌≡◌, some, List, length}
use cdump.Tutil.{make_random_string, build_sizes}
use cdump.Tutil.Sizes.{contains, near_power, build_sizes_lem}
use cdump.Tutil.Text.{make_random_string-length}

make_random_string-length_example :
    (buf : List ℕ) × (make_random_string 40 7 ≡ some buf) × (length buf ≡ 40)
make_random_string-length_example = make_random_string-length 40 7

build_sizes_lem_example :
    cdump.Tutil.Sizes.Ascends build_sizes × (contains 1023 build_sizes ≡ near_power 1023 19 0)
build_sizes_lem_example = build_sizes_lem 1023
