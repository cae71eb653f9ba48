-- ===== src/Verifiable/Integers/Tests.antt =====
-- Three ranks with bytes.
use mathlib.Core.List.{Permᴰ}
use nccl_tests.Prelude.{◌≡◌, refl, arith}
use nccl_tests.Verifiable.Integers.{int8, sum, least, reduce, post_op, prepared_input, gen_output}
use nccl_tests.Verifiable.Integers.Trees.{Tree, of_rank, both, reduced, ranks, ranks_from}
use nccl_tests.Verifiable.Integers.Order.{gen_output-any_order}

-- -1 is less than 1.
signed_least : reduce int8 least 255 1 ≡ 255
signed_least = refl

abbrev tree : Tree
tree = both (of_rank 2) (both (of_rank 0) (of_rank 1))

rotated : Permᴰ (ranks tree) (ranks_from 3 0)
rotated = Permᴰ.trans (Permᴰ.swap refl refl) (Permᴰ.cons refl (Permᴰ.swap refl refl))

gen_output-any_order_example :
    post_op int8 sum 3 (reduced (reduce int8 sum) (prepared_input int8 sum 11 5) tree)
    ≡ gen_output int8 sum 3 11 5
gen_output-any_order_example = gen_output-any_order int8 sum 3 11 5 tree refl (omega arith) rotated
