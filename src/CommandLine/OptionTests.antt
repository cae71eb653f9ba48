-- ===== src/CommandLine/OptionTests.antt =====
-- The options of src/common.cu on concrete texts.
use nccl_tests.Prelude.{◌^◌, ◌≡◌, refl, pos, negsuc, true, false, List, [], ◌∷◌, codes}
use nccl_tests.CommandLine.Numbers.{
  strtol, number, number_and_letter, nan, finite, size_option, undefined, invalid,
}
use nccl_tests.CommandLine.Options.{
  Options, default_options, Found, minbytes, blocking, cudagraph, per_iter_timing, per_iter_skip,
  host_rma_implementation, local_register, goes_on, main_options,
}
use nccl_tests.CommandLine.Supported.{Consistent}
use nccl_tests.CommandLine.Consistent.{main_options-Consistent}

-- `-b 1.5K -z 3 -G 0x2 -I 1 -K 7 -R 2 -H 1`: mode 3 and the times of iterations are switched off.
abbrev arguments : List Found
arguments =
    minbytes (number_and_letter (finite false 3 0 1) 75)
    ∷ blocking (codes "3")
    ∷ cudagraph (codes "0x2")
    ∷ per_iter_timing (codes " 1")
    ∷ per_iter_skip (codes "07")
    ∷ local_register (codes "2")
    ∷ host_rma_implementation (codes "1")
    ∷ []

abbrev result : Options
result = record default_options {
  min_bytes = 1536;
  cuda_graph_launches = pos 2;
  local_register = pos 2;
  host_rma_impl = true;
}

accepted : main_options 23000 arguments ≡ goes_on result
unfolding main_options
accepted = refl

main_options-Consistent_example : Consistent 23000 result
main_options-Consistent_example = main_options-Consistent 23000 arguments result accepted

-- A text that is no number is read as 0, a negative number as itself, and a leading 0 is octal.
no_number : strtol (codes "ten") ≡ (pos 0, codes "ten")
unfolding strtol
no_number = refl

octal : strtol (codes "-012x") ≡ (negsuc 9, codes "x")
unfolding strtol
octal = refl

-- The sizes `nan` and `1e30` are not refused.
size_nan : size_option (number nan) ≡ undefined
unfolding size_option
size_nan = refl

size_large : size_option (number (finite false (10 ^ 30) 0 0)) ≡ undefined
unfolding size_option
size_large = refl

size_letter : size_option (number_and_letter (finite false 1 0 0) 84) ≡ invalid
unfolding size_option
size_letter = refl
