-- ===== src/CommandLine/Tests.antt =====
-- The command line of src/common.cu on concrete texts.
use nccl_tests.Prelude.{◌≡◌, refl, some, codes}
use nccl_tests.CommandLine.Extension.{
  classify_output_file, json_file_output, unspecified_file_output,
}

upper_case-accepted : classify_output_file (some (codes "out.d/run.1.JSON")) ≡ json_file_output
unfolding classify_output_file
upper_case-accepted = refl

dot_in_folder : classify_output_file (some (codes "out.json/run")) ≡ unspecified_file_output
unfolding classify_output_file
dot_in_folder = refl
