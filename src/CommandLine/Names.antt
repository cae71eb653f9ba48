-- ===== src/CommandLine/Names.antt =====
-- The types and operations of src/common.cu by name: the lists of names, how many of them a version of
-- NCCL has, and `ncclstringtotype` and `ncclstringtoop` of src/common.h. The build has NCCL 2.29 or
-- newer and the types of 8 and 16 bits.
use nccl_tests.Prelude.{
  ℕ, zero, suc, ◌+◌, ◌*◌, ℤ, pos, negsuc, Option, none, some, List, [], ◌∷◌, leb, if◌then◌else◌,
  codes,
}
use nccl_tests.Gin.Options.{str_eq}

-- `NCCL_VERSION(2, minor, 0)` from 2.9 on.
abbrev pub version : (minor : ℕ) → ℕ
version minor = 20000 + minor * 100

-- `test_typenames`.
abbrev pub test_typenames : List (List ℕ)
test_typenames =
    codes "int8"
    ∷ codes "uint8"
    ∷ codes "int32"
    ∷ codes "uint32"
    ∷ codes "int64"
    ∷ codes "uint64"
    ∷ codes "half"
    ∷ codes "float"
    ∷ codes "double"
    ∷ codes "bfloat16"
    ∷ codes "f8e4m3"
    ∷ codes "f8e5m2"
    ∷ []

-- `test_opnames`.
abbrev pub test_opnames : List (List ℕ)
test_opnames =
    codes "sum" ∷ codes "prod" ∷ codes "max" ∷ codes "min" ∷ codes "avg" ∷ codes "mulsum" ∷ []

-- `test_opnum` and `test_typenum`, for the version that runs.
abbrev pub test_opnum : (running : ℕ) → ℕ
test_opnum running =
    4 + (if leb (version 10) running then 1 else 0) + (if leb (version 11) running then 1 else 0)

abbrev pub test_typenum : (running : ℕ) → ℕ
test_typenum running =
    9 + (if leb (version 10) running then 1 else 0) + (if leb (version 24) running then 2 else 0)

-- The first of the next `n` names that is the text; `t` counts the names in front.
abbrev pub find_name : (str : List ℕ) (n t : ℕ) → List (List ℕ) → Option ℕ
find_name str zero t names = none
find_name str (suc n) t [] = none
find_name str (suc n) t (name ∷ names) =
    let later = find_name str n (suc t) names in if str_eq str name then some t else later

-- An index, -1 for all of them, or the default.
abbrev pub name_or : (str : List ℕ) (default : ℕ) → Option ℕ → ℤ
name_or str default (some t) = pos t
name_or str default none = if str_eq str (codes "all") then negsuc 0 else pos default

-- `ncclstringtotype`; `ncclFloat` is 7.
unfoldable pub ncclstringtotype : (running : ℕ) → List ℕ → ℤ
unfolding str_eq
ncclstringtotype running str = name_or str 7 (find_name str (test_typenum running) 0 test_typenames)

-- `ncclstringtoop`; `ncclSum` is 0.
unfoldable pub ncclstringtoop : (running : ℕ) → List ℕ → ℤ
unfolding str_eq
ncclstringtoop running str = name_or str 0 (find_name str (test_opnum running) 0 test_opnames)
