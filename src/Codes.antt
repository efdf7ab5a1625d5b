-- ===== src/Codes.antt =====
-- The result codes of code/src/turbine/turbine-defs.h and `turbine_code_tostring` of
-- code/src/turbine/turbine.c. The codes of ADLB and Tcl are those that the program tests for; the
-- constructor `other_code` stands for every other value.
use Prim.Native.String.{String}
use exm_turbine.Common.{Option, none, some}

pub data TurbineCode : Type 0 where
  success : TurbineCode
  error_oom error_double_declare error_double_write error_unset error_not_found : TurbineCode
  error_number_format error_invalid error_null error_type error_storage : TurbineCode
  error_uninitialized error_adlb error_external error_io error_unknown : TurbineCode

pub data AdlbCode : Type 0 where
  adlb_success adlb_error adlb_nothing adlb_shutdown other_code : AdlbCode

pub data TclCode : Type 0 where
  tcl_ok tcl_error other_tcl : TclCode

-- What is printed into `output`. `none` is the default branch of the switch, which prints a
-- message with the number of the code and returns -1.
pub turbine_code_tostring : TurbineCode → Option String
turbine_code_tostring success = some "TURBINE_SUCCESS"
turbine_code_tostring error_oom = some "TURBINE_ERROR_OOM"
turbine_code_tostring error_double_declare = some "TURBINE_ERROR_DOUBLE_DECLARE"
turbine_code_tostring error_double_write = some "TURBINE_ERROR_DOUBLE_WRITE"
turbine_code_tostring error_unset = some "TURBINE_ERROR_UNSET"
turbine_code_tostring error_not_found = some "TURBINE_ERROR_NOT_FOUND"
turbine_code_tostring error_number_format = some "TURBINE_ERROR_NUMBER_FORMAT"
turbine_code_tostring error_invalid = some "TURBINE_ERROR_INVALID"
turbine_code_tostring error_null = some "TURBINE_ERROR_NULL"
turbine_code_tostring error_unknown = some "TURBINE_ERROR_UNKNOWN"
turbine_code_tostring error_type = some "TURBINE_ERROR_TYPE"
turbine_code_tostring error_storage = some "TURBINE_ERROR_STORAGE"
turbine_code_tostring error_uninitialized = some "TURBINE_ERROR_UNINITIALIZED"
turbine_code_tostring error_adlb = none
turbine_code_tostring error_external = none
turbine_code_tostring error_io = none
