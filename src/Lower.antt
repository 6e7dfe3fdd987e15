-- ===== src/Lower.antt =====
-- src/llir/lower.rs, with the types of src/llir/mod.rs that it works on: the last steps from
-- statements to the instructions of a binary file.
pub mod Encode
pub mod Labels
pub mod DiffSwitches
mod Tests
use truth.Base.{ℕ, Bool, Option, none, some, List, true, false, ◌==◌}
use truth.Base.Run.{Run, ok, panic}
use truth.Value.{ScalarType, ScalarValue}
use truth.Io.{Encoding}
use truth.Abi.{ArgEncoding}
use truth.Vm.Exec.{TimeAndDifficulty}

-- `SimpleArg`: an immediate value, or the number of a register.
pub record SimpleArg (F : Type 0) : Type 0 where
  pub value : ScalarValue F
  pub is_reg : Bool

pub record RawInstr : Type 0 where
  pub time : ℕ
  pub opcode : ℕ
  pub param_mask : ℕ
  pub args_blob : List ℕ
  pub difficulty : ℕ
  pub pop : ℕ
  pub extra_arg : Option ℕ

-- `LowerCases` are the optional cases of a difficulty switch; labels and locals are numbers.
mutual
  pub data LowerArg (F : Type 0) : Type 0 where
    raw : SimpleArg F → LowerArg F
    diff_switch : LowerCases F → LowerArg F
    local : ℕ → ScalarType → LowerArg F
    label time_of : ℕ → LowerArg F

  pub data LowerCases (F : Type 0) : Type 0 where
    no_cases : LowerCases F
    missing : LowerCases F → LowerCases F
    present : LowerArg F → LowerCases F → LowerCases F

pub data LowerArgs (F : Type 0) : Type 0 where
  known : List (LowerArg F) → LowerArgs F
  unknown : List ℕ → LowerArgs F

pub record LowerInstr (F : Type 0) : Type 0 where
  pub stmt_data : TimeAndDifficulty
  pub opcode : ℕ
  pub explicit_extra_arg : Option ℕ
  pub user_param_mask : Option ℕ
  pub args : LowerArgs F

pub data LowerStmt (F : Type 0) : Type 0 where
  instr : LowerInstr F → LowerStmt F
  -- the time and the name of a label
  label : ℕ → ℕ → LowerStmt F
  reg_alloc reg_free : ℕ → LowerStmt F

-- What the hooks of a language, the mapfiles and the encoding of strings and floats supply. `ins_abi`
-- finds the signature of an opcode. `value_is_reg` is the test of `RegisterEncodingStyle::EosdEcl`, and
-- `none` is the style `ByParamMask`.
pub record Language (F : Type 0) : Type 0 where
  pub has_registers : Bool
  pub instr_header_size : ℕ
  pub encode_label : ℕ → ℕ → ℕ
  pub ins_abi : ℕ → Option (List ArgEncoding)
  pub value_is_reg : Option (ScalarValue F → Bool)
  pub strings : Encoding
  pub to_bits : F → ℕ
  pub from_bits : ℕ → F

module _ {F : Type 0} where
  unfoldable pub immediate : ScalarValue F → SimpleArg F
  immediate v = record { value = v; is_reg = false }

  unfoldable pub value_int : ScalarValue F → Run ℕ
  value_int (ScalarValue.int x) = ok x
  value_int _ = panic

  unfoldable pub value_float : ScalarValue F → Run F
  value_float (ScalarValue.float x) = ok x
  value_float _ = panic

  unfoldable pub value_string : ScalarValue F → Run (List ℕ)
  value_string (ScalarValue.string x) = ok x
  value_string _ = panic

  unfoldable pub expect_int : SimpleArg F → Run ℕ
  unfolding value_int
  expect_int a = value_int a.value

  unfoldable pub expect_float : SimpleArg F → Run F
  unfolding value_float
  expect_float a = value_float a.value

  unfoldable pub expect_string : SimpleArg F → Run (List ℕ)
  unfolding value_string
  expect_string a = value_string a.value

  unfoldable pub expect_raw : LowerArg F → Run (SimpleArg F)
  expect_raw (raw a) = ok a
  expect_raw _ = panic
