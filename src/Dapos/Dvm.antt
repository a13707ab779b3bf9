-- ===== src/Dapos/Dvm.antt =====
-- The virtual machine as the consensus calls it: dvm.DVMService with the abi package of
-- dvm/ethereum, and helper.GetConvertedParams, which are parameters.
use disgo.Prelude.{Bool, Option, List}
use disgo.Prelude.Text.{Bytes}
use disgo.Types.Errors.{Error, Result}
use disgo.Types.Json.{Items}
use disgo.Types.Transaction.{Transaction}
use disgo.Types.Account.{Account}
use disgo.Store.{Stores}

-- The fields of dvm.DVMResult that are read, with the accounts of its storage state's objects.
pub record DvmResult : Type 0 where
  pub contract_address : Bytes
  pub abi : Bytes
  pub contract_method : Bytes
  pub contract_method_exec_error : Option Error
  pub contract_method_exec_result : Bytes
  pub state_objects : List Account

pub record Dvm (s : Stores) : Type 0 where
  -- DeploySmartContract and ExecuteSmartContract, which commit transactions of their own
  pub deploy : Transaction → s.Db → DvmResult × Option Error × s.Db
  pub execute : Transaction → s.Db → DvmResult × Option Error × s.Db
  -- GetConvertedParams
  pub converted_params : Transaction → Result Items
  -- abi.JSON of a text (its error), Methods[name], and Outputs.UnpackValues
  pub abi_error : Bytes → Option Error
  pub has_method : Bytes → Bytes → Bool
  pub unpack_values : Bytes → Bytes → Bytes → Result Items
