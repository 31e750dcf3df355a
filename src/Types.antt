-- ===== src/Types.antt =====
-- frontend/src/types/api.ts: the data that the frontend computes with. An optional field is an
-- `Option`. Money is a whole number of cents; an amount is `none` where the value that the backend
-- sent is no finite number, which is what `Number.isFinite` tests.
use sumurai.Prelude.{Bool, Option}
use sumurai.Prelude.Int.{ℤ}
use sumurai.Prelude.Text.{Text}

pub data FinancialProvider : Type 0 where
  plaid teller : FinancialProvider

pub record TransactionLocation : Type 0 where
  pub address : Option Text
  pub city : Option Text
  pub region : Option Text
  pub postal_code : Option Text

pub record TransactionCategory : Type 0 where
  pub primary : Text
  pub detailed : Option Text
  pub confidence_level : Option Text

pub record Transaction : Type 0 where
  pub id : Text
  pub account_id : Option Text
  pub date : Text
  pub name : Text
  pub merchant : Option Text
  pub amount : Option ℤ
  pub pending : Option Bool
  pub category : Option TransactionCategory
  pub account_name : Text
  pub account_type : Option Text
  pub account_mask : Option Text
  pub provider : Option FinancialProvider
  pub running_balance : Option ℤ
  pub location : Option TransactionLocation
  pub custom_category : Option Text
  pub custom_subcategory : Option Text
  pub rule_category : Option Text
  pub rule_subcategory : Option Text

pub data BudgetFrequency : Type 0 where
  monthly quarterly semi_annual annual : BudgetFrequency

pub record Budget : Type 0 where
  pub id : Text
  pub category : Text
  pub amount : ℤ
  pub frequency : Option BudgetFrequency
  pub rollover : Option Bool
  pub rollover_start_month : Option Text
  pub created_at : Option Text
