-- ===== src/Accounts/Grouping.antt =====
-- frontend/src/hooks/useAccountFilter.tsx: the accounts by bank.
use sumurai.Prelude.{◌≡◌, List, [], ◌∷◌, ◌++◌, filter, if◌then◌else◌, arith, ◌∙◌, sym}
use mathlib.Core.List.{append_assoc, append-nil}
use sumurai.Prelude.Text.{Text, eq}
use sumurai.Prelude.Sets.{eq-left, eq_sym}
use sumurai.Accounts.{
  ProviderAccount, Banks, bank_name, add_to_bank, group_from, group_accounts_by_bank, accounts_of,
}

accounts_of-add_to_bank :
    (bank new : Text) (a : ProviderAccount) (bs : Banks)
    → accounts_of bank (add_to_bank new a bs)
      ≡ (if eq new bank then accounts_of bank bs ++ a ∷ [] else accounts_of bank bs)
unfolding accounts_of add_to_bank
accounts_of-add_to_bank bank new a [] = ground arith
accounts_of-add_to_bank bank new a ((b, items) ∷ bs) = ground (
  arith,
  accounts_of-add_to_bank bank new a bs,
  eq-left b new bank,
  eq-left b bank new,
  eq_sym bank new,
)

accounts_of-group_from :
    (bank : Text) (acc : Banks) (items : List ProviderAccount)
    → accounts_of bank (group_from acc items)
      ≡ accounts_of bank acc ++ filter (λ a. eq (bank_name a) bank) items
unfolding group_from
accounts_of-group_from bank acc [] = sym (append-nil (accounts_of bank acc))
accounts_of-group_from bank acc (a ∷ items) =
    accounts_of-group_from bank (add_to_bank (bank_name a) a acc) items
    ∙ ground (
      arith,
      accounts_of-add_to_bank bank (bank_name a) a acc,
      append_assoc (accounts_of bank acc) (a ∷ []) (filter (λ b. eq (bank_name b) bank) items),
    )

-- The accounts under the name of a bank are the accounts of that bank, in the order of the list.
pub accounts_of-group_accounts_by_bank :
    (bank : Text) (items : List ProviderAccount)
    → accounts_of bank (group_accounts_by_bank items) ≡ filter (λ a. eq (bank_name a) bank) items
unfolding group_accounts_by_bank accounts_of
accounts_of-group_accounts_by_bank bank items = accounts_of-group_from bank [] items
