-- ===== src/Accounts/Tests.antt =====
-- Runs of the account filter.
use sumurai.Prelude.{◌≡◌, refl, false, none, List, [], ◌∷◌}
use sumurai.Prelude.Text.{Text, lit, eq, contains}
use sumurai.Types.{plaid}
use sumurai.Accounts.{
  ProviderAccount, FilterState, initial, ids, bank_name, add_to_bank, group_from,
  group_accounts_by_bank, accounts_of, push_new, had_all_selected, next_selection, finish_fetch,
  toggle_bank, toggle_account,
}
use sumurai.Accounts.Selection.{
  IsConsistent, Reach, start, next, fetched, account_toggled, bank_toggled, Reach-IsConsistent,
}

abbrev account : Text → Text → ProviderAccount
account id bank = record {
  id = id;
  name = id;
  account_type = lit "checking";
  balance_ledger = none;
  balance_available = none;
  mask = none;
  provider = plaid;
  institution_name = bank;
  provider_account_id = none;
  provider_connection_id = none;
}

abbrev accounts : List ProviderAccount
accounts =
    account (lit "a") (lit "North")
    ∷ account (lit "b") (lit "South")
    ∷ account (lit "c") (lit "North")
    ∷ []

-- fetch, then deselect one account, then a bank
abbrev after_fetch : FilterState
after_fetch = finish_fetch accounts initial

abbrev after_toggle : FilterState
after_toggle = toggle_account (lit "b") after_fetch

abbrev after_bank : FilterState
after_bank = toggle_bank (lit "North") after_toggle

toggle_run : (after_toggle.selected ≡ lit "a" ∷ lit "c" ∷ []) × (after_bank.selected ≡ [])
unfolding eq ids bank_name add_to_bank group_from group_accounts_by_bank accounts_of push_new
    had_all_selected next_selection finish_fetch toggle_bank toggle_account
toggle_run = (refl, refl)

accounts_once :
    (contains (lit "b" ∷ lit "c" ∷ []) (lit "a") ≡ false)
    × ((contains (lit "c" ∷ []) (lit "b") ≡ false) × ((false ≡ false) × Unit {0}))
unfolding eq
accounts_once = (refl, (refl, (refl, tt)))

reached : Reach after_bank
unfolding ids finish_fetch eq
reached =
    next
      (next (next start (fetched accounts initial accounts_once))
        (account_toggled (lit "b") after_fetch refl))
      (bank_toggled (lit "North") after_toggle)

Reach-IsConsistent_example : IsConsistent after_bank
Reach-IsConsistent_example = Reach-IsConsistent after_bank reached

abbrev old_ids : List Text
old_ids = lit "a" ∷ lit "b" ∷ []

abbrev new_ids : List Text
new_ids = lit "a" ∷ lit "b" ∷ lit "c" ∷ []

had_not_all : had_all_selected old_ids (lit "a" ∷ []) ≡ false
unfolding had_all_selected
had_not_all = refl
