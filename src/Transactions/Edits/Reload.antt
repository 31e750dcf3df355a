-- ===== src/Transactions/Edits/Reload.antt =====
-- frontend/src/features/transactions/hooks/useTransactions.ts, with domain/TransactionTransformer.ts:
-- what an edit shows, and what the list shows once it is loaded again.
use sumurai.Prelude.{◌≡◌, ap, ◌∙◌, Bool, true, Option, none, some, or_else, if◌then◌else◌, arith}
use sumurai.Prelude.Text.{Text}
use sumurai.Types.{Transaction}
use sumurai.Transformer.{
  BackendTransaction, has_text, nonempty, shows_detailed, kept_detailed, chosen_primary,
  chosen_detailed, backend_to_frontend,
}
use sumurai.Transactions.Edits.{recategorized, set_category, assign_created, set_rule}

-- the transaction at the backend with an override of the user, and with a rule and no override
abbrev pub with_override : Text → Text → BackendTransaction → BackendTransaction
with_override name sub bt = record bt { custom_category = some name; custom_subcategory = some sub }

abbrev pub with_rule : Text → Text → BackendTransaction → BackendTransaction
with_rule name sub bt = record bt {
  custom_category = none;
  custom_subcategory = none;
  rule_category = some name;
  rule_subcategory = some sub;
}

kept_shown :
    (b : Bool) (name sub : Text)
    → shows_detailed name sub ≡ true
    → some sub ≡ kept_detailed name (if b then some sub else some sub)
unfolding kept_detailed
kept_shown b name sub h = ground arith

nonempty_shown :
    (name sub : Text) (o : Option Text)
    → shows_detailed name sub ≡ true
    → or_else (nonempty (some sub)) o ≡ some sub
unfolding shows_detailed nonempty has_text
nonempty_shown name sub o h = ground arith

-- a transaction with another subcategory
with_detailed : Text → BackendTransaction → Option Text → Transaction
unfolding backend_to_frontend
with_detailed name bt o = record (backend_to_frontend bt) {
  category =
      some (record {
        primary = name;
        detailed = o;
        confidence_level = nonempty bt.category_confidence;
      });
}

-- A category with a subcategory that is shown: the list after the edit is what loading it again gives,
-- once the backend has stored the override or the rule.
pub edits_reload :
    (bt : BackendTransaction) (name sub : Text)
    → shows_detailed name sub ≡ true
    → (set_category name (some sub) (backend_to_frontend bt)
        ≡ backend_to_frontend (with_override name sub bt))
      × (assign_created name sub (backend_to_frontend bt)
          ≡ backend_to_frontend (with_override name sub bt))
      × (set_rule name (some sub) (backend_to_frontend bt)
          ≡ backend_to_frontend (with_rule name sub bt))
unfolding set_category assign_created set_rule recategorized backend_to_frontend chosen_primary
    chosen_detailed with_detailed
edits_reload bt name sub h =
    let kept : (b : Bool) → some sub ≡ kept_detailed name (if b then some sub else some sub) =
      λ b. kept_shown b name sub h in
    (
      ap (with_detailed name (with_override name sub bt)) (nonempty_shown name sub _ h ∙ kept _),
      ap (with_detailed name (with_override name sub bt)) (kept _),
      ap (with_detailed name (with_rule name sub bt)) (nonempty_shown name sub _ h ∙ kept _),
    )
