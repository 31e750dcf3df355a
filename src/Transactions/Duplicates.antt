-- ===== src/Transactions/Duplicates.antt =====
-- frontend/src/features/transactions/hooks/useTransactions.ts: the pending transactions that are
-- hidden because their posted copy is there.
pub mod Hidden
mod Tests
use sumurai.Prelude.{
  ℕ, ◌+◌, ◌-◌, Bool, true, false, not, ◌&&◌, ◌||◌, Option, none, some, List, [], ◌∷◌, ◌++◌, filter,
  any, take, length, if◌then◌else◌, get_or, ◌==◌, leb, ◌>>=◌,
}
use sumurai.Prelude.Int.{ℤ, pos, negsuc}
use sumurai.Prelude.Text.{
  Text, lit, eq, is_empty, is_alnum, or_text, to_lower_case, includes, split, contains,
}
use sumurai.Types.{Transaction}
use sumurai.Dates.{parse_date}
use sumurai.Dates.Calendar.{serial}

-- `value.toLowerCase().replace(/[^a-z0-9]+/g, '')`
pub normalize_merchant : Text → Text
normalize_merchant value = filter is_alnum (to_lower_case value)

pub stop_words : List Text
stop_words =
    lit "purchase"
    ∷ lit "payment"
    ∷ lit "payments"
    ∷ lit "authorized"
    ∷ lit "recurring"
    ∷ lit "card"
    ∷ lit "draft"
    ∷ lit "entry"
    ∷ lit "descr"
    ∷ lit "pmts"
    ∷ lit "mktplace"
    ∷ lit "mktpl"
    ∷ []

-- the matches of `/[a-z0-9]{3,}/g` that are no stop words
pub tokenize_merchant : Text → List Text
tokenize_merchant value =
    filter (λ m. leb 3 (length m) && not (contains stop_words m))
      (split (λ c. not (is_alnum c)) (to_lower_case value))

pub shares_token : Text → Text → Bool
shares_token a b = any (contains (tokenize_merchant b)) (tokenize_merchant a)

-- `a.length >= 6 && b.includes(a.slice(0, 6))`
pub includes_start : Text → Text → Bool
includes_start a b = leb 6 (length a) && includes b (take 6 a)

pub merchants_look_related : Text → Text → Bool
merchants_look_related a b =
    let merchant_a = normalize_merchant a in
    let merchant_b = normalize_merchant b in
    if is_empty merchant_a || is_empty merchant_b
    then false
    else if eq merchant_a merchant_b
        || includes merchant_a merchant_b
        || includes merchant_b merchant_a
    then true
    else if includes_start merchant_a merchant_b
    then true
    else if includes_start merchant_b merchant_a
    then true
    else shares_token a b

-- `Number(amount) === 0`; an amount that is no number is NaN
pub is_zero_amount : Option ℤ → Bool
is_zero_amount (some (pos n)) = n == 0
is_zero_amount _ = false

-- Whether two amounts are written the same by `toFixed(2)`.
pub same_amount : Option ℤ → Option ℤ → Bool
same_amount (some (pos m)) (some (pos n)) = m == n
same_amount (some (negsuc m)) (some (negsuc n)) = m == n
same_amount none none = true
same_amount _ _ = false

pub within_week : Text → Text → Bool
within_week a b =
    get_or
      (do
        x ← parse_date a
        y ← parse_date b
        some (leb ((serial x - serial y) + (serial y - serial x)) 7))
      false

-- `Boolean(a) && a === b`
pub same_account : Option Text → Option Text → Bool
same_account (some a) (some b) = not (is_empty a) && eq a b
same_account _ _ = false

pub are_duplicate_candidates : Transaction → Transaction → Bool
are_duplicate_candidates a b =
    same_account a.account_id b.account_id
    && not (is_zero_amount a.amount)
    && same_amount a.amount b.amount
    && within_week a.date b.date
    && merchants_look_related (or_text a.merchant a.name) (or_text b.merchant b.name)

abbrev pub is_pending : Transaction → Bool
is_pending t = get_or t.pending false

pub has_posted_match : List Transaction → Transaction → Bool
has_posted_match filtered t =
    any (λ c. not (eq c.id t.id || is_pending c) && are_duplicate_candidates t c) filtered

-- Whether the loop adds the id of a transaction.
pub is_candidate : List Transaction → Transaction → Bool
is_candidate filtered t =
    not (is_empty (get_or t.account_id []) || is_zero_amount t.amount)
    && is_pending t
    && has_posted_match filtered t

-- `Set.add`
pub add_id : Text → List Text → List Text
add_id i is = if contains is i then is else is ++ i ∷ []

pub candidates_from : List Text → List Transaction → List Transaction → List Text
candidates_from acc filtered [] = acc
candidates_from acc filtered (t ∷ ts) =
    candidates_from (if is_candidate filtered t then add_id t.id acc else acc) filtered ts

pub duplicate_candidate_ids : List Transaction → List Text
duplicate_candidate_ids filtered = candidates_from [] filtered filtered

pub active_transactions : List Transaction → List Transaction
active_transactions filtered =
    filter (λ t. not (contains (duplicate_candidate_ids filtered) t.id)) filtered
