-- ===== src/Categories/Taxonomy.antt =====
-- The category taxonomy of frontend/src/utils/categories.ts (`CATEGORIES_TAXONOMY`).
use mathlib.Core.List.{List, [], ◌∷◌}
use sumurai.Prelude.Text.{Text, lit}

pub data CategoryGroupType : Type 0 where
  expense income exclude_from_budget : CategoryGroupType

pub record CategoryDefinition : Type 0 where
  pub name : Text
  pub type : CategoryGroupType
  pub subcategories : List Text

abbrev definition : Text → CategoryGroupType → List Text → CategoryDefinition
definition n t ss = record { name = n; type = t; subcategories = ss }

-- `abbrev` only where a test computes with it: the functions that read it are shut.
unfoldable pub categories_taxonomy : List CategoryDefinition
categories_taxonomy =
    definition (lit "Bills & Utilities") expense (
      lit "AI"
      ∷ lit "Internet"
      ∷ lit "Phone"
      ∷ lit "Television"
      ∷ lit "Utilities"
      ∷ lit "Water"
      ∷ [])
    ∷ definition (lit "Childcare") expense (
        lit "Baby Supplies"
        ∷ lit "Babysitter & Daycare"
        ∷ lit "Child Support"
        ∷ lit "Kids Activities"
        ∷ lit "Toys"
        ∷ [])
    ∷ definition (lit "Earned Income") income (lit "Bonus" ∷ lit "Paycheck" ∷ [])
    ∷ definition (lit "Education") expense (lit "Books & Supplies" ∷ lit "Tuition" ∷ [])
    ∷ definition (lit "Entertainment") expense (
        lit "Amusement"
        ∷ lit "Arts"
        ∷ lit "Movies & DVDs"
        ∷ lit "Music"
        ∷ lit "Newspaper & Magazines"
        ∷ lit "Subscription"
        ∷ [])
    ∷ definition (lit "Food & Dining") expense
        (lit "Alcohol & Bars" ∷ lit "Coffee Shops" ∷ lit "Fast Food" ∷ lit "Restaurants" ∷ [])
    ∷ definition (lit "Gifts & Donations") expense
        (lit "Charity" ∷ lit "Children Allowance" ∷ lit "Gifts" ∷ [])
    ∷ definition (lit "Groceries") expense (lit "Groceries" ∷ [])
    ∷ definition (lit "Home Improvement") expense (
        lit "Furnishings"
        ∷ lit "Household Supplies"
        ∷ lit "Lawn & Garden"
        ∷ lit "Plants & Needs"
        ∷ [])
    ∷ definition (lit "Home Management") expense
        (lit "Home Insurance" ∷ lit "Home Services" ∷ lit "Mortgage" ∷ [])
    ∷ definition (lit "Insurance") expense (
        lit "Auto Insurance"
        ∷ lit "Car Insurance"
        ∷ lit "Health Insurance"
        ∷ lit "Life Insurance"
        ∷ [])
    ∷ definition (lit "Medical") expense (
        lit "Dentist"
        ∷ lit "Doctor"
        ∷ lit "Eyecare"
        ∷ lit "Labs"
        ∷ lit "Mental Health"
        ∷ lit "Pharmacy"
        ∷ [])
    ∷ definition (lit "Pets") expense (lit "Boarding" ∷ lit "Insurance" ∷ [])
    ∷ definition (lit "Shopping") expense (
        lit "Books"
        ∷ lit "Clothing"
        ∷ lit "Decor"
        ∷ lit "Electronics"
        ∷ lit "Hair"
        ∷ lit "Hobbies"
        ∷ lit "Home"
        ∷ lit "Kitchen"
        ∷ lit "Laundry"
        ∷ lit "Personal Care"
        ∷ lit "Spa & Massage"
        ∷ lit "Toys"
        ∷ [])
    ∷ definition (lit "Taxes") expense (
        lit "Federal Tax"
        ∷ lit "Local Tax"
        ∷ lit "Property Tax"
        ∷ lit "Sales Tax"
        ∷ lit "State Tax"
        ∷ lit "Tax Filing"
        ∷ [])
    ∷ definition (lit "Tax Refund") income (
        lit "Federal Tax"
        ∷ lit "Local Tax"
        ∷ lit "Property Tax"
        ∷ lit "Sales Tax"
        ∷ lit "State Tax"
        ∷ [])
    ∷ definition (lit "Transportation") expense (
        lit "Auto Payment"
        ∷ lit "Car Insurance"
        ∷ lit "Car Maintainance"
        ∷ lit "Car Registration"
        ∷ lit "Gas"
        ∷ lit "Parking"
        ∷ lit "Public Transport"
        ∷ lit "Toll"
        ∷ lit "Traffic Ticket"
        ∷ [])
    ∷ definition (lit "Transfer") exclude_from_budget (
        lit "Cash Spending Transfer"
        ∷ lit "Credit Card Payment"
        ∷ lit "Crypto Deposit"
        ∷ lit "Crypto Withdrawal"
        ∷ lit "Investment Deposit"
        ∷ lit "Investment Withdrawal"
        ∷ lit "Mortgage Payment"
        ∷ [])
    ∷ definition (lit "Travel") expense
        (lit "Air Travel" ∷ lit "Hotel" ∷ lit "Rental Car & Transportation" ∷ [])
    ∷ []
