-- ===== src/Sankey/Colors.antt =====
-- frontend/src/domain/SankeyCalculator.ts: the colours of categories.
use sumurai.Prelude.{ℕ, zero, suc, ◌%◌, Option, none, some, List, [], ◌∷◌, length, if◌then◌else◌}
use sumurai.Prelude.Text.{Text, lit, eq, to_lower_case, trim, includes}

pub category_colors : List (Text × Text)
category_colors =
    (lit "earned income", lit "#10b981")
    ∷ (lit "income", lit "#10b981")
    ∷ (lit "paycheck", lit "#059669")
    ∷ (lit "salary", lit "#059669")
    ∷ (lit "bonus", lit "#34d399")
    ∷ (lit "net savings", lit "#10b981")
    ∷ (lit "from savings", lit "#f59e0b")
    ∷ (lit "total income", lit "#0d9488")
    ∷ (lit "total spending", lit "#64748b")
    ∷ (lit "bills & utilities", lit "#0284c7")
    ∷ (lit "food & dining", lit "#f43f5e")
    ∷ (lit "groceries", lit "#84cc16")
    ∷ (lit "home management", lit "#6366f1")
    ∷ (lit "home improvement", lit "#06b6d4")
    ∷ (lit "shopping", lit "#8b5cf6")
    ∷ (lit "transportation", lit "#f97316")
    ∷ (lit "medical", lit "#ec4899")
    ∷ (lit "education", lit "#14b8a6")
    ∷ (lit "entertainment", lit "#3b82f6")
    ∷ (lit "childcare", lit "#d946ef")
    ∷ (lit "insurance", lit "#0284c7")
    ∷ (lit "pets", lit "#eab308")
    ∷ (lit "gifts & donations", lit "#e11d48")
    ∷ (lit "travel", lit "#0ea5e9")
    ∷ (lit "other", lit "#64748b")
    ∷ (lit "uncategorized", lit "#94a3b8")
    ∷ []

pub palette : List Text
palette =
    lit "#0ea5e9"
    ∷ lit "#8b5cf6"
    ∷ lit "#10b981"
    ∷ lit "#f59e0b"
    ∷ lit "#f43f5e"
    ∷ lit "#06b6d4"
    ∷ lit "#6366f1"
    ∷ lit "#84cc16"
    ∷ lit "#ec4899"
    ∷ lit "#d946ef"
    ∷ lit "#3b82f6"
    ∷ []

pub color_named : Text → List (Text × Text) → Option Text
color_named norm [] = none
color_named norm ((key, color) ∷ cs) = if eq norm key then some color else color_named norm cs

pub color_within : Text → List (Text × Text) → Option Text
color_within norm [] = none
color_within norm ((key, color) ∷ cs) =
    if includes norm key then some color else color_within norm cs

pub text_at : ℕ → List Text → Text
text_at i [] = []
text_at zero (t ∷ ts) = t
text_at (suc i) (t ∷ ts) = text_at i ts

pub first_color : Option Text → Option Text → Text → Text
first_color (some c) o d = c
first_color none (some c) d = c
first_color none none d = d

pub get_category_color : Text → ℕ → Text
get_category_color name index =
    let norm = to_lower_case (trim name) in
    first_color (color_named norm category_colors) (color_within norm category_colors)
      (text_at (index % length palette) palette)
