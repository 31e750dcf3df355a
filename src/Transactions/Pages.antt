-- ===== src/Transactions/Pages.antt =====
-- frontend/src/features/transactions/hooks/useTransactions.ts: the pages of the list.
pub mod Cover
use sumurai.Prelude.{ℕ, ◌+◌, ◌-◌, ◌*◌, ◌/◌, List, take, drop, length, max, if◌then◌else◌, ltb}

-- `Math.max(1, Math.ceil(totalItems / pageSize))`
pub total_pages : ℕ → ℕ → ℕ
total_pages page_size total_items = max 1 ((total_items + page_size - 1) / page_size)

-- The page is at least 1, so that `slice` starts at a place from 0 on.
pub page_items {ℓ} : {A : Type ℓ} → ℕ → ℕ → List A → List A
page_items page_size page items = take page_size (drop ((page - 1) * page_size) items)

-- the effect that keeps the page among the pages
pub clamp_page : ℕ → ℕ → ℕ
clamp_page total current = if ltb total current then total else current
